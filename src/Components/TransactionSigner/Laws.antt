-- ===== src/Components/TransactionSigner/Laws.antt =====
-- What the signer comes to, and what it shows.
use namecoin.Prelude.{◌≡◌, ◌⊎◌, inl, inr, refl, arith, false, some, [], ◌∷◌, ◌++◌}
use namecoin.Js.Text.{js, text_eq}
use namecoin.Js.Value.{Value, Fields, undefined, get_field}
use namecoin.Js.Effect.{Exception, Result, ok, throw, catch_with, finally, within, ◌>>=◌}
use namecoin.Js.Platform.{Platform}
use namecoin.Services.Transaction.{Transaction}
use namecoin.Composables.UseTransaction.{TxState, success, failed, sign_and_send}
use namecoin.Composables.UseTransaction.Send.{Sent, NotSent, sign_and_send-ends}
use namecoin.Markup.{Vue, offers, texts, node_texts}
use namecoin.Components.TransactionSigner.{Signer, transaction_sent, handle_sign, in_shared, emit}
use namecoin.Components.TransactionSigner.Template.{
  transaction_object, detail, details, signer_view,
}

-- What the template shows of a transaction: the type and the identifier. It also asks for `source`, `fee` and
-- `nonce`, which no transaction has, so that these three places are empty if Vue shows nothing for
-- `undefined`.
pub details-texts :
    (u : Vue) (tx : Transaction)
    → u.display undefined ≡ []
    → node_texts (details u (transaction_object tx))
      ≡ js "Type:"
        ∷ u.display tx.type
        ∷ js "Source:"
        ∷ []
        ∷ js "Fee:"
        ∷ []
        ∷ js "Nonce:"
        ∷ []
        ∷ js "Transaction ID:"
        ∷ u.display tx.transaction_id
        ∷ []
unfolding texts details detail transaction_object get_field js text_eq
details-texts u tx blank = rw blank

-- How a signature ends: with the answer of the node, or with an error.
abbrev pub Signed : Platform → Transaction → Signer → Signer → Type 0
Signed p tx s t =
    ((v : Value) × Sent p s.private_key tx s.shared t.shared v
      × (t.emitted ≡ s.emitted ++ transaction_sent v ∷ []))
    ⊎ ((e : Exception) × NotSent s.shared t.shared e × (t.emitted ≡ s.emitted))

offers-ended :
    (u : Vue) (transaction : Fields) (s : Signer)
    → (s.shared.status ≡ success) ⊎ (s.shared.status ≡ failed)
    → offers (signer_view u transaction s) ≡ []
unfolding offers signer_view details detail
offers-ended u transaction s (inl e) = rw e
offers-ended u transaction s (inr e) = rw e

abbrev after : Signer → Result Value × TxState → Result (Unit {0}) × Signer
after s (ok v, t) = (
  ok tt,
  record s { shared = t; is_signing = false; emitted = s.emitted ++ transaction_sent v ∷ [] },
)
after s (throw e, t) = (ok tt, record s { shared = t; is_signing = false })

handle_sign_lem :
    (p : Platform) (s : Signer) → handle_sign p s ≡ after s (sign_and_send p s.private_key s.shared)
unfolding handle_sign in_shared emit catch_with finally within ◌>>=◌
handle_sign_lem p s = ground arith

module _ (p : Platform) (tx : Transaction) (u : Vue) (transaction : Fields) (s : Signer) where
  abbrev SignEnds : Result (Unit {0}) × Signer → Type 0
  SignEnds o =
      (o.0 ≡ ok tt)
      × (o.1.is_signing ≡ false)
      × Signed p tx s o.1
      × (offers (signer_view u transaction o.1) ≡ [])

  Sent-SignEnds :
      (o : Result Value × TxState) (v : Value)
      → Sent p s.private_key tx s.shared o.1 v
      → o.0 ≡ ok v
      → SignEnds (after s o)
  Sent-SignEnds (r, t) v sent e =
      rw e (refl, refl, inl (v, sent, refl), offers-ended u transaction _ (inl sent.status))

  failed-SignEnds :
      (o : Result Value × TxState) (x : Exception)
      → NotSent s.shared o.1 x
      → o.0 ≡ throw x
      → SignEnds (after s o)
  failed-SignEnds (r, t) x not_sent e =
      rw e (refl, refl, inr (x, not_sent, refl), offers-ended u transaction _ (inr not_sent.status))

-- With a current transaction `handleSign` returns, and the component is not left signing. Either just one request was
-- sent, with a signature of the transaction's hash, the status is success, and `transaction-sent` was emitted with
-- what the node answered, or the status is the error one with a message and nothing was emitted. Either way the component offers no button any more.
pub handle_sign-ends :
    (p : Platform) (u : Vue) (transaction : Fields) (s : Signer) (tx : Transaction)
    → s.shared.current ≡ some tx
    → ((handle_sign p s).0 ≡ ok tt)
      × ((handle_sign p s).1.is_signing ≡ false)
      × Signed p tx s (handle_sign p s).1
      × (offers (signer_view u transaction (handle_sign p s).1) ≡ [])
handle_sign-ends p u transaction s tx current =
    rw (handle_sign_lem p s) (elim (sign_and_send-ends p s.private_key tx s.shared current) [
      | inl (v, e, sent) ↦ Sent-SignEnds p tx u transaction s _ v sent e
      | inr (x, e, not_sent) ↦ failed-SignEnds p tx u transaction s _ x not_sent e
    ])
