-- ===== src/Composables/UseTransaction/Calls/Mixed.antt =====
-- What `signAndSend` sends when another call replaces the transaction that it is signing.
use namecoin.Prelude.{◌≡◌, ap, true, arith, some, List, [], ◌∷◌, ◌++◌}
use namecoin.Js.Text.{Text, js}
use namecoin.Js.Value.{Value, str}
use namecoin.Js.Effect.{Result, ok}
use namecoin.Js.Platform.{Platform, Browser}
use namecoin.Services.Transaction.{Transaction, validate_transaction}
use namecoin.Services.Crypto.{hash_transaction, generate_transaction_signature}
use namecoin.Services.Api.{send_transaction, post_request, get_base_url, body_of, send_object}
use namecoin.Services.Api.Laws.{send, run_api, run_api-Ends}
use namecoin.Composables.UseTransaction.{TxState, in_browser, stop_processing}
use namecoin.Composables.UseTransaction.Send.{mark, send_object-mark}
use namecoin.Composables.UseTransaction.Calls.{
  Turn, turn, identified, send_call, advance, run_turns,
}

-- `signAndSend` hashes, `createTransaction` ends, and `signAndSend` signs and sends.
abbrev pub overtaken : List Turn
overtaken = turn 0 ∷ turn 1 ∷ turn 0 ∷ turn 0 ∷ []

module _ (p : Platform) (key : Text) (a b : Transaction) (h g : Text) (s : TxState) where
  overtaken_lem :
      s.current ≡ some a
      → (validate_transaction p b).valid ≡ true
      → hash_transaction p a ≡ ok h
      → generate_transaction_signature p h key ≡ ok g
      → (run_turns p overtaken (send_call key ∷ identified (ok b) ∷ []) s).1.browser
        ≡ (send_transaction p (mark b h) (str g) s.browser).1
  unfolding run_turns advance stop_processing in_browser
  overtaken_lem = ground arith

  send_transaction-requests :
      (body : Value)
      → p.canonicalize (send_object b (str g)) ≡ ok body
      → (send_transaction p (mark b h) (str g) s.browser).1.sent
        ≡ post_request (get_base_url p ++ js "/namecoin/handle") (body_of p body) ∷ s.browser.sent
  unfolding run_api
  send_transaction-requests body e =
      let done = rw (send_object-mark, e) at (run_api-Ends p (send (mark b h) (str g)) s.browser) in
      ap (λ (o : Result Value × Browser). o.1.sent) done

-- If `createTransaction` makes `b` the current transaction while `signAndSend` waits for the hash of `a`,
-- the request that goes out has the fields of `b` and the signature of the hash of `a`.
pub overtaken-sent :
    (p : Platform) (key : Text) (a b : Transaction) (h g : Text) (body : Value) (s : TxState)
    → s.current ≡ some a
    → (validate_transaction p b).valid ≡ true
    → hash_transaction p a ≡ ok h
    → generate_transaction_signature p h key ≡ ok g
    → p.canonicalize (send_object b (str g)) ≡ ok body
    → (run_turns p overtaken (send_call key ∷ identified (ok b) ∷ []) s).1.browser.sent
      ≡ post_request (get_base_url p ++ js "/namecoin/handle") (body_of p body) ∷ s.browser.sent
overtaken-sent p key a b h g body s current valid hash signature canonical =
    rw (overtaken_lem p key a b h g s current valid hash signature)
      (send_transaction-requests p key a b h g s body canonical)
