-- ===== src/Composables/UseTransaction/Calls/Approved.antt =====
-- What the current transaction is, whatever calls take turns.
use namecoin.Prelude.{
  ℕ, zero, suc, ◌≡◌, refl, ap, true, Bool-cases, inl, inr, Option, none, some, List, [], ◌∷◌, All,
}
use namecoin.Js.Text.{Text, js, join}
use namecoin.Js.Value.{str}
use namecoin.Js.Effect.{Exception, error, type_error, Result, ok, throw, modify, within, ◌>>=◌}
use namecoin.Js.Platform.{Platform}
use namecoin.Services.Transaction.{Transaction, compute_transaction_id, validate_transaction}
use namecoin.Services.Crypto.{hash_transaction}
use namecoin.Services.Crypto.Identity.{compute_transaction_id-eq-hash}
use namecoin.Composables.UseTransaction.{
  TxState, in_browser, create_failed, send_failed, stop_processing, clear_transaction,
}
use namecoin.Composables.UseTransaction.Calls.{
  Call, Turn, turn, clear, create_call, built, planned, identified, create_done, send_call, hashed,
  signed, posted, send_done, with_plan, create_fails, send_fails, advance, advance_at, run_turns,
}

module _ (p : Platform) where
  -- The identifier of the transaction is its hash.
  abbrev pub IsIdentified : Transaction → Type 0
  IsIdentified tx = (id : Text) × (tx.transaction_id ≡ str id) × (hash_transaction p tx ≡ ok id)

  -- There is no transaction, or one that is valid and has its hash for an identifier.
  abbrev pub IsApproved : Option Transaction → Type 0
  IsApproved none = Unit
  IsApproved (some tx) = ((validate_transaction p tx).valid ≡ true) × IsIdentified tx

  -- What a waiting call will make the current transaction.
  abbrev pub IsSound : Call → Type 0
  IsSound (identified (ok tx)) = IsIdentified tx
  IsSound _ = Unit

  abbrev IsStill : Call × TxState → Type 0
  IsStill o = IsSound o.0 × IsApproved o.1.current

  compute-IsSound :
      (tx : Transaction) (r : Result Transaction)
      → compute_transaction_id p tx ≡ r
      → IsSound (identified r)
  compute-IsSound tx (ok tx') e =
      let (id, same, h) = compute_transaction_id-eq-hash p tx tx' e in
      (id, ap (λ (t : Transaction). t.transaction_id) same, h)
  compute-IsSound tx (throw x) e = tt

  mark-IsApproved :
      (tx : Transaction) (h : Text)
      → IsApproved (some tx)
      → IsApproved (some (record tx { tx_hash = str h }))
  unfolding validate_transaction hash_transaction
  mark-IsApproved tx h a = a

  create_fails-IsStill :
      (e : Exception) (s : TxState) → IsApproved s.current → IsStill (create_fails p e s)
  unfolding create_fails create_failed ◌>>=◌
  create_fails-IsStill e s a = (tt, a)

  send_fails-IsStill :
      (e : Exception) (s : TxState) → IsApproved s.current → IsStill (send_fails p e s)
  unfolding send_fails send_failed ◌>>=◌
  send_fails-IsStill e s a = (tt, a)

  planned-IsStill :
      (tx : Transaction) (r : Result Transaction) (s : TxState)
      → IsApproved s.current
      → IsStill (elim r [
        | throw e ↦ create_fails p e s
        | ok funded ↦ (identified (compute_transaction_id p funded), s)
      ])
  planned-IsStill tx (throw e) s a = create_fails-IsStill e s a
  planned-IsStill tx (ok funded) s a = (compute-IsSound funded _ refl, a)

  identified-IsStill :
      (tx : Transaction) (s : TxState)
      → IsIdentified tx
      → IsApproved s.current
      → IsStill (advance p (identified (ok tx)) s)
  unfolding advance stop_processing
  identified-IsStill tx s i a = elim (Bool-cases (validate_transaction p tx).valid) [
    | inl v ↦ rw v (tt, (v, i))
    | inr v ↦
        rw v (create_fails-IsStill (error (join (js ", ") (validate_transaction p tx).errors)) s a)
  ]

  hashed-IsStill :
      (key h : Text) (c : Option Transaction) (s : TxState)
      → s.current ≡ c
      → IsApproved s.current
      → IsStill (advance p (hashed key (ok h)) s)
  unfolding advance
  hashed-IsStill key h none s e a =
      rw e (send_fails-IsStill (type_error p.no_property) (record s { current = none }) tt)
  hashed-IsStill key h (some tx) s e a = rw e (tt, mark-IsApproved tx h (rw e at a))

  signed-IsStill :
      (g : Text) (c : Option Transaction) (s : TxState)
      → s.current ≡ c
      → IsApproved s.current
      → IsStill (advance p (signed (ok g)) s)
  unfolding advance in_browser within
  signed-IsStill g none s e a = rw e (tt, tt)
  signed-IsStill g (some tx) s e a = rw e (tt, rw e at a)

  start-IsStill :
      (key : Text) (c : Option Transaction) (s : TxState)
      → s.current ≡ c
      → IsApproved s.current
      → IsStill (advance p (send_call key) s)
  unfolding advance
  start-IsStill key none s e a = rw e (tt, tt)
  start-IsStill key (some tx) s e a = rw e (tt, rw e at a)

  advance-IsStill :
      (c : Call) (s : TxState) → IsSound c → IsApproved s.current → IsStill (advance p c s)
  unfolding advance in_browser within stop_processing
  advance-IsStill (create_call params) s i a = (tt, a)
  advance-IsStill (built tx) s i a = (tt, a)
  advance-IsStill (planned tx (throw e)) s i a = create_fails-IsStill e s a
  advance-IsStill (planned tx (ok plan)) s i a = planned-IsStill tx (with_plan p tx plan) s a
  advance-IsStill (identified (throw e)) s i a = create_fails-IsStill e s a
  advance-IsStill (identified (ok tx)) s i a = identified-IsStill tx s i a
  advance-IsStill (create_done r) s i a = (tt, a)
  advance-IsStill (send_call key) s i a = start-IsStill key s.current s refl a
  advance-IsStill (hashed key (throw e)) s i a = send_fails-IsStill e s a
  advance-IsStill (hashed key (ok h)) s i a = hashed-IsStill key h s.current s refl a
  advance-IsStill (signed (throw e)) s i a = send_fails-IsStill e s a
  advance-IsStill (signed (ok g)) s i a = signed-IsStill g s.current s refl a
  advance-IsStill (posted g (throw e)) s i a = send_fails-IsStill e s a
  advance-IsStill (posted g (ok v)) s i a = (tt, a)
  advance-IsStill (send_done r) s i a = (tt, a)

  advance_at-IsStill :
      (i : ℕ) (cs : List Call) (s : TxState)
      → All IsSound cs
      → IsApproved s.current
      → All IsSound (advance_at p i cs s).0 × IsApproved (advance_at p i cs s).1.current
  unfolding advance_at
  advance_at-IsStill i [] s all a = (tt, a)
  advance_at-IsStill zero (c ∷ cs) s (sound, all) a =
      let (sound', a') = advance-IsStill c s sound a in ((sound', all), a')
  advance_at-IsStill (suc i) (c ∷ cs) s (sound, all) a =
      let (all', a') = advance_at-IsStill i cs s all a in ((sound, all'), a')

-- Whatever calls of `createTransaction`, `signAndSend` and `clearTransaction` take turns at their awaits,
-- and in any order: if the current transaction is none or a valid one whose identifier is its hash, and the
-- same holds of what a waiting call is about to make current, then the current transaction is such
-- after all the turns as well.
pub run_turns-IsApproved :
    (p : Platform) (ts : List Turn) (cs : List Call) (s : TxState)
    → All (IsSound p) cs
    → IsApproved p s.current
    → IsApproved p (run_turns p ts cs s).1.current
unfolding run_turns clear_transaction modify
run_turns-IsApproved p [] cs s all a = a
run_turns-IsApproved p (turn i ∷ ts) cs s all a =
    let (all', a') = advance_at-IsStill p i cs s all a in run_turns-IsApproved p ts _ _ all' a'
run_turns-IsApproved p (clear ∷ ts) cs s all a = run_turns-IsApproved p ts cs _ all tt
