-- ===== src/Composables/UseTransaction/Calls.antt =====
-- useTransaction.js with calls that take turns at their awaits: each step is the code between two of them.
pub mod Approved
pub mod Mixed
use namecoin.Prelude.{
  ℕ, zero, suc, Bool, true, false, Option, none, some, List, [], ◌∷◌, ◌++◌, if◌then◌else◌,
}
use namecoin.Js.Text.{Text, js, join}
use namecoin.Js.Value.{Value, undefined, str, arr, nil, or_else}
use namecoin.Js.Effect.{Result, Exception, ok, throw, error, type_error, message}
use namecoin.Js.Platform.{Platform, Browser, ask}
use namecoin.Services.Transaction.{
  BuildParams, Transaction, build_transaction, compute_transaction_id, validate_transaction,
}
use namecoin.Services.Crypto.{hash_transaction, generate_transaction_signature}
use namecoin.Services.Api.{get_spend_plan, send_transaction}
use namecoin.Services.Wallet.{property}
use namecoin.Composables.UseTransaction.{
  TxState, HistoryEntry, Status, signing, sending, success, in_browser, stop_processing,
  create_failed, send_failed, clear_transaction,
}

-- A call of `createTransaction` or `signAndSend`, at its start, at an await or at its end, with what it
-- waits for: a result that is settled when the wait begins, from the state of that moment.
pub data Call : Type 0 where
  create_call : BuildParams → Call
  built : Transaction → Call
  planned : Transaction → Result Value → Call
  identified : Result Transaction → Call
  create_done : Result Transaction → Call
  send_call : Text → Call
  hashed : Text → Result Text → Call
  signed : Result Text → Call
  posted : Text → Result Value → Call
  send_done : Result Value → Call

-- What a copy of `null` has: no property at all.
abbrev absent : Transaction
absent = record {
  type = undefined;
  sender = undefined;
  amount = undefined;
  payload = undefined;
  pk = undefined;
  inputs = undefined;
  outputs = undefined;
  transaction_id = undefined;
  tx_hash = undefined;
}

-- `{ ...currentTransaction.value }`
abbrev copy : Option Transaction → Transaction
copy none = absent
copy (some tx) = tx

-- The lists of a spend plan, put into a transaction.
abbrev pub with_plan : Platform → Transaction → Value → Result Transaction
with_plan p tx plan = elim (property p (js "inputs") plan) [
  | throw e ↦ throw e
  | ok inputs ↦ elim (property p (js "outputs") plan) [
    | throw e ↦ throw e
    | ok outputs ↦
        ok (record tx { inputs = or_else inputs (arr nil); outputs = or_else outputs (arr nil) })
  ]
]

module _ (p : Platform) where
  -- the `catch` and the `finally` of each function
  unfoldable pub create_fails : Exception → TxState → Call × TxState
  unfolding create_failed stop_processing
  create_fails e s = let (r, t) = create_failed p e s in (create_done r, stop_processing t)

  unfoldable pub send_fails : Exception → TxState → Call × TxState
  unfolding send_failed stop_processing
  send_fails e s = let (r, t) = send_failed p e s in (send_done r, stop_processing t)

  -- The code of a call up to its next await.
  unfoldable pub advance : Call → TxState → Call × TxState
  unfolding create_fails send_fails stop_processing in_browser
  advance (create_call params) s =
      (built (build_transaction params), record s { is_processing = true; error_text = none })
  advance (built tx) s =
      let (r, t) = in_browser (get_spend_plan p tx.sender tx.amount) s in (planned tx r, t)
  advance (planned tx (throw e)) s = create_fails e s
  advance (planned tx (ok plan)) s = elim (with_plan p tx plan) [
    | throw e ↦ create_fails e s
    | ok funded ↦ (identified (compute_transaction_id p funded), s)
  ]
  advance (identified (throw e)) s = create_fails e s
  advance (identified (ok tx)) s =
      let v = validate_transaction p tx in
      if v.valid
      then (create_done (ok tx), stop_processing (record s { current = some tx }))
      else create_fails (error (join (js ", ") v.errors)) s
  advance (create_done r) s = (create_done r, s)
  advance (send_call key) s = elim s.current [
    | none ↦ (send_done (throw (error (js "No transaction to sign"))), s)
    | some tx ↦ (
      hashed key (hash_transaction p tx),
      record s { is_processing = true; status = signing; error_text = none },
    )
  ]
  advance (hashed key (throw e)) s = send_fails e s
  advance (hashed key (ok h)) s = elim s.current [
    | none ↦ send_fails (type_error p.no_property) s
    | some tx ↦ (
      signed (generate_transaction_signature p h key),
      record s { current = some (record tx { tx_hash = str h }) },
    )
  ]
  advance (signed (throw e)) s = send_fails e s
  advance (signed (ok g)) s =
      let s' = record s { status = sending } in
      elim s.current [
        | none ↦ (posted g (throw (type_error p.no_property)), s')
        | some tx ↦ let (r, t) = in_browser (send_transaction p tx (str g)) s' in (posted g r, t)
      ]
  advance (posted g (throw e)) s = send_fails e s
  advance (posted g (ok v)) s =
      let b = s.browser in
      (
        send_done (ok v),
        stop_processing (record s {
          browser = record b { asked = suc b.asked };
          status = success;
          history =
              s.history
              ++ record {
                transaction = copy s.current;
                signature = g;
                timestamp = p.iso_date b.asked;
                result = v;
              }
                ∷ [];
        }),
      )
  advance (send_done r) s = (send_done r, s)

  -- The call at a place of the list goes on.
  unfoldable pub advance_at : ℕ → List Call → TxState → List Call × TxState
  unfolding advance
  advance_at i [] s = ([], s)
  advance_at zero (c ∷ cs) s = let (c', s') = advance c s in (c' ∷ cs, s')
  advance_at (suc i) (c ∷ cs) s = let (cs', s') = advance_at i cs s in (c ∷ cs', s')

-- What the event loop may do next.
pub data Turn : Type 0 where
  turn : ℕ → Turn
  clear : Turn

module _ (p : Platform) where
  unfoldable pub run_turns : List Turn → List Call → TxState → List Call × TxState
  unfolding advance_at clear_transaction
  run_turns [] cs s = (cs, s)
  run_turns (turn i ∷ ts) cs s = let (cs', s') = advance_at p i cs s in run_turns ts cs' s'
  run_turns (clear ∷ ts) cs s = run_turns ts cs (clear_transaction s).1
