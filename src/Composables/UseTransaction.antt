-- ===== src/Composables/UseTransaction.antt =====
-- frontend/src/composables/useTransaction.js: the one transaction that the page is working on.
pub mod Create
pub mod Send
pub mod Calls
use namecoin.Prelude.{Bool, true, false, Option, none, some, List, [], ◌∷◌, ◌++◌, if◌then◌else◌}
use namecoin.Js.Text.{Text, js, join}
use namecoin.Js.Value.{Value, str, arr, nil, or_else}
use namecoin.Js.Effect.{
  Result, Exception, ok, throw, error, type_error, message, Run, pure, raise, lift, gets, modify,
  catch_with, finally, within, check, ◌>>=◌, ◌>>◌,
}
use namecoin.Js.Platform.{Platform, Browser, Io, ask}
use namecoin.Services.Transaction.{
  BuildParams, Transaction, build_transaction, compute_transaction_id, Validation,
  validate_transaction,
}
use namecoin.Services.Crypto.{hash_transaction, generate_transaction_signature}
use namecoin.Services.Api.{get_spend_plan, send_transaction}
use namecoin.Services.Wallet.{property}

pub data Status : Type 0 where
  idle signing sending success failed : Status

-- What `txHistory` keeps of a transaction that was sent.
pub record HistoryEntry : Type 0 where
  pub transaction : Transaction
  pub signature : Text
  pub timestamp : Text
  pub result : Value

-- The refs of the module; `failed` is the status 'error', and `none` is `null`.
pub record TxState : Type 0 where
  pub browser : Browser
  pub current : Option Transaction
  pub is_processing : Bool
  pub status : Status
  pub error_text : Option Text
  pub history : List HistoryEntry

abbrev pub Tx : Type 0 → Type 0
Tx A = Run TxState A

unfoldable pub in_browser : {A : Type 0} → Io A → Tx A
unfolding within
in_browser m = within (λ s. s.browser) (λ b s. record s { browser = b }) m

unfoldable pub stop_processing : TxState → TxState
stop_processing s = record s { is_processing = false }

-- `currentTransaction.value`, of which a property is read at once
unfoldable pub current_or_throw : Platform → Option Transaction → Result Transaction
current_or_throw p none = throw (type_error p.no_property)
current_or_throw p (some tx) = ok tx

module _ (p : Platform) where
  -- The body of the `try` of `createTransaction`.
  unfoldable pub create_steps : BuildParams → Tx Transaction
  create_steps params = do
    modify (λ s. record s { is_processing = true; error_text = none })
    let tx = build_transaction params
    plan ← in_browser (get_spend_plan p tx.sender tx.amount)
    inputs ← lift (property p (js "inputs") plan)
    outputs ← lift (property p (js "outputs") plan)
    complete ← lift (
        compute_transaction_id p
          (record tx { inputs = or_else inputs (arr nil); outputs = or_else outputs (arr nil) }))
    let validation = validate_transaction p complete
    check validation.valid (error (join (js ", ") validation.errors))
    modify (λ s. record s { current = some complete })
    pure complete

  unfoldable pub create_failed : Exception → Tx Transaction
  create_failed e = do
    modify (λ s. record s { error_text = some (message e ++ js " (in createTransaction)") })
    raise e

  unfoldable pub create_transaction : BuildParams → Tx Transaction
  create_transaction params =
      finally (catch_with (create_steps params) create_failed) stop_processing

  -- The body of the `try` of `signAndSend`.
  unfoldable pub send_steps : Text → Tx Value
  send_steps private_key = do
    modify (λ s. record s { is_processing = true; status = signing; error_text = none })
    tx ← gets (λ s. s.current)
    to_hash ← lift (current_or_throw p tx)
    tx_hash ← lift (hash_transaction p to_hash)
    let marked = record to_hash { tx_hash = str tx_hash }
    modify (λ s. record s { current = some marked })
    signature ← lift (generate_transaction_signature p tx_hash private_key)
    modify (λ s. record s { status = sending })
    result ← in_browser (send_transaction p marked (str signature))
    modify (λ s. record s { status = success })
    timestamp ← in_browser (ask p.iso_date)
    modify (λ s. record s {
      history =
          s.history
          ++ record {
            transaction = marked;
            signature = signature;
            timestamp = timestamp;
            result = result;
          }
            ∷ [];
    })
    pure result

  unfoldable pub send_failed : Exception → Tx Value
  send_failed e = do
    modify (λ s. record s { status = failed; error_text = some (message e) })
    raise e

  unfoldable pub sign_and_send : Text → Tx Value
  sign_and_send private_key s = elim s.current [
    | none ↦ (throw (error (js "No transaction to sign")), s)
    | some tx ↦ finally (catch_with (send_steps private_key) send_failed) stop_processing s
  ]

unfoldable pub clear_transaction : Tx (Unit {0})
clear_transaction = modify (λ s. record s { current = none; status = idle; error_text = none })
