-- ===== src/Services/Transaction.antt =====
-- frontend/src/services/transaction.service.js
pub mod Laws
use namecoin.Prelude.{Bool, true, false, List, [], ◌∷◌, ◌++◌, if◌then◌else◌, is_empty}
use namecoin.Js.Text.{Text, js}
use namecoin.Js.Value.{
  Value, undefined, null, bool, num, str, arr, obj, end, truthy, or_else, default_to, is_array,
  less_than_one,
}
use namecoin.Js.Effect.{Result, ok, throw}
use namecoin.Js.Platform.{Platform}
use namecoin.Utils.Hash.{TxParams, empty_array, generate_tx_id}

-- The parameters of `buildTransaction`; one that is not given is `undefined`.
pub record BuildParams : Type 0 where
  pub type : Value
  pub wallet_id : Value
  pub fee : Value
  pub payload : Value
  pub pk : Value
  pub inputs : Value
  pub outputs : Value

-- A transaction as the page holds it. `txHash` is written when it is signed.
pub record Transaction : Type 0 where
  pub type : Value
  pub sender : Value
  pub amount : Value
  pub payload : Value
  pub pk : Value
  pub inputs : Value
  pub outputs : Value
  pub transaction_id : Value
  pub tx_hash : Value

unfoldable pub encode_payload : Value → Value
encode_payload v = if truthy v then v else obj end

unfoldable pub build_transaction : BuildParams → Transaction
unfolding encode_payload
build_transaction q = record {
  type = q.type;
  sender = q.wallet_id;
  amount = q.fee;
  payload = encode_payload q.payload;
  pk = q.pk;
  inputs = default_to empty_array q.inputs;
  outputs = default_to empty_array q.outputs;
  transaction_id = null;
  tx_hash = undefined;
}

-- The part of a transaction that is hashed.
unfoldable pub hashed_part : Transaction → TxParams
hashed_part tx = record {
  type = tx.type;
  sender = tx.sender;
  amount = tx.amount;
  payload = tx.payload;
  inputs = or_else tx.inputs empty_array;
  outputs = or_else tx.outputs empty_array;
}

abbrev pub with_id : Transaction → Result Text → Result Transaction
with_id tx (ok id) = ok (record tx { transaction_id = str id })
with_id tx (throw e) = throw e

unfoldable pub compute_transaction_id : Platform → Transaction → Result Transaction
unfolding hashed_part
compute_transaction_id p tx = with_id tx (generate_tx_id p (hashed_part tx))

-- `v < 1`
unfoldable pub below_one : Platform → Value → Bool
below_one p (num n) = less_than_one n
below_one p v = less_than_one (p.to_number v)

-- `if (bad) errors.push(text)`
unfoldable pub push_if : Bool → Text → List Text → List Text
push_if b text errors = if b then errors ++ text ∷ [] else errors

abbrev negate : Bool → Bool
negate true = false
negate false = true

unfoldable pub validation_errors : Platform → Transaction → List Text
validation_errors p tx =
    let e1 = push_if (negate (truthy tx.type)) (js "Transaction type is required") [] in
    let e2 = push_if (negate (truthy tx.sender)) (js "Source wallet is required") e1 in
    let e3 =
      push_if (if truthy tx.amount then below_one p tx.amount else true)
        (js "Fee must be at least 1") e2 in
    let e4 = push_if (negate (truthy tx.payload)) (js "Payload is required") e3 in
    let e5 = push_if (negate (truthy tx.pk)) (js "Public key is required") e4 in
    let e6 = push_if (negate (is_array tx.inputs)) (js "Inputs must be provided") e5 in
    push_if (negate (is_array tx.outputs)) (js "Outputs must be provided") e6

pub record Validation : Type 0 where
  pub valid : Bool
  pub errors : List Text

unfoldable pub validate_transaction : Platform → Transaction → Validation
unfolding validation_errors
validate_transaction p tx =
    let errors = validation_errors p tx in record { valid = is_empty errors; errors = errors }
