-- ===== src/Services/Crypto/Identity.antt =====
-- The identifier of a transaction, the hash that is signed, and the object that is sent.
use namecoin.Prelude.{◌≡◌, refl, true, false, Bool-cases, inl, inr}
use namecoin.Js.Text.{Text, js, text_eq}
use namecoin.Js.Value.{Value, undefined, str, truthy, or_else, default_to, get_prop, get_field}
use namecoin.Js.Effect.{Result, ok, throw}
use namecoin.Js.Platform.{Platform}
use namecoin.Utils.Hash.{generate_tx_id, tx_object, empty_array}
use namecoin.Services.Transaction.{Transaction, compute_transaction_id, hashed_part, with_id}
use namecoin.Services.Transaction.Laws.{IsComplete}
use namecoin.Services.Api.{send_object}
use namecoin.Services.Crypto.{hash_transaction}

default_to-truthy : (d v : Value) → truthy v ≡ true → default_to d v ≡ v
unfolding default_to truthy
default_to-truthy d undefined h = absurd (cc)
default_to-truthy d _ h = refl

default_to-or_else :
    (v : Value) → default_to empty_array (or_else v empty_array) ≡ or_else v empty_array
default_to-or_else v = elim (Bool-cases (truthy v)) [
  | inl e ↦ rw e (default_to-truthy empty_array v e)
  | inr e ↦ rw e (unfold default_to in refl)
]

generate_tx_id-eq-hash_transaction :
    (p : Platform) (tx : Transaction) → generate_tx_id p (hashed_part tx) ≡ hash_transaction p tx
unfolding generate_tx_id hash_transaction
generate_tx_id-eq-hash_transaction p tx =
    rw (default_to-or_else tx.inputs, default_to-or_else tx.outputs)

with_id-eq-ok :
    (tx : Transaction) (r : Result Text) {tx' : Transaction}
    → with_id tx r ≡ ok tx'
    → (id : Text) × (r ≡ ok id) × (tx' ≡ record tx { transaction_id = str id })
with_id-eq-ok tx (ok id) h = (id, refl, cc)
with_id-eq-ok tx (throw e) h = absurd (cc)

-- A transaction that `computeTransactionID` returns is the given one with an identifier, and that
-- identifier is the hash that `hashTransaction` of the result gives for signing.
pub compute_transaction_id-eq-hash :
    (p : Platform) (tx tx' : Transaction)
    → compute_transaction_id p tx ≡ ok tx'
    → (id : Text) × (tx' ≡ record tx { transaction_id = str id }) × (hash_transaction p tx' ≡ ok id)
unfolding compute_transaction_id hash_transaction
compute_transaction_id-eq-hash p tx tx' h =
    let (id, r, e) = with_id-eq-ok tx (generate_tx_id p (hashed_part tx)) h in
    (id, e, rw e (cc (generate_tx_id-eq-hash_transaction p tx, r)))

-- What is sent for a complete transaction has each property of the hashed object, with its value: the
-- node can recompute the identifier from the body. Only `pk`, `txId` and `signature` are added.
pub send_object-agrees :
    (p : Platform) (tx : Transaction) (signature : Value) (k : Text)
    → IsComplete p tx
    → text_eq (js "pk") k ≡ false
    → text_eq (js "txId") k ≡ false
    → text_eq (js "signature") k ≡ false
    → get_prop k (send_object tx signature) ≡ get_prop k (tx_object (hashed_part tx))
unfolding send_object tx_object hashed_part get_prop get_field
send_object-agrees p tx signature k c h1 h2 h3 = rw (c.payload_given, h1, h2, h3)
