-- ===== src/Services/Transaction/Laws.antt =====
-- Which transactions are valid, and what the identifier is the hash of.
use namecoin.Prelude.{◌≡◌, ◌↔◌, refl, Bool, true, false, List, [], ◌∷◌, arith, is_empty}
use namecoin.Js.Text.{Text}
use namecoin.Js.Value.{truthy, is_array}
use namecoin.Js.Platform.{Platform}
use namecoin.Services.Transaction.{
  Transaction, validate_transaction, validation_errors, below_one, push_if, negate,
}

-- What a valid transaction has.
pub record IsComplete (p : Platform) (tx : Transaction) : Type 0 where
  pub type_given : truthy tx.type ≡ true
  pub sender_given : truthy tx.sender ≡ true
  pub amount_given : truthy tx.amount ≡ true
  pub amount_enough : below_one p tx.amount ≡ false
  pub payload_given : truthy tx.payload ≡ true
  pub pk_given : truthy tx.pk ≡ true
  pub inputs_array : is_array tx.inputs ≡ true
  pub outputs_array : is_array tx.outputs ≡ true

push_if-empty :
    (b : Bool) (t : Text) (es : List Text)
    → (is_empty (push_if b t es) ≡ true) ↔ (b ≡ false) × (is_empty es ≡ true)
unfolding push_if
push_if-empty true t [] = (λ h. cc, λ h. cc)
push_if-empty true t (e ∷ es) = (λ h. cc, λ h. cc)
push_if-empty false t es = (λ h. (refl, h), λ h. h.1)

negate-false : (b : Bool) → (negate b ≡ false) ↔ (b ≡ true)
negate-false true = (λ h. refl, λ h. refl)
negate-false false = (λ h. cc, λ h. cc)

valid_parts :
    (p : Platform) (tx : Transaction) → is_empty (validation_errors p tx) ≡ true → IsComplete p tx
unfolding validation_errors
valid_parts p tx h =
    let (h7, r7) = (push_if-empty _ _ _).0 h in
    let (h6, r6) = (push_if-empty _ _ _).0 r7 in
    let (h5, r5) = (push_if-empty _ _ _).0 r6 in
    let (h4, r4) = (push_if-empty _ _ _).0 r5 in
    let (h3, r3) = (push_if-empty _ _ _).0 r4 in
    let (h2, r2) = (push_if-empty _ _ _).0 r3 in
    let (h1, r1) = (push_if-empty _ _ _).0 r2 in
    record {
      type_given = (negate-false _).0 h1;
      sender_given = (negate-false _).0 h2;
      amount_given = ground arith;
      amount_enough = ground arith;
      payload_given = (negate-false _).0 h4;
      pk_given = (negate-false _).0 h5;
      inputs_array = (negate-false _).0 h6;
      outputs_array = (negate-false _).0 h7;
    }

parts_valid :
    (p : Platform) (tx : Transaction) → IsComplete p tx → is_empty (validation_errors p tx) ≡ true
unfolding validation_errors push_if
parts_valid p tx r = rw (
  r.type_given, r.sender_given, r.amount_given, r.amount_enough, r.payload_given, r.pk_given,
  r.inputs_array, r.outputs_array,
)

-- `validateTransaction` calls a transaction valid exactly when it is complete.
pub validate_transaction_iff :
    (p : Platform) (tx : Transaction) → ((validate_transaction p tx).valid ≡ true) ↔ IsComplete p tx
unfolding validate_transaction
validate_transaction_iff p tx = (valid_parts p tx, parts_valid p tx)
