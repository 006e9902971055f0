-- ===== src/Composables/UseTransaction/Create.antt =====
-- How `createTransaction` ends.
use namecoin.Prelude.{
  ◌≡◌, ◌⊎◌, inl, inr, refl, ap, false, none, some, ◌++◌, arith, if◌then◌else◌, Bool-cases,
}
use namecoin.Js.Text.{Text, js, join}
use namecoin.Js.Value.{Value, str, arr, nil, or_else, truthy}
use namecoin.Js.Effect.{
  Exception, Result, ok, throw, error, message, check, catch_with, finally, ◌>>=◌,
}
use namecoin.Js.Platform.{Platform, Browser}
use namecoin.Services.Transaction.{
  BuildParams, Transaction, build_transaction, encode_payload, compute_transaction_id,
  validate_transaction,
}
use namecoin.Services.Transaction.Laws.{IsComplete, validate_transaction_iff}
use namecoin.Services.Api.{get_spend_plan}
use namecoin.Services.Wallet.{property}
use namecoin.Services.Crypto.{hash_transaction}
use namecoin.Services.Crypto.Identity.{compute_transaction_id-eq-hash}
use namecoin.Composables.UseTransaction.{
  TxState, in_browser, create_steps, create_failed, create_transaction, stop_processing,
}

-- The transaction that `createTransaction` computes from the answer to the spend plan.
module _ (p : Platform) (params : BuildParams) where
  abbrev checked : Transaction → Result Transaction
  checked tx =
      if (validate_transaction p tx).valid
      then ok tx
      else throw (error (join (js ", ") (validate_transaction p tx).errors))

  abbrev then_checked : Result Transaction → Result Transaction
  then_checked (ok tx) = checked tx
  then_checked (throw e) = throw e

  abbrev with_lists : Result Value → Result Value → Result Transaction
  with_lists (throw e) outputs = throw e
  with_lists (ok inputs) (throw e) = throw e
  with_lists (ok inputs) (ok outputs) = then_checked (
      compute_transaction_id p (record (build_transaction params) {
        inputs = or_else inputs (arr nil);
        outputs = or_else outputs (arr nil);
      }))

  abbrev planned : Result Value → Result Transaction
  planned (throw e) = throw e
  planned (ok plan) = with_lists (property p (js "inputs") plan) (property p (js "outputs") plan)

abbrev created : TxState → Browser → Result Transaction → Result Transaction × TxState
created s b (ok tx) =
    (ok tx, record s { browser = b; is_processing = false; error_text = none; current = some tx })
created s b (throw e) = (
  throw e,
  record s {
    browser = b;
    is_processing = false;
    error_text = some (message e ++ js " (in createTransaction)");
  },
)

create_transaction_lem :
    (p : Platform) (params : BuildParams) (s : TxState)
    → create_transaction p params s
      ≡ created s
          (get_spend_plan p
            (build_transaction params).sender
            (build_transaction params).amount
            s.browser).1
          (planned p params
            (get_spend_plan p
              (build_transaction params).sender
              (build_transaction params).amount
              s.browser).0)
unfolding create_transaction create_steps create_failed stop_processing in_browser check catch_with
    finally ◌>>=◌
create_transaction_lem p params s = ground arith

checked-eq-ok :
    (p : Platform) (params : BuildParams) (c : Transaction) {tx : Transaction}
    → checked p params c ≡ ok tx
    → (c ≡ tx) × IsComplete p tx
checked-eq-ok p params c {tx} h = elim (Bool-cases (validate_transaction p c).valid) [
  | inl v ↦ let e : c ≡ tx = ground arith in (e, rw e at ((validate_transaction_iff p c).0 v))
  | inr v ↦ absurd (ground arith)
]

-- The transaction holds what the caller asked for, is complete, and its identifier is the hash that
-- `hashTransaction` gives for signing.
pub record Answers (p : Platform) (params : BuildParams) (tx : Transaction) : Type 0 where
  pub type : tx.type ≡ params.type
  pub sender : tx.sender ≡ params.wallet_id
  pub amount : tx.amount ≡ params.fee
  pub payload : tx.payload ≡ encode_payload params.payload
  pub pk : tx.pk ≡ params.pk
  pub complete : IsComplete p tx
  pub id : Text
  pub has_id : tx.transaction_id ≡ str id
  pub id_is_hash : hash_transaction p tx ≡ ok id

planned-eq-ok :
    (p : Platform) (params : BuildParams) (r : Result Value) {tx : Transaction}
    → planned p params r ≡ ok tx
    → Answers p params tx
unfolding build_transaction
planned-eq-ok p params (throw e) h = absurd (cc)
planned-eq-ok p params (ok plan) {tx} h =
    lists (property p (js "inputs") plan) (property p (js "outputs") plan) h
  where
    computed :
        (i o : Value) (r : Result Transaction)
        → compute_transaction_id p (record (build_transaction params) { inputs = i; outputs = o })
          ≡ r
        → then_checked p params r ≡ ok tx
        → Answers p params tx
    computed i o (throw e) q g = absurd (cc)
    computed i o (ok d) q g =
        let (e, complete) = checked-eq-ok p params d g in
        let (id, made, hash) = compute_transaction_id-eq-hash p _ d q in
        record {
          type = cc (e, ap (λ (t : Transaction). t.type) made);
          sender = cc (e, ap (λ (t : Transaction). t.sender) made);
          amount = cc (e, ap (λ (t : Transaction). t.amount) made);
          payload = cc (e, ap (λ (t : Transaction). t.payload) made);
          pk = cc (e, ap (λ (t : Transaction). t.pk) made);
          complete = complete;
          id = id;
          has_id = cc (e, ap (λ (t : Transaction). t.transaction_id) made);
          id_is_hash = cc (e, hash);
        }

    lists : (i o : Result Value) → with_lists p params i o ≡ ok tx → Answers p params tx
    lists (throw e) o g = absurd (cc)
    lists (ok i) (throw e) g = absurd (cc)
    lists (ok i) (ok o) g = computed (or_else i (arr nil)) (or_else o (arr nil)) _ refl g

-- The state after a call of `createTransaction` that returned, and after one that threw: the status and
-- the history are never touched, and a failed call keeps the transaction that was there.
pub record Created (s t : TxState) (tx : Transaction) : Type 0 where
  pub current : t.current ≡ some tx
  pub error_text : t.error_text ≡ none
  pub is_processing : t.is_processing ≡ false
  pub status : t.status ≡ s.status
  pub history : t.history ≡ s.history

pub record NotCreated (s t : TxState) (e : Exception) : Type 0 where
  pub current : t.current ≡ s.current
  pub error_text : t.error_text ≡ some (message e ++ js " (in createTransaction)")
  pub is_processing : t.is_processing ≡ false
  pub status : t.status ≡ s.status
  pub history : t.history ≡ s.history

created-cases :
    (p : Platform) (params : BuildParams) (s : TxState) (b : Browser) (r : Result Transaction)
    → ((tx : Transaction) → r ≡ ok tx → Answers p params tx)
    → ((tx : Transaction) × ((created s b r).0 ≡ ok tx)
        × Answers p params tx
        × Created s (created s b r).1 tx)
      ⊎ ((e : Exception) × ((created s b r).0 ≡ throw e) × NotCreated s (created s b r).1 e)
created-cases p params s b (ok tx) h = inl (
  tx,
  refl,
  h tx refl,
  record { current = refl; error_text = refl; is_processing = refl; status = refl; history = refl },
)
created-cases p params s b (throw e) h = inr (
  e,
  refl,
  record { current = refl; error_text = refl; is_processing = refl; status = refl; history = refl },
)

abbrev pub CreateEnds : Platform → BuildParams → TxState → Result Transaction × TxState → Type 0
CreateEnds p params s out =
    ((tx : Transaction) × (out.0 ≡ ok tx) × Answers p params tx × Created s out.1 tx)
    ⊎ ((e : Exception) × (out.0 ≡ throw e) × NotCreated s out.1 e)

-- `createTransaction` either returns a transaction as asked for, complete and with its hash for an
-- identifier, and makes it the current one; or it throws, writes the message, and keeps the current
-- transaction. Either way it ends with processing off, and keeps the status and the history.
pub create_transaction-ends :
    (p : Platform) (params : BuildParams) (s : TxState)
    → CreateEnds p params s (create_transaction p params s)
create_transaction-ends p params s =
    rw create_transaction_lem (created-cases p params s _ _ (λ tx e. planned-eq-ok p params _ e))

-- Without a public key `createTransaction` throws, whatever the node answers.
pub create_transaction-no_pk :
    (p : Platform) (params : BuildParams) (s : TxState)
    → truthy params.pk ≡ false
    → (e : Exception) × ((create_transaction p params s).0 ≡ throw e)
      × NotCreated s (create_transaction p params s).1 e
create_transaction-no_pk p params s h = elim (create_transaction-ends p params s) [
  | inl (tx, returned, a, c) ↦ absurd (cc (h, a.complete.pk_given, ap truthy a.pk))
  | inr failure ↦ failure
]
