-- ===== src/Components/DomainCreator.antt =====
-- frontend/src/components/DomainCreator.vue
pub mod Laws
pub mod Template
use namecoin.Prelude.{
  Bool, true, false, not, Option, none, some, List, [], ◌∷◌, ◌++◌, is_empty, if◌then◌else◌,
}
use namecoin.Js.Text.{Text, js}
use namecoin.Js.Value.{Value, undefined, str, obj, end, field}
use namecoin.Js.Effect.{
  Result, Exception, ok, throw, message, Run, pure, lift, gets, modify, catch_with, within, ◌>>=◌,
  ◌>>◌,
}
use namecoin.Js.Platform.{Platform}
use namecoin.Utils.Hash.{generate_salt}
use namecoin.Utils.Validation.{is_valid_domain}
use namecoin.Services.Transaction.{BuildParams, Transaction}
use namecoin.Services.Crypto.{hash_domain_with_salt}
use namecoin.Composables.UseTransaction.{TxState, Tx, create_transaction, in_browser}

-- What the event `transaction-created` carries.
pub record Created : Type 0 where
  pub transaction : Transaction
  pub domain : Text
  pub salt : Text
  pub hash : Text

-- The refs of the component, the transaction state that it shares, the events and the alerts.
pub record Creator : Type 0 where
  pub shared : TxState
  pub wallet_id : Value
  pub domain_name : Text
  pub salt : Text
  pub fee : Value
  pub hashed_value : Text
  pub error_text : Text
  pub emitted : List Created
  pub alerts : List Text

abbrev pub Dc : Type 0 → Type 0
Dc A = Run Creator A

unfoldable pub in_shared : {A : Type 0} → Tx A → Dc A
unfolding within
in_shared m = within (λ s. s.shared) (λ t s. record s { shared = t }) m

-- `canSubmit`
unfoldable pub can_submit : Creator → Bool
can_submit s =
    if is_empty s.domain_name
    then false
    else if is_empty s.salt
    then false
    else if is_empty s.hashed_value
    then false
    else is_empty s.error_text

-- The object that is asked for; it has no property `pk`.
unfoldable pub asked_params : Creator → BuildParams
asked_params s = record {
  type = str (js "first_update");
  wallet_id = s.wallet_id;
  fee = s.fee;
  payload = obj (
      field (js "hash") (str s.hashed_value)
        (field (js "domain") (str s.domain_name) (field (js "salt") (str s.salt) end)));
  pk = undefined;
  inputs = undefined;
  outputs = undefined;
}

unfoldable pub set_hashed : Text → Dc (Unit {0})
set_hashed h = modify (λ s. record s { hashed_value = h })

module _ (p : Platform) where
  -- The callback of `watch`, for a new name or a new salt.
  unfoldable pub inputs_changed : Text → Text → Dc (Unit {0})
  inputs_changed new_domain new_salt =
      let invalid : Dc (Unit {0}) =
        modify (λ s. record s { error_text = js "Invalid domain format"; hashed_value = [] }) in
      let hash : Dc (Unit {0}) = (do
        modify (λ s. record s { error_text = [] })
        catch_with (do h ← lift (hash_domain_with_salt p new_domain new_salt); set_hashed h)
            (λ e. set_hashed [])) in
      if is_empty new_domain
      then set_hashed []
      else if is_empty new_salt
      then set_hashed []
      else if is_valid_domain new_domain
      then hash
      else invalid

  -- `regenerateSalt`, which also runs when the component is mounted
  unfoldable pub regenerate_salt : Dc (Unit {0})
  regenerate_salt = do
    salt ← in_shared (in_browser (generate_salt p))
    modify (λ s. record s { salt = salt })

  unfoldable pub emit_created : Transaction → Dc (Unit {0})
  emit_created tx = modify (λ s. record s {
    emitted =
        s.emitted
        ++ record { transaction = tx; domain = s.domain_name; salt = s.salt; hash = s.hashed_value }
          ∷ [];
  })

  -- `handleSubmit`
  unfoldable pub handle_submit : Dc (Unit {0})
  handle_submit s =
      let submit =
        catch_with
          (do
            params ← gets asked_params
            tx ← in_shared (create_transaction p params)
            emit_created tx)
          (λ e. modify (λ t. record t {
            alerts = t.alerts ++ (js "Failed to create transaction: " ++ message e) ∷ [];
          })) in
      if can_submit s then submit s else (ok tt, s)
