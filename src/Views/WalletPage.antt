-- ===== src/Views/WalletPage.antt =====
-- frontend/src/views/Wallet.vue: the state of the page.
pub mod Names
pub mod Sending
pub mod Commit
pub mod Reveal
pub mod Template
pub mod Start
use namecoin.Prelude.{
  ℕ, zero, suc, Bool, true, false, not, Option, none, some, List, [], ◌∷◌, ◌++◌, ◌==◌, ℤ, pos,
  negsuc, map, is_empty, if◌then◌else◌,
}
use namecoin.Js.Text.{Text, js, text_eq}
use namecoin.Js.Text.Trim.{trim, includes, includes_any}
use namecoin.Js.Value.{
  Value, Number, Items, Fields, int, frac, nan, infinity, minus_infinity, undefined, null, bool,
  num, str, arr, obj, nil, cons, end, field, truthy, or_else, get_prop, get_field,
}
use namecoin.Js.Effect.{
  Result, Exception, ok, throw, type_error, message, Run, pure, lift, gets, modify, catch_with,
  finally, within, ◌>>=◌, ◌>>◌,
}
use namecoin.Js.Platform.{Platform, Browser, Io}
use namecoin.Utils.Hash.{generate_salt}
use namecoin.Utils.DomainStorage.{
  set_field, is_text, has_domain, pending_key, read_list, write_list, save_pending_domain,
  get_pending_domains, remove_pending_domain, clear_all_pending_domains,
}
use namecoin.Services.Transaction.{
  BuildParams, Transaction, build_transaction, compute_transaction_id,
}
use namecoin.Services.Crypto.{
  hash_domain_with_salt, hash_transaction, generate_transaction_signature,
}
use namecoin.Services.Api.{
  optional_message, send_transaction, get_miner_id, set_miner_id, get_spend_plan,
  fetch_registered_domains,
}
use namecoin.Services.Wallet.{property}
use namecoin.Composables.UseWallet.{WalletState, Wa, load_wallet, create_wallet, is_wallet_loaded}

-- A row of the wallet's names: an object, which the page writes to while a handler holds it. `key` tells
-- it from the other rows, also from those of an earlier list.
pub record Row : Type 0 where
  pub key : ℕ
  pub entry : Fields

-- The refs of the page, and the wallet that it shares.
pub record WalletPage : Type 0 where
  pub shared : WalletState
  pub is_connected : Bool
  pub connection_status : Text
  pub domain_name : Text
  pub ttl : Value
  pub is_processing : Bool
  pub status : Text
  pub last_tx_id : Value
  pub domains : List Value
  pub domains_loaded : Bool
  pub my_domains : List Row
  -- The rows that the page no longer shows, which a handler may still hold.
  pub old_rows : List Row
  pub next_row : ℕ
  pub backend_miner_id : Value

abbrev pub Wp : Type 0 → Type 0
Wp A = Run WalletPage A

unfoldable pub in_shared : {A : Type 0} → Wa A → Wp A
unfolding within
in_shared m = within (λ s. s.shared) (λ w s. record s { shared = w }) m

unfoldable pub in_browser : {A : Type 0} → Io A → Wp A
unfolding within
in_browser m =
    within (λ s. s.shared.browser) (λ b s. record s { shared = record s.shared { browser = b } }) m

unfoldable pub set_status : Text → Wp (Unit {0})
set_status t = modify (λ s. record s { status = t })

-- `${v}`
unfoldable pub template : Platform → Value → Text
template p (str s) = s
template p v = p.to_text v

-- `error.message || 'Unknown error occurred'`
unfoldable pub message_or : Text → Text → Text
message_or [] d = d
message_or (c ∷ s) d = c ∷ s

-- `response && response.status === 'success'`
unfoldable pub is_success : Value → Bool
unfolding get_prop is_text
is_success v =
    if truthy v
    then elim (get_prop (js "status") v) [ none ↦ false | some t ↦ is_text t (js "success") ]
    else false

abbrev pub zero_number : Value
zero_number = num (int (pos 0))

-- `statusClass`
unfoldable pub status_class : Text → Text
unfolding includes
status_class t =
    if includes t (js "success")
    then js "success"
    else if includes t (js "Success")
    then js "success"
    else if includes t (js "error")
    then js "error"
    else if includes t (js "Error")
    then js "error"
    else []

-- `Math.max(0, Math.floor(Number(v) || 0))`, which the number inputs write back
abbrev floor_number : Number → Number
floor_number (frac z bits) = int z
floor_number n = n

abbrev at_least_zero : Number → Number
at_least_zero (int (negsuc n)) = int (pos 0)
at_least_zero minus_infinity = int (pos 0)
at_least_zero n = n

abbrev or_zero : Number → Number
or_zero nan = int (pos 0)
or_zero n = n

abbrev number_of : Platform → Value → Number
number_of p (num n) = n
number_of p v = p.to_number v

unfoldable pub clamp_ttl : Platform → Value → Value
clamp_ttl p v = num (at_least_zero (floor_number (or_zero (number_of p v))))
