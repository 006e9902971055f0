-- ===== src/Views/Offered.antt =====
-- What the user may do on the wallet page, apart from how the template says it.
pub mod Rows
pub mod Page
use Prim.Native.String.{String}
use mathlib.Core.List.{Memᴰ}
use namecoin.Prelude.{◌≡◌, ◌⊎◌, Bool, true, false, List, [], ◌∷◌, is_empty}
use namecoin.Js.Text.{Text, js}
use namecoin.Js.Value.{Value, str, get_field, truthy}
use namecoin.Js.Platform.{Platform}
use namecoin.Composables.UseWallet.{is_wallet_loaded}
use namecoin.Views.WalletPage.{WalletPage, Row, clamp_ttl}
use namecoin.Views.WalletPage.Template.Rows.{is_status}
use namecoin.Views.Events.{
  Event, submit, refresh, reveal_name, update_name, clear_names, type_domain, type_ttl, type_in_row,
}

-- A row with this status, which no handler is at work on.
pub record IsOpen (row : Row) (status busy : String) : Type 0 where
  pub has_status : is_status status row ≡ true
  pub at_rest : truthy (get_field (js busy) row.entry) ≡ false

module _ (p : Platform) where
  -- A pending row takes an address and a time to live, and it is revealed where an address is entered. A
  -- revealed row takes new ones, and is updated where a new address is entered.
  pub data RowMay (row : Row) : Event → Type 0 where
    type_address :
        (t : Text)
        → IsOpen row "pending" "isRevealing"
        → RowMay row (type_in_row row.key (js "revealIp") (str t))
    type_time :
        (v : Value)
        → IsOpen row "pending" "isRevealing"
        → RowMay row (type_in_row row.key (js "revealTtl") (clamp_ttl p v))
    reveal :
        IsOpen row "pending" "isRevealing"
        → truthy (get_field (js "revealIp") row.entry) ≡ true
        → RowMay row (reveal_name row)
    type_new_address :
        (t : Text)
        → IsOpen row "revealed" "isUpdating"
        → RowMay row (type_in_row row.key (js "newIp") (str t))
    type_new_time :
        (v : Value)
        → IsOpen row "revealed" "isUpdating"
        → RowMay row (type_in_row row.key (js "updateTtl") (clamp_ttl p v))
    update :
        IsOpen row "revealed" "isUpdating"
        → truthy (get_field (js "newIp") row.entry) ≡ true
        → RowMay row (update_name row)

  -- The form is there with a wallet, and is open while nothing is processed; it is submitted with a name. The
  -- names are cleared where there are some, and the registry is always refreshed.
  pub data May (s : WalletPage) : Event → Type 0 where
    type_name :
        (t : Text)
        → is_wallet_loaded s.shared ≡ true
        → s.is_processing ≡ false
        → May s (type_domain t)
    type_time_to_live :
        (v : Value)
        → is_wallet_loaded s.shared ≡ true
        → s.is_processing ≡ false
        → May s (type_ttl v)
    commit :
        is_wallet_loaded s.shared ≡ true
        → s.is_processing ≡ false
        → is_empty s.domain_name ≡ false
        → May s submit
    clear :
        (b : Bool)
        → is_wallet_loaded s.shared ≡ true
        → is_empty s.my_domains ≡ false
        → May s (clear_names b)
    in_row :
        {e : Event} (row : Row)
        → is_wallet_loaded s.shared ≡ true
        → Memᴰ row s.my_domains
        → RowMay row e
        → May s e
    look_up : May s refresh
