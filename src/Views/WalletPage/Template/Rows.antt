-- ===== src/Views/WalletPage/Template/Rows.antt =====
-- frontend/src/views/Wallet.vue: the rows of the wallet's names in the template.
use Prim.Native.String.{String}
use namecoin.Prelude.{Bool, true, false, not, none, some, List, [], ◌∷◌, ◌++◌, if◌then◌else◌}
use namecoin.Js.Text.{Text, js}
use namecoin.Js.Value.{Value, undefined, get_field, get_prop, truthy}
use namecoin.Js.Platform.{Platform}
use namecoin.Utils.DomainStorage.{is_text}
use namecoin.Markup.{
  Vue, Node, Nodes, text, button, input, none_left, ◌&◌, when, click, enter_text, enter_value,
  class, with_class, attribute, tag, leaf,
}
use namecoin.Js.Value.{str}
use namecoin.Views.WalletPage.{Row, clamp_ttl}
use namecoin.Views.Events.{Event, reveal_name, update_name, type_in_row}

-- A property that the template reads; where the value has none the page shows nothing.
unfoldable pub property_of : Text → Value → Value
property_of k v = elim (get_prop k v) [ none ↦ undefined | some w ↦ w ]

abbrev pub is_status : String → Row → Bool
is_status t row = is_text (get_field (js "status") row.entry) (js t)

unfoldable pub address_input : Vue → Row → String → String → String → Node Event
address_input u row name busy hint =
    input (attribute "type" "text" ∷ attribute "placeholder" hint ∷ class "ip-input")
      (u.display (get_field (js name) row.entry)) (truthy (get_field (js busy) row.entry))
      (enter_text (λ t. type_in_row row.key (js name) (str t)))

unfoldable pub row_ttl_input : Platform → Vue → Row → String → String → Node Event
row_ttl_input p u row name busy =
    input
      (attribute "type" "number"
        ∷ attribute "min" "0"
        ∷ attribute "step" "1"
        ∷ attribute "placeholder" "TTL (0=default)"
        ∷ class "ttl-input")
      (u.display (get_field (js name) row.entry)) (truthy (get_field (js busy) row.entry))
      (enter_value (λ v. type_in_row row.key (js name) (clamp_ttl p v)))

-- A button that is disabled while the row is busy, and where no address is entered.
unfoldable pub row_button : Row → String → String → Event → String → Node Event
row_button row name busy e caption =
    button (class "action-btn primary")
      (if truthy (get_field (js busy) row.entry)
        then true
        else not (truthy (get_field (js name) row.entry)))
      (click e) (text (js caption) & none_left)

-- The inputs and the button of a name that waits to be revealed.
unfoldable pub pending_controls : Platform → Vue → Row → Node Event
pending_controls p u row = tag "div" (class "domain-update") (
    address_input u row "revealIp" "isRevealing" "Enter IP address"
    & row_ttl_input p u row "revealTtl" "isRevealing"
    & row_button row "revealIp" "isRevealing" (reveal_name row) "Reveal Domain"
    & none_left)

-- The inputs and the button of a name that was revealed.
unfoldable pub revealed_controls : Platform → Vue → Row → Node Event
revealed_controls p u row = tag "div" (class "domain-update") (
    address_input u row "newIp" "isUpdating" "Enter new IP address"
    & row_ttl_input p u row "updateTtl" "isUpdating"
    & row_button row "newIp" "isUpdating" (update_name row) "Update IP"
    & none_left)

unfoldable pub row_header : Vue → Row → Node Event
row_header u row = tag "div" (class "domain-header") (
    leaf "div" (class "domain-name") (u.display (get_field (js "domain") row.entry))
    & leaf "span" (with_class "domain-badge" (u.class_of (get_field (js "status") row.entry)))
        (if is_status "pending" row then js "Pending" else js "Active")
    & none_left)

unfoldable pub current_address : Vue → Row → Node Event
current_address u row = tag "div" (class "domain-info") (
    leaf "span" (class "domain-ip") (js "Current IP: " ++ u.display (get_field (js "ip") row.entry))
    & none_left)

unfoldable pub row_item : Platform → Vue → Row → Node Event
row_item p u row =
    tag "div" (with_class "domain-item" (u.class_of (get_field (js "status") row.entry))) (
      row_header u row
      & when (if is_status "revealed" row then truthy (get_field (js "ip") row.entry) else false)
          (current_address u row)
          (when (is_status "pending" row) (pending_controls p u row)
            (when (is_status "revealed" row) (revealed_controls p u row) none_left)))

unfoldable pub row_items : Platform → Vue → List Row → Nodes Event
row_items p u [] = none_left
row_items p u (row ∷ rows) = row_item p u row & row_items p u rows
