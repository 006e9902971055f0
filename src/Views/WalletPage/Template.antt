-- ===== src/Views/WalletPage/Template.antt =====
-- frontend/src/views/Wallet.vue: the template of the page. White space between the tags is left out.
pub mod Rows
use namecoin.Prelude.{Bool, true, false, not, List, [], ◌∷◌, ◌++◌, is_empty, if◌then◌else◌}
use namecoin.Js.Text.{Text, js}
use namecoin.Js.Value.{Value, str, field, end, obj, get_prop, truthy}
use namecoin.Js.Platform.{Platform}
use namecoin.Composables.UseWallet.{is_wallet_loaded}
use namecoin.Markup.{
  Vue, Node, Nodes, Attributes, text, element, button, submit_button, input, form, none_left,
  then_node, ◌&◌, when, click, decide, enter_text, enter_value, class, with_class, attribute, tag,
  leaf,
}
use namecoin.Views.WalletPage.{WalletPage, status_class}
use namecoin.Views.WalletPage.Template.Rows.{row_items, property_of}
use namecoin.Views.Events.{Event, submit, refresh, clear_names, type_domain, type_ttl}

-- U+26A0 U+FE0F
abbrev pub warning_sign : Text
warning_sign = 9888 ∷ 65039 ∷ []

abbrev or_false : Bool → Bool → Bool
or_false a b = if a then true else b

-- The heading with the state of the connection.
unfoldable pub page_header : WalletPage → Node Event
page_header s = tag "header" (class "wallet-header") (
    tag "div" (class "header-content") (
      leaf "h1" [] (js "Peerster Wallet")
      & tag "div" (class "connection-info") (
          tag "span" (with_class "status-indicator" (if s.is_connected then js "connected" else []))
            none_left
          & leaf "span" (class "connection-status") s.connection_status
          & none_left)
      & none_left)
    & none_left)

unfoldable pub domain_input : WalletPage → Node Event
domain_input s = tag "div" (class "form-group") (
    leaf "label" (attribute "for" "domain" ∷ []) (js "Domain Name:")
    & input
        (attribute "id" "domain"
          ∷ attribute "type" "text"
          ∷ attribute "placeholder" "example.com"
          ∷ attribute "required" ""
          ∷ [])
        s.domain_name s.is_processing (enter_text type_domain)
    & none_left)

unfoldable pub ttl_input : Vue → WalletPage → Node Event
ttl_input u s = tag "div" (class "form-group") (
    leaf "label" (attribute "for" "ttl" ∷ []) (js "TTL (blocks):")
    & input
        (attribute "id" "ttl"
          ∷ attribute "type" "number"
          ∷ attribute "min" "0"
          ∷ attribute "step" "1"
          ∷ attribute "placeholder" "0 for default"
          ∷ [])
        (u.display s.ttl) s.is_processing (enter_value type_ttl)
    & leaf "small" (class "form-hint")
        (js "Number of blocks the reservation will live. 0 uses default TTL (36,000 blocks).")
    & none_left)

unfoldable pub submit_control : WalletPage → Node Event
submit_control s =
    submit_button (attribute "type" "submit" ∷ class "submit-btn")
      (or_false s.is_processing (is_empty s.domain_name))
      (text (if s.is_processing then js "Processing..." else js "Create Commitment") & none_left)

unfoldable pub commitment_form : Vue → WalletPage → Node Event
commitment_form u s =
    form (class "transaction-form") submit
      (domain_input s & ttl_input u s & submit_control s & none_left)

unfoldable pub status_box : WalletPage → Node Event
status_box s = leaf "div" (with_class "status" (status_class s.status)) s.status

unfoldable pub tx_info : Vue → WalletPage → Node Event
tx_info u s =
    tag "div" (class "tx-info") (
      leaf "strong" [] (js "Transaction ID:") & text (js " " ++ u.display s.last_tx_id) & none_left)

-- The section of the commitment.
unfoldable pub transaction_section : Vue → WalletPage → Node Event
transaction_section u s = tag "div" (class "transaction-section") (
    leaf "h2" [] (js "Register New Domain (Step 1: Commitment)")
    & leaf "p" (class "section-description")
        (js "Create a commitment for a new domain. This hides your domain choice from others.")
    & commitment_form u s
    & when (not (is_empty s.status)) (status_box s)
        (when (truthy s.last_tx_id) (tx_info u s) none_left))

unfoldable pub clear_control : Node Event
clear_control =
    button (class "clear-btn" ++ attribute "title" "Clear all pending domains" ∷ []) false
      (decide clear_names) (text (js "Clear All") & none_left)

-- The list of the wallet's names, which is not empty.
unfoldable pub domains_subsection : Platform → Vue → WalletPage → Node Event
domains_subsection p u s = tag "div" (class "subsection") (
    tag "div" (class "subsection-header")
      (leaf "h3" [] (js "Your Domains") & clear_control & none_left)
    & leaf "p" (class "section-description") (
        warning_sign
        ++ js
            " Wait for commitment to be mined before revealing. After reveal, you can update the IP address.")
    & tag "div" (class "domains-list") (row_items p u s.my_domains)
    & none_left)

-- The section of the wallet's names.
unfoldable pub my_domains_section : Platform → Vue → WalletPage → Node Event
my_domains_section p u s = tag "div" (class "my-domains-section") (
    leaf "h2" [] (js "My Domains")
    & (if is_empty s.my_domains
        then leaf "div" (class "no-domains")
            (js "You don't have any domains yet. Register one above!")
        else domains_subsection p u s)
    & none_left)

-- A name of the registry, as `fetchDomains` shaped it.
unfoldable pub registered_item : Vue → Value → Node Event
registered_item u d = tag "div" (class "domain-item") (
    leaf "div" (class "domain-name") (u.display (property_of (js "name") d))
    & tag "div" (class "domain-info") (
        leaf "span" (class "domain-owner") (js "Owner: " ++ u.display (property_of (js "owner") d))
        & none_left)
    & none_left)

unfoldable pub registered_items : Vue → List Value → Nodes Event
registered_items u [] = none_left
registered_items u (d ∷ ds) = registered_item u d & registered_items u ds

abbrev registry_list : Vue → WalletPage → Nodes Event
registry_list u s =
    if is_empty s.domains
    then when s.domains_loaded (leaf "div" (class "no-domains") (js "No domains registered yet."))
        none_left
    else tag "div" (class "domains-list") (registered_items u s.domains) & none_left

-- The section of the registry.
unfoldable pub dns_section : Vue → WalletPage → Node Event
dns_section u s = tag "div" (class "dns-section") (
    leaf "h2" [] (js "Registered Domains")
    & button (class "action-btn") false (click refresh) (text (js "Refresh Domains") & none_left)
    & registry_list u s)

-- The whole page.
unfoldable pub wallet_view : Platform → Vue → WalletPage → Nodes Event
wallet_view p u s =
    let loaded = is_wallet_loaded s.shared in
    tag "div" (class "wallet-view") (
      page_header s
      & tag "div" (class "wallet-container") (
          when loaded (transaction_section u s)
            (when loaded (my_domains_section p u s) (dns_section u s & none_left)))
      & none_left)
    & none_left
