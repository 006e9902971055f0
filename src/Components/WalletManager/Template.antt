-- ===== src/Components/WalletManager/Template.antt =====
-- frontend/src/components/WalletManager.vue: the template, and what happens at it.
use namecoin.Prelude.{false, Option, List, [], ◌∷◌, ◌++◌, if◌then◌else◌}
use namecoin.Js.Text.{js}
use namecoin.Js.Platform.{Platform}
use namecoin.Services.Wallet.{FileRead}
use namecoin.Composables.UseWallet.{wallet_id}
use namecoin.Markup.{
  Vue, Node, Nodes, text, button, input, none_left, ◌&◌, click, choose_file, class, attribute, tag,
  leaf,
}
use namecoin.Components.WalletManager.{
  Manager, create_new_wallet, handle_import, download, continue_to_app,
}

pub data ManagerEvent : Type 0 where
  press_create press_download press_continue : ManagerEvent
  import_file : Option FileRead → ManagerEvent

-- The state after an event, also after one whose handler throws.
unfoldable pub on_manager_event : Platform → ManagerEvent → Manager → Manager
on_manager_event p press_create s = (create_new_wallet p s).1
on_manager_event p press_download s = (download p s).1
on_manager_event p press_continue s = (continue_to_app s).1
on_manager_event p (import_file file) s = (handle_import p file s).1

unfoldable pub on_manager_events : Platform → List ManagerEvent → Manager → Manager
on_manager_events p [] s = s
on_manager_events p (e ∷ es) s = on_manager_events p es (on_manager_event p e s)

unfoldable pub options : Manager → Node ManagerEvent
options s = tag "div" (class "options") (
    button (class "btn-primary") s.loading (click press_create)
      (text (if s.loading then js "Creating..." else js "Create New Wallet") & none_left)
    & leaf "p" (class "separator") (js "or")
    & tag "div" (class "import-section") (
        leaf "label" (attribute "for" "wallet-file" ∷ []) (js "Import Wallet:")
        & input
            (attribute "id" "wallet-file"
              ∷ attribute "type" "file"
              ∷ attribute "accept" ".json"
              ∷ [])
            [] s.loading (choose_file import_file)
        & none_left)
    & none_left)

unfoldable pub wallet_info : Vue → Manager → Node ManagerEvent
wallet_info u s = tag "div" (class "wallet-info") (
    leaf "div" (class "success") (9989 ∷ js " Wallet Created!")
    & tag "div" (class "field") (
        leaf "label" [] (js "Wallet ID:")
        & leaf "div" (class "value") (u.display (wallet_id s.shared))
        & none_left)
    & tag "div" (class "field warning") (
        leaf "label" [] (9888 ∷ 65039 ∷ js " Private Key (SAVE THIS!):")
        & leaf "div" (class "value") (u.display s.shared.wallet.private_key)
        & leaf "p" (class "warning-text") (js "Store this securely. You cannot recover it!")
        & none_left)
    & tag "div" (class "actions") (
        button (class "btn-secondary") false (click press_download)
          (text (55357 ∷ 56510 ∷ js " Download") & none_left)
        & button (class "btn-primary") false (click press_continue)
            (text (js "Continue " ++ 8594 ∷ []) & none_left)
        & none_left)
    & none_left)

unfoldable pub manager_view : Vue → Manager → Nodes ManagerEvent
manager_view u s =
    tag "div" (class "wallet-manager") (
      leaf "h2" [] (js "Wallet Setup")
      & (if s.show_keys then wallet_info u s else options s)
      & none_left)
    & none_left
