-- ===== src/Views/Home/Template.antt =====
-- frontend/src/views/Home.vue: the template.
use namecoin.Prelude.{false, not, [], ◌∷◌, is_empty}
use namecoin.Js.Text.{Text, js}
use namecoin.Markup.{
  Node, Nodes, text, submit_button, input, form, none_left, ◌&◌, when, enter_text, class, attribute,
  tag, leaf,
}
use namecoin.Views.Home.{Home}

pub data HomeEvent : Type 0 where
  press_connect : HomeEvent
  type_address : Text → HomeEvent

unfoldable pub connect_form : Home → Node HomeEvent
connect_form s = form (class "connect-form") press_connect (
    input
      (attribute "type" "text"
        ∷ attribute "id" "addr"
        ∷ attribute "placeholder" "127.0.0.1:8080"
        ∷ attribute "class" "proxy-input"
        ∷ attribute "required" ""
        ∷ [])
      s.proxy_addr false (enter_text type_address)
    & submit_button (attribute "type" "submit" ∷ class "connect-btn") false
        (text (js "Connect") & none_left)
    & none_left)

unfoldable pub instructions : Node HomeEvent
instructions = tag "div" (class "instructions") (
    leaf "h3" [] (js "Quick Start:")
    & tag "ol" [] (
        tag "li" [] (
          text (js "Start a peer: ")
          & leaf "code" [] (js "cd gui && go run gui.go start")
          & none_left)
        & leaf "li" [] (js "Copy the proxy address from the log output")
        & leaf "li" [] (js "Enter it above and click \"Connect\"")
        & none_left)
    & none_left)

unfoldable pub home_view : Home → Nodes HomeEvent
home_view s =
    tag "div" (class "home-container") (
      tag "div" (class "connect-box") (
        leaf "h1" [] (js "CS438 - Peerster Wallet")
        & leaf "p" (class "subtitle") (js "Enter the peer's proxy address")
        & connect_form s
        & when (not (is_empty s.error_text)) (leaf "div" (class "error-message") s.error_text)
            (instructions & none_left))
      & none_left)
    & none_left
