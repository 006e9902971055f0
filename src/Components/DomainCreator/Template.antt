-- ===== src/Components/DomainCreator/Template.antt =====
-- frontend/src/components/DomainCreator.vue: the template, and what happens at it.
use namecoin.Prelude.{Bool, false, not, List, [], ◌∷◌, ◌++◌, is_empty, if◌then◌else◌}
use namecoin.Js.Text.{Text, js}
use namecoin.Js.Value.{Value}
use namecoin.Js.Platform.{Platform}
use namecoin.Markup.{
  Vue, Attributes, Node, Nodes, text, button, submit_button, checked_input, form, none_left, ◌&◌,
  when, click, enter_text, enter_value, class, attribute, tag, leaf,
}
use namecoin.Components.DomainCreator.{
  Creator, can_submit, inputs_changed, regenerate_salt, handle_submit,
}

-- The component is mounted, the user types or presses a button, or the watcher runs on a new name or salt.
pub data CreatorEvent : Type 0 where
  mount submit regenerate watched : CreatorEvent
  type_domain : Text → CreatorEvent
  type_fee : Value → CreatorEvent

-- The state after an event, also after one whose handler throws.
unfoldable pub on_creator_event : Platform → CreatorEvent → Creator → Creator
on_creator_event p mount s = (regenerate_salt p s).1
on_creator_event p submit s = (handle_submit p s).1
on_creator_event p regenerate s = (regenerate_salt p s).1
on_creator_event p watched s = (inputs_changed p s.domain_name s.salt s).1
on_creator_event p (type_domain t) s = record s { domain_name = t }
on_creator_event p (type_fee v) s = record s { fee = v }

unfoldable pub on_creator_events : Platform → List CreatorEvent → Creator → Creator
on_creator_events p [] s = s
on_creator_events p (e ∷ es) s = on_creator_events p es (on_creator_event p e s)

abbrev name_attributes : Attributes
name_attributes =
    attribute "id" "domain"
    ∷ attribute "type" "text"
    ∷ attribute "placeholder" "example.com"
    ∷ attribute "required" ""
    ∷ []

abbrev fee_attributes : Attributes
fee_attributes =
    attribute "id" "fee"
    ∷ attribute "type" "number"
    ∷ attribute "min" "1"
    ∷ attribute "required" ""
    ∷ []

-- The browser accepts the name and the fee as they are shown.
unfoldable pub accepts : Vue → Creator → Bool
accepts u s =
    if u.meets name_attributes s.domain_name
    then u.meets fee_attributes (u.display s.fee)
    else false

unfoldable pub name_field : Vue → Creator → Node CreatorEvent
name_field u s = tag "div" (class "field") (
    leaf "label" (attribute "for" "domain" ∷ []) (js "Domain Name:")
    & checked_input name_attributes s.domain_name (u.meets name_attributes s.domain_name)
        (enter_text type_domain)
    & when (not (is_empty s.error_text)) (leaf "span" (class "error") s.error_text) none_left)

unfoldable pub salt_field : Creator → Node CreatorEvent
salt_field s = tag "div" (class "field") (
    leaf "label" [] (js "Salt (auto-generated):")
    & tag "div" (class "value-box") (
        text (s.salt ++ js " ")
        & button (attribute "type" "button" ∷ class "small-btn") false (click regenerate)
            (text (55357 ∷ 56580 ∷ []) & none_left)
        & none_left)
    & leaf "p" (class "info") (9888 ∷ 65039 ∷ js " Save this salt! You'll need it later.")
    & none_left)

unfoldable pub hash_field : Creator → Node CreatorEvent
hash_field s = tag "div" (class "field") (
    leaf "label" [] (js "Hash (domain + salt):")
    & leaf "div" (class "value-box hash")
        (if is_empty s.hashed_value then js "Calculating..." else s.hashed_value)
    & none_left)

unfoldable pub fee_field : Vue → Creator → Node CreatorEvent
fee_field u s = tag "div" (class "field") (
    leaf "label" (attribute "for" "fee" ∷ []) (js "Fee:")
    & checked_input fee_attributes (u.display s.fee) (u.meets fee_attributes (u.display s.fee))
        (enter_value type_fee)
    & none_left)

unfoldable pub creator_view : Vue → Creator → Nodes CreatorEvent
creator_view u s =
    tag "div" (class "domain-creator") (
      leaf "h2" [] (js "Create Domain")
      & form [] submit (
          name_field u s
          & salt_field s
          & hash_field s
          & fee_field u s
          & submit_button (attribute "type" "submit" ∷ class "btn-primary") (not (can_submit s))
              (text (js "Create Transaction") & none_left)
          & none_left)
      & none_left)
    & none_left
