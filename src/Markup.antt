-- ===== src/Markup.antt =====
-- What a Vue template renders: the elements of the page, and what the user may do at each of them.
pub mod Laws
use Prim.Native.String.{String}
use namecoin.Prelude.{◌≡◌, ◌⊎◌, Bool, true, false, Option, List, [], ◌∷◌, ◌++◌, if◌then◌else◌}
use namecoin.Js.Text.{Text, js}
use namecoin.Js.Value.{Value}
use namecoin.Services.Wallet.{FileRead}

-- What Vue does with a value in the markup, `{{ v }}` and `:class="v"`, and what the browser does with an input.
pub record Vue : Type 0 where
  pub display : Value → Text
  pub class_of : Value → Text
  -- Whether the browser lets a form be submitted with this text in an input with these attributes, such as
  -- `required` and `min`.
  pub meets : List (Text × Text) → Text → Bool

-- An action of the user, with the event that it becomes: a click, a click on a button whose handler asks
-- `confirm`, a text, a number or a file that is entered.
pub data Control (E : Type 0) : Type 0 where
  click : E → Control E
  decide : (Bool → E) → Control E
  enter_text : (Text → E) → Control E
  enter_value : (Value → E) → Control E
  choose_file : (Option FileRead → E) → Control E

abbrev pub Attributes : Type 0
Attributes = List (Text × Text)

-- A button and an input say whether they are disabled; an input that constrains its value says whether the browser
-- accepts it; a form has the event of its submission.
mutual
  pub data Node (E : Type 0) : Type 0 where
    text : Text → Node E
    element : Text → Attributes → Nodes E → Node E
    button : Attributes → Bool → Control E → Nodes E → Node E
    submit_button : Attributes → Bool → Nodes E → Node E
    input : Attributes → Text → Bool → Control E → Node E
    checked_input : Attributes → Text → Bool → Control E → Node E
    form : Attributes → E → Nodes E → Node E

  pub data Nodes (E : Type 0) : Type 0 where
    none_left : Nodes E
    then_node : Node E → Nodes E → Nodes E

module _ {E : Type 0} where
  infixr 20 ◌&◌
  pattern abbrev pub ◌&◌ : Node E → Nodes E → Nodes E
  n & ns = then_node n ns

  -- `v-if`, whose other case renders nothing
  abbrev pub when : Bool → Node E → Nodes E → Nodes E
  when b n rest = if b then then_node n rest else rest

  -- A form can be submitted by its submit button, also with the key `Enter`, unless that is disabled.
  unfoldable mutual
    pub can_be_submitted : Nodes E → Bool
    can_be_submitted none_left = false
    can_be_submitted (then_node n ns) =
        let rest = can_be_submitted ns in if node_submits n then true else rest

    pub node_submits : Node E → Bool
    node_submits (text t) = false
    node_submits (element tag attributes ns) = can_be_submitted ns
    node_submits (button attributes disabled c ns) = false
    node_submits (submit_button attributes disabled ns) = if disabled then false else true
    node_submits (input attributes shown disabled c) = false
    node_submits (checked_input attributes shown accepted c) = false
    node_submits (form attributes e ns) = false

  -- The browser accepts the value of every input.
  unfoldable mutual
    pub is_accepted : Nodes E → Bool
    is_accepted none_left = true
    is_accepted (then_node n ns) =
        let rest = is_accepted ns in if node_accepted n then rest else false

    pub node_accepted : Node E → Bool
    node_accepted (text t) = true
    node_accepted (element tag attributes ns) = is_accepted ns
    node_accepted (button attributes disabled c ns) = true
    node_accepted (submit_button attributes disabled ns) = true
    node_accepted (input attributes shown disabled c) = true
    node_accepted (checked_input attributes shown accepted c) = accepted
    node_accepted (form attributes e ns) = is_accepted ns

  -- What the user may do on the page.
  unfoldable mutual
    pub offers : Nodes E → List (Control E)
    offers none_left = []
    offers (then_node n ns) = node_offers n ++ offers ns

    pub node_offers : Node E → List (Control E)
    node_offers (text t) = []
    node_offers (element tag attributes ns) = offers ns
    node_offers (button attributes disabled c ns) = if disabled then [] else c ∷ []
    node_offers (submit_button attributes disabled ns) = []
    node_offers (input attributes shown disabled c) = if disabled then [] else c ∷ []
    node_offers (checked_input attributes shown accepted c) = c ∷ []
    node_offers (form attributes e ns) =
        (if can_be_submitted ns then (if is_accepted ns then click e ∷ [] else []) else [])
        ++ offers ns

  -- The texts of the page, in their order.
  unfoldable mutual
    pub texts : Nodes E → List Text
    texts none_left = []
    texts (then_node n ns) = node_texts n ++ texts ns

    pub node_texts : Node E → List Text
    node_texts (text t) = t ∷ []
    node_texts (element tag attributes ns) = texts ns
    node_texts (button attributes disabled c ns) = texts ns
    node_texts (submit_button attributes disabled ns) = texts ns
    node_texts (input attributes shown disabled c) = []
    node_texts (checked_input attributes shown accepted c) = []
    node_texts (form attributes e ns) = texts ns

  -- The action may become this event.
  abbrev pub Gives : Control E → E → Type 0
  Gives (click a) e = a ≡ e
  Gives (decide f) e = (b : Bool) × (f b ≡ e)
  Gives (enter_text f) e = (t : Text) × (f t ≡ e)
  Gives (enter_value f) e = (v : Value) × (f v ≡ e)
  Gives (choose_file f) e = (x : Option FileRead) × (f x ≡ e)

  -- One of the actions may become this event.
  abbrev pub Among : List (Control E) → E → Type 0
  Among [] e = ⊥
  Among (c ∷ cs) e = Gives c e ⊎ Among cs e

abbrev pub class : String → Attributes
class c = (js "class", js c) ∷ []

-- `class="…" :class="…"`
unfoldable pub with_class : String → Text → Attributes
with_class c [] = (js "class", js c) ∷ []
with_class c (d ∷ more) = (js "class", js c ++ js " " ++ d ∷ more) ∷ []

abbrev pub attribute : String → String → Text × Text
attribute name value = (js name, js value)

module _ {E : Type 0} where
  abbrev pub tag : String → Attributes → Nodes E → Node E
  tag name attributes ns = element (js name) attributes ns

  abbrev pub leaf : String → Attributes → Text → Node E
  leaf name attributes t = element (js name) attributes (then_node (text t) none_left)
