-- ===== src/Gui/Page.antt =====
-- The state of the page, `BaseElement` and `Flash` of main.js.
use namecoin.Prelude.{
  ℕ, Bool, true, false, Option, none, some, List, [], ◌∷◌, ◌++◌, ◌==◌, if◌then◌else◌, is_empty,
}
use namecoin.Js.Text.{Text, js, is_space, show_nat}
use namecoin.Js.Value.{Value, Number, Items, Fields, str, obj, nil, cons, field}
use namecoin.Js.Effect.{
  Result, thrown, describe, Run, pure, lift, raise, gets, modify, catch_with, within, ◌>>=◌, ◌>>◌,
}
use namecoin.Js.Platform.{Platform, Browser, Io, get, post, Request, Response, fetch}

pub record Clock : Type 0 where
  pub hours : ℕ
  pub minutes : ℕ
  pub seconds : ℕ

-- What main.js calls and does not implement, besides the platform: local times, the Viz.js renderer,
-- `decodeURIComponent`, `parseInt(s)`, `Object.entries` of a value that is no object, and `${v}`.
pub record Host : Type 0 where
  pub platform : Platform
  pub local_time : ℕ → Clock
  pub time_of : Value → Clock
  pub render_svg : Text → Result Text
  pub decode_uri : Text → Result Text
  pub parse_int : Text → Number
  pub own_entries : Value → Result (List (Text × Value))
  pub show_value : Value → Text

pub data Kind : Type 0 where
  failure success : Kind

-- A message at the top of the page.
pub record Flash : Type 0 where
  pub kind : Kind
  pub content : Text

-- What the page shows: for each target the markup of its children, in order.
pub record Panels : Type 0 where
  pub messages : List Text
  pub table : List Text
  pub graphviz : List Text
  pub packets : List Text
  pub content : List Text
  pub upload_result : List Text
  pub search_all_result : List Text
  pub search_first_result : List Text
  pub resolve_result : List Text

-- The state of the page. `saved` holds the files that it told the browser to save, by their names and
-- contents.
pub record Page : Type 0 where
  pub browser : Browser
  pub endpoint : Text
  pub socket_addr : Value
  pub peer_label : Text
  pub socket_label : Text
  pub flashes : List Flash
  pub panels : Panels
  pub saved : List (Text × Text)

abbrev pub Gui : Type 0 → Type 0
Gui A = Run Page A

-- A form input, by its name and its value.
pub record Input : Type 0 where
  pub name : Text
  pub value : Text

-- `s.replace(/\s+/g, ' ')`, where the flag says whether a space has just been written
unfoldable pub collapse : Bool → Text → Text
unfolding is_space
collapse after [] = []
collapse true (c ∷ s) = if is_space c then collapse true s else c ∷ collapse false s
collapse false (c ∷ s) = if is_space c then 32 ∷ collapse true s else c ∷ collapse false s

-- `s.trim()` of a text whose only white space is single spaces
unfoldable pub trim_start : Text → Text
trim_start [] = []
trim_start (c ∷ s) = if c == 32 then s else c ∷ s

unfoldable pub trim_end : Text → Text
trim_end [] = []
trim_end (c ∷ []) = if c == 32 then [] else c ∷ []
trim_end (c ∷ d ∷ s) = c ∷ trim_end (d ∷ s)

unfoldable pub create_flash : Kind → Text → Flash
unfolding collapse trim_start trim_end
create_flash kind content = record {
  kind = kind;
  content = trim_end (trim_start (collapse false content));
}

unfoldable pub print : Kind → Text → Gui (Unit {0})
print kind content =
    modify (λ s. record s { flashes = s.flashes ++ create_flash kind content ∷ [] })

unfoldable pub print_error : Text → Gui (Unit {0})
print_error e = print failure e

unfoldable pub print_success : Text → Gui (Unit {0})
print_success e = print success e

unfoldable pub set_panels : (Panels → Panels) → Gui (Unit {0})
set_panels f = modify (λ s. record s { panels = f s.panels })

unfoldable pub in_page : {A : Type 0} → Io A → Gui A
unfolding within
in_page m = within (λ s. s.browser) (λ b s. record s { browser = b }) m

-- `checkInputs`: the first input that is empty is reported.
unfoldable pub check_inputs : List Input → Gui Bool
unfolding js
check_inputs [] = pure true
check_inputs (el ∷ els) =
    if is_empty el.value
    then (print_error (js "form validation failed: \"" ++ el.name ++ js "\" is empty or invalid")
        >> pure false)
    else check_inputs els

-- `peerInfo.getAPIURL`
unfoldable pub api_url : Text → Gui Text
api_url suffix = gets (λ s. s.endpoint ++ suffix)

unfoldable pub wrong_status : Response → Text
unfolding show_nat js
wrong_status r =
    js "wrong status: " ++ show_nat r.status ++ js " " ++ r.status_text ++ js " - " ++ r.body

abbrev pub json_type : Option Text
json_type = some (js "application/json")

abbrev pub form_type : Option Text
form_type = some (js "multipart/form-data")

module _ (h : Host) where
  -- `BaseElement.fetch`
  unfoldable pub base_fetch : Request → Gui Response
  base_fetch q = do
    r ← in_page (fetch h.platform q)
    if r.status == 200 then pure r else raise (thrown (wrong_status r))

  unfoldable pub get_from : Text → Gui Response
  get_from url = base_fetch (record { method = get; url = url; content_type = none; body = none })

  unfoldable pub post_to : Text → Option Text → Text → Gui Response
  post_to url content_type body =
      base_fetch
        (record { method = post; url = url; content_type = content_type; body = some body })

  unfoldable pub to_json : Value → Gui Text
  to_json v = lift (h.platform.stringify v)

-- `try { m } catch (e) { this.flash.printError(prefix + e) }`
unfoldable pub or_report : Text → Gui (Unit {0}) → Gui (Unit {0})
unfolding describe
or_report prefix m = catch_with m (λ e. print_error (prefix ++ describe e))

-- `const ok = this.checkInputs(…); if (!ok) { return; }`
unfoldable pub when_filled : List Input → Gui (Unit {0}) → Gui (Unit {0})
when_filled inputs m = do good ← check_inputs inputs; if good then m else pure tt

-- `${hours}:${minutes}:${seconds}`
unfoldable pub show_clock : Clock → Text
unfolding show_nat js
show_clock c = show_nat c.hours ++ js ":" ++ show_nat c.minutes ++ js ":" ++ show_nat c.seconds

-- An object with text properties, as the page writes them.
abbrev pub one_field : Text → Value → Fields → Value
one_field k v rest = obj (field k v rest)

abbrev pub text_items : List Text → Items
text_items [] = nil
text_items (s ∷ ss) = cons (str s) (text_items ss)
