-- ===== src/Gui/Laws.antt =====
-- The forms of the page: their guards, their requests and their failures.
use namecoin.Prelude.{
  ◌≡◌, inl, inr, refl, Bool, true, false, Option, none, some, List, [], ◌∷◌, ◌++◌, if◌then◌else◌,
  is_empty, Bool-cases, arith, All,
}
use namecoin.Js.Text.{Text, js, text_eq_refl}
use namecoin.Js.Value.{Fields, obj, end, get_field}
use namecoin.Js.Effect.{Result, ok, ◌>>=◌}
use namecoin.Utils.DomainStorage.{set_field}
use namecoin.Utils.DomainStorage.Laws.{get_field-set_field}
use namecoin.Gui.Page.{
  Host, Page, Gui, Input, failure, create_flash, print, print_error, check_inputs, api_url,
  when_filled,
}
use namecoin.Js.Text.Trim.{trim}
use namecoin.Gui.Messaging.{send_unicast, send_chat, send_private, recipients_from}
use namecoin.Gui.Routing.{add_peer, set_entry}
use namecoin.Gui.Sharing.{add_catalog, download, search_all, search_first, tag}

-- The forms that must be filled in.
pub data Form : Type 0 where
  unicast private_chat new_entry new_tag : Input → Input → Form
  broadcast new_peer wanted_file : Input → Form
  route_entry : Input → Input → Form
  search_every : Input → Input → Input → Form
  search_one : Input → Input → Input → Input → Input → Form

unfoldable pub submit : Host → Form → Gui (Unit {0})
submit h (unicast m d) = send_unicast h m d
submit h (private_chat m r) = send_private h m r
submit h (new_entry k v) = add_catalog h k v
submit h (new_tag f m) = tag h f m
submit h (broadcast m) = send_chat h m
submit h (new_peer p) = add_peer h p
submit h (wanted_file m) = download h m
submit h (route_entry o r) = set_entry h o r
submit h (search_every p b t) = search_all h p b t
submit h (search_one p i f r t) = search_first h p i f r t

-- The inputs that a form requires; the relay of a routing entry may be empty.
abbrev pub required : Form → List Input
required (unicast m d) = m ∷ d ∷ []
required (private_chat m r) = m ∷ r ∷ []
required (new_entry k v) = k ∷ v ∷ []
required (new_tag f m) = f ∷ m ∷ []
required (broadcast m) = m ∷ []
required (new_peer p) = p ∷ []
required (wanted_file m) = m ∷ []
required (route_entry o r) = o ∷ []
required (search_every p b t) = p ∷ b ∷ t ∷ []
required (search_one p i f r t) = p ∷ i ∷ f ∷ r ∷ t ∷ []

abbrev pub first_empty : List Input → Option Input
first_empty [] = none
first_empty (el ∷ els) = if is_empty el.value then some el else first_empty els

-- The page with one more message, on the input that is empty.
abbrev pub complained : Input → Page → Page
complained el s = record s {
  flashes =
      s.flashes
      ++ create_flash failure
          (js "form validation failed: \"" ++ el.name ++ js "\" is empty or invalid")
        ∷ [];
}

abbrev pub checked : Option Input → Page → Result Bool × Page
checked none s = (ok true, s)
checked (some el) s = (ok false, complained el s)

pub check_inputs_lem :
    (els : List Input) (s : Page) → check_inputs els s ≡ checked (first_empty els) s
unfolding check_inputs print_error print ◌>>=◌
check_inputs_lem [] s = refl
check_inputs_lem (el ∷ els) s = elim (Bool-cases (is_empty el.value)) [
  | inl e ↦ rw e
  | inr e ↦ rw e (check_inputs_lem els s)
]

when_filled-empty :
    (els : List Input) (m : Gui (Unit {0})) (s : Page) (el : Input)
    → first_empty els ≡ some el
    → when_filled els m s ≡ (ok tt, complained el s)
unfolding when_filled ◌>>=◌
when_filled-empty els m s el h = rw (check_inputs_lem, h)

-- A form with a required input that is empty sends nothing and changes nothing but the messages: one
-- more names the first such input.
pub submit-empty :
    (h : Host) (form : Form) (s : Page) (el : Input)
    → first_empty (required form) ≡ some el
    → submit h form s ≡ (ok tt, complained el s)
unfolding submit send_unicast send_private add_catalog tag send_chat add_peer download set_entry
    search_all search_first api_url ◌>>=◌
submit-empty h (unicast m d) s el e = when_filled-empty _ _ s el e
submit-empty h (private_chat m d) s el e = when_filled-empty _ _ s el e
submit-empty h (new_entry m d) s el e = when_filled-empty _ _ s el e
submit-empty h (new_tag m d) s el e = when_filled-empty _ _ s el e
submit-empty h (broadcast m) s el e = when_filled-empty _ _ s el e
submit-empty h (new_peer m) s el e = when_filled-empty _ _ s el e
submit-empty h (wanted_file m) s el e = when_filled-empty _ _ s el e
submit-empty h (route_entry m d) s el e = when_filled-empty _ _ s el e
submit-empty h (search_every p b t) s el e = when_filled-empty _ _ s el e
submit-empty h (search_one p i f r t) s el e = when_filled-empty _ _ s el e

recipients_from-keeps :
    (es : List Text) (k : Text) (fs : Fields)
    → get_field k fs ≡ obj end
    → get_field k (recipients_from fs es) ≡ obj end
unfolding recipients_from
recipients_from-keeps [] k fs e = e
recipients_from-keeps (x ∷ es) k fs e =
    recipients_from-keeps es k (set_field (trim x) (obj end) fs)
      (rw get_field-set_field (ground arith))

-- Every recipient of a private message, trimmed, is a key of its table of recipients.
recipients_from-All :
    (es : List Text) (fs : Fields)
    → All (λ e. get_field (trim e) (recipients_from fs es) ≡ obj end) es
unfolding recipients_from
recipients_from-All [] fs = tt
recipients_from-All (x ∷ es) fs = (
  recipients_from-keeps es (trim x) (set_field (trim x) (obj end) fs)
      (rw (get_field-set_field, text_eq_refl)),
  recipients_from-All es (set_field (trim x) (obj end) fs),
)
