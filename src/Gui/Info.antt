-- ===== src/Gui/Info.antt =====
-- `PeerInfo` and `initCollapsible` of main.js.
use namecoin.Prelude.{
  ℕ, Bool, true, false, Option, none, some, List, [], ◌∷◌, ◌++◌, ◌==◌, map, if◌then◌else◌,
}
use namecoin.Js.Text.{Text, js, text_eq}
use namecoin.Js.Value.{str}
use namecoin.Js.Effect.{describe, lift, modify, catch_with, ◌>>=◌, ◌>>◌}
use namecoin.Js.Platform.{get, fetch}
use namecoin.Gui.Page.{Host, Gui, print_error, in_page}

-- `s.split(sep)` for a separator of one character: the parts, the first in `cur`
unfoldable pub split_from : ℕ → Text → Text → List Text
split_from sep cur [] = cur ∷ []
split_from sep cur (c ∷ s) =
    let next = cur ∷ split_from sep [] s in
    let same = split_from sep (cur ++ c ∷ []) s in elim (c == sep) [ true ↦ next | false ↦ same ]

unfoldable pub split : ℕ → Text → List Text
unfolding split_from
split sep s = split_from sep [] s

-- `item.split("=")[0]` and `item.split("=")[1]`, where a missing part is `undefined`
abbrev key_of : List Text → Text
key_of [] = []
key_of (k ∷ parts) = k

abbrev value_of : List Text → Option Text
value_of (k ∷ v ∷ parts) = some v
value_of parts = none

-- `queryDict[k] = v` for each item in turn: the last one of a key holds.
unfoldable pub query_args : Text → List (Text × Option Text)
unfolding split
query_args search =
    map (λ item. (key_of (split 61 item), value_of (split 61 item))) (split 38 search)

unfoldable pub last_value : Text → Option Text → List (Text × Option Text) → Option Text
unfolding text_eq
last_value k found [] = found
last_value k found ((j, v) ∷ rest) = last_value k (if text_eq j k then v else found) rest

-- `"" + v` for a text that may be `undefined`
abbrev or_undefined : Option Text → Text
or_undefined none = js "undefined"
or_undefined (some s) = s

-- `PeerInfo.initialize` on `location.search` without its question mark. The catch of the original uses
-- the plain `fetch`, which accepts every status.
module _ (h : Host) where
  unfoldable pub initialize : Text → Gui (Unit {0})
  unfolding query_args last_value
  initialize search = do
    addr ← lift (h.decode_uri (or_undefined (last_value (js "addr") none (query_args search))))
    let endpoint = js "http://" ++ addr
    modify (λ s. record s { endpoint = endpoint; peer_label = endpoint })
    catch_with
        (do
          r ← in_page (
              fetch h.platform (record {
                method = get;
                url = endpoint ++ js "/socket/address";
                content_type = none;
                body = none;
              }))
          modify (λ s. record s { socket_label = js "tcp://" ++ r.body; socket_addr = str r.body }))
        (λ e. print_error (js "failed to fetch socket address: " ++ describe e))

-- A collapsible part: its button is active, and its content is shown.
pub record Collapsible : Type 0 where
  pub active : Bool
  pub shown : Bool

-- What `initCollapsible` makes of a part, and what a click does to it.
unfoldable pub init_collapsible : Collapsible → Collapsible
init_collapsible c = record c { shown = c.active }

unfoldable pub click : Collapsible → Collapsible
click c =
    if c.active
    then record c { shown = false; active = false }
    else record c { shown = true; active = true }
