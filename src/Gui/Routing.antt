-- ===== src/Gui/Routing.antt =====
-- `Routing` of main.js.
use namecoin.Prelude.{List, [], ◌∷◌, ◌++◌, map, is_empty, if◌then◌else◌}
use namecoin.Js.Text.{Text, js}
use namecoin.Js.Value.{Value, Fields, str, arr, obj, end, field}
use namecoin.Js.Effect.{Result, ok, lift, ◌>>=◌, ◌>>◌}
use namecoin.Gui.Page.{
  Host, Gui, Input, print_success, set_panels, api_url, json_type, get_from, post_to, to_json,
  text_items, or_report, when_filled,
}

abbrev field_list : Fields → List (Text × Value)
field_list end = []
field_list (field k v fs) = (k, v) ∷ field_list fs

-- `Object.entries(v)`
unfoldable pub entries : Host → Value → Result (List (Text × Value))
entries h (obj fs) = ok (field_list fs)
entries h v = h.own_entries v

-- A row of the routing table.
unfoldable pub row : Host → Text × Value → Text
row h (origin, relay) =
    js "<tr><td>" ++ origin ++ js "</td><td>" ++ h.show_value relay ++ js "</td></tr>"

module _ (h : Host) where
  -- The first `try` of `update`.
  unfoldable pub show_table : Text → Gui (Unit {0})
  show_table addr = do
    r ← get_from h addr
    answer ← lift (h.platform.parse r.body)
    set_panels (λ q. record q { table = [] })
    pairs ← lift (entries h answer)
    set_panels (λ q. record q { table = q.table ++ map (row h) pairs })
    print_success (js "Routing table updated")

  -- The second `try` of `update`.
  unfoldable pub show_graph : Text → Gui (Unit {0})
  show_graph addr = do
    r ← get_from h (addr ++ js "?graphviz=on")
    svg ← lift (h.render_svg r.body)
    set_panels (λ q. record q { graphviz = svg ∷ [] })

  -- `Routing.update`
  unfoldable pub update : Gui (Unit {0})
  update = do
    addr ← api_url (js "/messaging/routing")
    or_report (js "Failed to fetch routing: ") (show_table addr)
    or_report (js "Failed to display routing: ") (show_graph addr)

  -- `Routing.addPeer`; the table is updated in the same `try`.
  unfoldable pub add_peer : Input → Gui (Unit {0})
  add_peer peer = when_filled (peer ∷ []) (do
    addr ← api_url (js "/messaging/peers")
    body ← to_json h (arr (text_items (peer.value ∷ [])))
    or_report (js "failed to add peer: ")
        (do post_to h addr json_type body; print_success (js "peer added"); update))

  -- `Routing.setEntry`
  unfoldable pub set_entry : Input → Input → Gui (Unit {0})
  set_entry origin relay = do
    addr ← api_url (js "/messaging/routing")
    when_filled (origin ∷ []) (do
      body ← to_json h (
          obj
            (field (js "Origin") (str origin.value) (field (js "RelayAddr") (str relay.value) end)))
      or_report (js "failed to set entry: ") (do
        post_to h addr json_type body
        print_success (if is_empty relay.value then js "Entry deleted" else js "Entry set")
        update))
