-- ===== src/Gui/Messaging.antt =====
-- `Messaging`, `Unicast`, `Broadcast` and `Packets` of main.js.
use namecoin.Prelude.{Bool, true, false, List, [], ◌∷◌, ◌++◌, if◌then◌else◌}
use namecoin.Js.Text.{Text, js, text_eq}
use namecoin.Js.Value.{Value, Fields, undefined, null, str, arr, obj, end, field}
use namecoin.Js.Effect.{pure, lift, gets, ◌>>=◌, ◌>>◌}
use namecoin.Js.Platform.{ask}
use namecoin.Utils.DomainStorage.{set_field}
use namecoin.Services.Wallet.{property}
use namecoin.Gui.Page.{
  Host, Gui, Input, print_error, print_success, set_panels, in_page, api_url, json_type, post_to,
  to_json, or_report, when_filled, show_clock,
}
use namecoin.Gui.Info.{split}
use namecoin.Js.Text.Trim.{trim}

-- `{ "Type": "chat", "payload": { "Message": message } }`
unfoldable pub chat : Text → Value
unfolding js
chat message = obj (
    field (js "Type") (str (js "chat"))
      (field (js "payload") (obj (field (js "Message") (str message) end)) end))

-- `Messaging.addMsg`, given the markup of the element
unfoldable pub add_msg : Text → Gui (Unit {0})
add_msg el = set_panels (λ q. record q { messages = q.messages ++ el ∷ [] })

-- The body of `Unicast.send`.
unfoldable pub unicast_packet : Text → Text → Value
unicast_packet message destination =
    obj (field (js "Dest") (str destination) (field (js "Msg") (chat message) end))

unfoldable pub sent_markup : Text → Text → Text → Text
sent_markup message destination time =
    js "<div class=\"sent\">\n                <div>\n                    <p class=\"msg\">"
    ++ message
    ++ js "</p>\n                    <p class=\"details\">\n                        to "
    ++ destination
    ++ js " \n                        at "
    ++ time
    ++ js "\n                    </p>\n                </div></div>"

-- `destination.split(",").forEach(e => recipients[e.trim()] = {})`
unfoldable pub recipients_from : Fields → List Text → Fields
unfolding set_field
recipients_from fs [] = fs
recipients_from fs (e ∷ es) = recipients_from (set_field (trim e) (obj end) fs) es

-- The body of `Broadcast.sendPrivate`.
unfoldable pub private_message : Text → Text → Value
private_message destination message = obj (
    field (js "Type") (str (js "private")) (
      field (js "payload")
        (obj (
          field (js "Recipients") (obj (recipients_from end (split 44 destination)))
            (field (js "Msg") (chat message) end)))
        end))

-- `v == s` for a text `s`, without the comparison of a number with a numeral
abbrev loosely_text : Host → Value → Text → Bool
loosely_text h (str t) s = text_eq t s
loosely_text h (arr xs) s = text_eq (h.show_value (arr xs)) s
loosely_text h (obj fs) s = text_eq (h.show_value (obj fs)) s
loosely_text h v s = false

-- `v == this.peerInfo.socketAddr`, which is `undefined` until it is fetched
abbrev same_addr : Host → Value → Value → Bool
same_addr h v (str s) = loosely_text h v s
same_addr h undefined a = true
same_addr h null a = true
same_addr h v a = false

module _ (h : Host) where
  -- `Unicast.send`
  unfoldable pub send_unicast : Input → Input → Gui (Unit {0})
  send_unicast message destination = do
    addr ← api_url (js "/messaging/unicast")
    when_filled (message ∷ destination ∷ []) (do
      body ← to_json h (unicast_packet message.value destination.value)
      or_report (js "failed to send message: ") (do
        post_to h addr json_type body
        time ← in_page (ask h.local_time)
        add_msg (sent_markup message.value destination.value (show_clock time))))

  -- `Broadcast.sendChat`
  unfoldable pub send_chat : Input → Gui (Unit {0})
  send_chat message = do
    addr ← api_url (js "/messaging/broadcast")
    when_filled (message ∷ []) (do
      body ← to_json h (chat message.value)
      or_report (js "failed to send message: ")
          (do post_to h addr json_type body; print_success (js "chat message broadcasted")))

  -- `Broadcast.sendPrivate`
  unfoldable pub send_private : Input → Input → Gui (Unit {0})
  send_private message recipients = do
    addr ← api_url (js "/messaging/broadcast")
    when_filled (message ∷ recipients ∷ []) (do
      body ← to_json h (private_message recipients.value message.value)
      or_report (js "failed to send message: ")
          (do post_to h addr json_type body; print_success (js "private message sent")))

  -- What `Packets.packetMessage` shows of a chat message.
  unfoldable pub show_chat : Value → Value → Gui (Unit {0})
  show_chat pkt msg = do
    header ← lift (property h.platform (js "Header") pkt)
    timestamp ← lift (property h.platform (js "Timestamp") header)
    source ← lift (property h.platform (js "Source") header)
    own ← gets (λ s. s.socket_addr)
    payload ← lift (property h.platform (js "Payload") msg)
    message ← lift (property h.platform (js "Message") payload)
    add_msg (
        js "<div class=\""
        ++ (if same_addr h source own then js "sent" else js "received")
        ++ js "\"><div><p class=\"msg\">"
        ++ h.show_value message
        ++ js "</p><p class=\"details\">from "
        ++ h.show_value source
        ++ js " at "
        ++ show_clock (h.time_of timestamp)
        ++ js "</p></div></div>")

  -- `Packets.packetMessage`, without the scrolling
  unfoldable pub packet_message : Text → Gui (Unit {0})
  packet_message event_data = do
    pkt ← lift (h.platform.parse event_data)
    msg ← lift (property h.platform (js "Msg") pkt)
    type ← lift (property h.platform (js "Type") msg)
    if loosely_text h type (js "chat") then show_chat pkt msg else pure tt
    text ← lift (h.platform.pretty pkt)
    set_panels (λ q. record q {
      packets = q.packets ++ (js "<div><pre>" ++ text ++ js "</pre></div>") ∷ [];
    })

-- `Packets.packetError`
unfoldable pub packet_error : Gui (Unit {0})
packet_error = print_error (js "failed to listen pkt: stopped listening")
