-- ===== src/Views/Turns.antt =====
-- frontend/src/views/Wallet.vue: the page with handlers that take turns at their awaits. While one waits, others
-- start or go on.
pub mod Names
pub mod Start
mod Quiet
mod Sent
pub mod Interleaved
use namecoin.Prelude.{List, [], ◌∷◌, ◌≡◌}
use namecoin.Js.Effect.{pure, modify}
use namecoin.Js.Effect.Async.{Outcome, Async, now, Move, start, resume, moves}
use namecoin.Js.Platform.{Platform}
use namecoin.Views.WalletPage.{WalletPage, clamp_ttl}
use namecoin.Views.WalletPage.Names.{write_row, clear_pending_domains}
use namecoin.Views.Events.{
  Event, open_page, submit, refresh, press_create, reveal_name, update_name, clear_names, watched,
  type_domain, type_ttl, type_in_row,
}
use namecoin.Views.Turns.Names.{Turns, submit_turns, first_update_turns, update_turns}
use namecoin.Views.Turns.Start.{mounted_turns, press_create_turns, fetch_turns, wallet_id_turns}

-- The handler of an event.
unfoldable pub event_turns : Platform → Event → Turns (Unit {0})
event_turns p open_page = mounted_turns p
event_turns p submit = submit_turns p
event_turns p refresh = fetch_turns p
event_turns p press_create = press_create_turns p
event_turns p (reveal_name row) = first_update_turns p row
event_turns p (update_name row) = update_turns p row
event_turns p (clear_names confirmed) = now (clear_pending_domains p confirmed)
event_turns p (watched id) = wallet_id_turns p id
event_turns p (type_domain t) = now (modify (λ s. record s { domain_name = t }))
event_turns p (type_ttl v) = now (modify (λ s. record s { ttl = clamp_ttl p v }))
event_turns p (type_in_row k name v) = now (modify (write_row k name v))

-- The page after the moves of the event loop, which finds no call that waits.
unfoldable pub on_moves : Platform → List (Move Event) → WalletPage → WalletPage
unfolding moves
on_moves p ms s = (moves (event_turns p) ms ([], s)).1
