-- ===== src/Views/Events.antt =====
-- What happens on the wallet page, event by event, and what its handlers keep.
pub mod Quiet
pub mod Handlers
pub mod Requests
use namecoin.Prelude.{ℕ, ◌≡◌, refl, ◌⊎◌, inl, inr, List, [], ◌∷◌, Bool, true}
use namecoin.Js.Text.{Text, js}
use namecoin.Js.Value.{Value, nil, get_field}
use namecoin.Js.Effect.{ok}
use namecoin.Js.Effect.Sustains.{Sustains, sustains_rules}
use namecoin.Js.Platform.{Platform, Browser, IsJson}
use namecoin.Utils.DomainStorage.{get_pending_domains, read_list, text_or}
use namecoin.Js.Storage.{lookup}
use namecoin.Views.WalletPage.{WalletPage, Row, clamp_ttl}
use namecoin.Views.WalletPage.Names.{write_row, clear_pending_domains, fetch_domains}
use namecoin.Views.WalletPage.Commit.{handle_submit}
use namecoin.Views.WalletPage.Start.{
  sync_miner_id, wallet_id_changed, handle_create_wallet, mounted,
}
use namecoin.Views.WalletPage.Reveal.{name_of, entered, handle_first_update, handle_update}
use namecoin.Views.Life.{
  Name, Action, committing, revealing, renewing, dropping, clearing, Reach, here,
}
use namecoin.Views.Life.Order.{IsOrdered, Reach-IsOrdered}
use namecoin.Views.Kept.{IsKept}
use namecoin.Views.Events.Quiet.{
  Well, mounted-Sustains, handle_create_wallet-Sustains, fetch_domains-Sustains,
  sync_miner_id-Sustains,
}
use namecoin.Views.Events.Handlers.{
  handle_submit-Sustains, clear_pending_domains-Sustains, handle_first_update-Sustains,
  handle_update-Sustains,
}

-- What happens on the page: it is opened, the user types or presses a button, or the watcher runs. A
-- handler may be called with any row, also one that the page no longer shows; the row of an event is as it
-- is when the event comes.
pub data Event : Type 0 where
  open_page submit refresh press_create : Event
  reveal_name update_name : Row → Event
  clear_names : Bool → Event
  watched : Value → Event
  type_domain : Text → Event
  type_ttl : Value → Event
  type_in_row : ℕ → Text → Value → Event

-- The page after an event; an exception that leaves a handler leaves the state as it is then.
unfoldable pub on_event : Platform → Event → WalletPage → WalletPage
on_event p open_page s = (mounted p s).1
on_event p submit s = (handle_submit p s).1
on_event p refresh s = (fetch_domains p s).1
on_event p press_create s = (handle_create_wallet p s).1
on_event p (reveal_name row) s = (handle_first_update p row s).1
on_event p (update_name row) s = (handle_update p row s).1
on_event p (clear_names confirmed) s = (clear_pending_domains p confirmed s).1
on_event p (watched id) s = (wallet_id_changed p id s).1
on_event p (type_domain t) s = record s { domain_name = t }
on_event p (type_ttl v) s = record s { ttl = clamp_ttl p v }
on_event p (type_in_row k name v) s = write_row k name v s

unfoldable pub on_events : Platform → List Event → WalletPage → WalletPage
on_events p [] s = s
on_events p (e ∷ es) s = on_events p es (on_event p e s)

-- What an event may do to the names of a wallet: a row is revealed with the address that was entered in
-- it, and only the name of the row is changed.
abbrev pub Allows : Platform → Event → Action → Type 0
Allows p submit (committing d) = Unit
Allows p (reveal_name row) (revealing d ip) =
    (d ≡ name_of p row) × (entered p (get_field (js "revealIp") row.entry) ≡ ok ip)
Allows p (reveal_name row) (dropping d) = d ≡ name_of p row
Allows p (update_name row) (renewing d ip) =
    (d ≡ name_of p row) × (entered p (get_field (js "newIp") row.entry) ≡ ok ip)
Allows p (update_name row) (dropping d) = d ≡ name_of p row
Allows p (clear_names confirmed) clearing = confirmed ≡ true
Allows p _ _ = ⊥

-- One of the events allows the action.
abbrev pub Caused : Platform → List Event → Action → Type 0
Caused p [] a = ⊥
Caused p (e ∷ es) a = Allows p e a ⊎ Caused p es a

module _ (p : Platform) (Inv : Browser → Type 0) (permits : Action → Type 0)
    (kept : IsKept p Inv permits) where
  sync_here : Sustains (Well Inv) (sync_miner_id p)
  sync_here = sync_miner_id-Sustains p Inv permits kept

  wallet_id_changed-Sustains : (v : Value) → Sustains (Well Inv) (wallet_id_changed p v)
  unfolding wallet_id_changed
  wallet_id_changed-Sustains v = search (sustains_rules, sync_here)

  on_event-Well :
      (e : Event) (s : WalletPage)
      → ((a : Action) → Allows p e a → permits a)
      → Well Inv s
      → Well Inv (on_event p e s)
  unfolding on_event write_row
  on_event-Well open_page s may h = (mounted-Sustains p Inv permits kept).after h
  on_event-Well submit s may h =
      (handle_submit-Sustains p Inv permits kept (λ d. may (committing d) tt)).after h
  on_event-Well refresh s may h = (fetch_domains-Sustains p Inv permits kept).after h
  on_event-Well press_create s may h = (handle_create_wallet-Sustains p Inv permits kept).after h
  on_event-Well (reveal_name row) s may h =
      (handle_first_update-Sustains p Inv permits kept row (may (dropping (name_of p row)) refl)
          (λ ip e. may (revealing (name_of p row) ip) (refl, e))).after
        h
  on_event-Well (update_name row) s may h =
      (handle_update-Sustains p Inv permits kept row (may (dropping (name_of p row)) refl)
          (λ ip e. may (renewing (name_of p row) ip) (refl, e))).after
        h
  on_event-Well (clear_names confirmed) s may h =
      (clear_pending_domains-Sustains p Inv permits kept confirmed (may clearing)).after h
  on_event-Well (watched id) s may h = (wallet_id_changed-Sustains id).after h
  on_event-Well (type_domain t) s may h = record { holds = h.holds }
  on_event-Well (type_ttl v) s may h = record { holds = h.holds }
  on_event-Well (type_in_row k name v) s may h = record { holds = h.holds }

  pub on_events-Well :
      (es : List Event) (s : WalletPage)
      → ((a : Action) → Caused p es a → permits a)
      → Well Inv s
      → Well Inv (on_events p es s)
  unfolding on_events
  on_events-Well [] s may h = h
  on_events-Well (e ∷ es) s may h =
      on_events-Well es (on_event p e s) (λ a c. may a (inr c))
        (on_event-Well e s (λ a c. may a (inl c)) h)
