-- ===== src/Views/Turns/Interleaved.antt =====
-- What holds on the wallet page whatever calls take turns: its lists of names and its requests.
use namecoin.Prelude.{List, [], ◌∷◌, ◌≡◌, ◌⊎◌, true, inl, inr, All, refl}
use namecoin.Js.Text.{Text}
use namecoin.Js.Effect.Async.{Move, start, resume}
use namecoin.Js.Effect.Async.Endures.{Endures, Endures-now, Starts, moves-Lasts}
use namecoin.Js.Platform.{Platform, Browser, IsJson}
use namecoin.Views.WalletPage.{WalletPage}
use namecoin.Views.WalletPage.Reveal.{name_of}
use namecoin.Views.Life.{
  Name, Action, committing, revealing, renewing, dropping, clearing, Reach, here,
}
use namecoin.Views.Life.Order.{IsOrdered, Reach-IsOrdered}
use namecoin.Views.Kept.{IsKept}
use namecoin.Views.Names.{Frame, IsWell, Reads}
use namecoin.Views.Names.Reachable.{IsWell-IsKept, none-Reads}
use namecoin.Views.Events.{
  Event, open_page, submit, refresh, press_create, reveal_name, update_name, clear_names, watched,
  type_domain, type_ttl, type_in_row,
}
use namecoin.Views.Events.Quiet.{Well, modify-Well}
use namecoin.Views.Events.Handlers.{clear_pending_domains-Sustains, write_row-browser}
use namecoin.Views.Events.Requests.{IsRequest, IsHonest, IsHonest-IsKept}
use namecoin.Views.Turns.{event_turns, on_moves}
use namecoin.Views.Turns.Quiet.{
  mounted-Endures, fetch-Endures, press_create-Endures, wallet_id-Endures,
}
use namecoin.Views.Turns.Sent.{submit-Endures, first_update-Endures, update-Endures}

-- What the handler of an event may do to the names of a wallet: only the name of its row is changed. The address is
-- the one that the row holds when the answer comes.
abbrev pub May : Platform → Event → Action → Type 0
May p submit (committing d) = Unit
May p (reveal_name row) (revealing d ip) = d ≡ name_of p row
May p (reveal_name row) (dropping d) = d ≡ name_of p row
May p (update_name row) (renewing d ip) = d ≡ name_of p row
May p (update_name row) (dropping d) = d ≡ name_of p row
May p (clear_names confirmed) clearing = confirmed ≡ true
May p _ _ = ⊥

-- A handler that one of the moves starts may do it.
abbrev pub Permits : Platform → List (Move Event) → Action → Type 0
Permits p [] a = ⊥
Permits p (start e ∷ ms) a = May p e a ⊎ Permits p ms a
Permits p (resume i ∷ ms) a = Permits p ms a

Starts-Permits :
    (p : Platform) (ms : List (Move Event)) (e : Event) (a : Action)
    → Starts ms e
    → May p e a
    → Permits p ms a
Starts-Permits p [] e a later may = elim later [ ]
Starts-Permits p (start e' ∷ ms) e a (inl same) may = inl (rw same may)
Starts-Permits p (start e' ∷ ms) e a (inr later) may = inr (Starts-Permits p ms e a later may)
Starts-Permits p (resume i ∷ ms) e a later may = Starts-Permits p ms e a later may

module _ (p : Platform) (Inv : Browser → Type 0) (permits : Action → Type 0)
    (kept : IsKept p Inv permits) where
  event-Endures :
      (e : Event) → ((a : Action) → May p e a → permits a) → Endures (Well Inv) (event_turns p e)
  unfolding event_turns
  event-Endures open_page may = mounted-Endures p Inv permits kept
  event-Endures submit may = submit-Endures p Inv permits kept (λ d. may (committing d) tt)
  event-Endures refresh may = fetch-Endures p Inv permits kept
  event-Endures press_create may = press_create-Endures p Inv permits kept
  event-Endures (reveal_name row) may =
      first_update-Endures p Inv permits kept row (may (dropping (name_of p row)) refl)
        (λ ip. may (revealing (name_of p row) ip) refl)
  event-Endures (update_name row) may =
      update-Endures p Inv permits kept row (may (dropping (name_of p row)) refl)
        (λ ip. may (renewing (name_of p row) ip) refl)
  event-Endures (clear_names confirmed) may =
      Endures-now _ (clear_pending_domains-Sustains p Inv permits kept confirmed (may clearing))
  event-Endures (watched id) may = wallet_id-Endures p Inv permits kept id
  event-Endures (type_domain t) may = Endures-now _ (modify-Well Inv _ (λ s. refl))
  event-Endures (type_ttl v) may = Endures-now _ (modify-Well Inv _ (λ s. refl))
  event-Endures (type_in_row k name v) may =
      Endures-now _ (modify-Well Inv _ (write_row-browser p Inv permits kept k name v))

  on_moves-Well :
      (ms : List (Move Event)) (s : WalletPage)
      → ((a : Action) → Permits p ms a → permits a)
      → Well Inv s
      → Well Inv (on_moves p ms s)
  unfolding on_moves
  on_moves-Well ms s may h =
      moves-Lasts (Well Inv) (event_turns p) ms [] s
        (λ e c. event-Endures e (λ a allowed. may a (Starts-Permits p ms e a c allowed))) tt h

-- Let handlers start at any time, and let the calls that wait go on in any order, each up to where it waits
-- again, whatever the node answers. If the requests so far only read, set the miner's identifier, plan a payment
-- or send a transaction with a signature of its hash and with the identifier that was computed for it, then so
-- do all requests after that.
pub on_moves-IsRequest :
    (p : Platform) (ms : List (Move Event)) (s : WalletPage)
    → All (IsRequest p) s.shared.browser.sent
    → All (IsRequest p) (on_moves p ms s).shared.browser.sent
on_moves-IsRequest p ms s h =
    let permits = Permits p ms in
    let well =
      on_moves-Well p (IsHonest p) permits (IsHonest-IsKept p permits) ms s (λ a c. c)
        (record { holds = record { requests = h } }) in
    well.holds.requests

module _ (p : Platform) (ms : List (Move Event)) (s : WalletPage) (m : Text) (json : IsJson p) where
  pub on_moves-Reach :
      (names : Text → List Name)
      → ((w : Text) → Reads p s.shared.browser w (names w))
      → (ns : List Name) × Reads p (on_moves p ms s).shared.browser m ns
        × Reach (Permits p ms) (names m) ns
  on_moves-Reach names reads =
      let permits = Permits p ms in
      let frame : Frame = record { names = names; permits = permits } in
      let well =
        on_moves-Well p (IsWell p frame) permits (IsWell-IsKept p frame json) ms s (λ a c. c)
          (record { holds = record { list = λ w. (names w, reads w, here) } }) in
      well.holds.list m

  -- Let `JSON.parse` read back what `JSON.stringify` wrote. Start with an empty storage, let handlers start at any
  -- time, and let the calls that wait go on in any order, each up to where it waits again, whatever the node
  -- answers. Then every wallet reads entries of names; and of two names of one domain in its list, the later is
  -- pending, or both are pending or revealed with one address.
  pub on_moves-IsOrdered :
      s.shared.browser.storage ≡ []
      → (ns : List Name) × Reads p (on_moves p ms s).shared.browser m ns × IsOrdered ns
  on_moves-IsOrdered e =
      let (ns, reads, r) = on_moves-Reach (λ w. []) (none-Reads p [] s m json e) in
      (ns, reads, Reach-IsOrdered r tt)
