-- ===== src/Views/Names/Reachable.antt =====
-- What the storage holds after any use of the wallet page.
use namecoin.Prelude.{◌≡◌, List, []}
use namecoin.Js.Text.{Text}
use namecoin.Js.Value.{nil, str}
use namecoin.Js.Platform.{Platform, IsJson}
use namecoin.Utils.DomainStorage.{get_pending_domains, read_list, text_or}
use namecoin.Js.Storage.{lookup}
use namecoin.Views.WalletPage.{WalletPage}
use namecoin.Views.Life.{Name, Reach, here}
use namecoin.Views.Life.Order.{IsOrdered, Reach-IsOrdered}
use namecoin.Views.Kept.{IsKept}
use namecoin.Views.Names.{Frame, IsWell, Reads}
use namecoin.Views.Names.Leaves.{
  get_spend_plan-Sustains, send_transaction-Sustains, get_miner_id-Sustains, set_miner_id-Sustains,
  fetch_registered_domains-Sustains, generate_salt-Sustains, generate_key_pair-Sustains,
  save_wallet-Sustains, load_wallet-Sustains, get_pending_domains-Sustains,
}
use namecoin.Views.Names.Writes.{
  save_pending_domain-Sustains, remove_pending_domain-Sustains, reveal-Sustains, renew-Sustains,
  unread-Sustains, clear_all-Sustains,
}
use namecoin.Views.Events.{Event, Caused, on_events, on_events-Well}

pub IsWell-IsKept :
    (p : Platform) (start : Frame) → IsJson p → IsKept p (IsWell p start) start.permits
IsWell-IsKept p start json = record {
  send = λ tx g signed. send_transaction-Sustains p start tx (str g);
  spend_plan = get_spend_plan-Sustains p start;
  miner_id = get_miner_id-Sustains p start;
  change_miner_id = set_miner_id-Sustains p start;
  registered = fetch_registered_domains-Sustains p start;
  salt = generate_salt-Sustains p start;
  key_pair = generate_key_pair-Sustains p start;
  store_wallet = save_wallet-Sustains p start;
  stored_wallet = load_wallet-Sustains p start;
  names = get_pending_domains-Sustains p start;
  commit = save_pending_domain-Sustains p start json;
  reveal = reveal-Sustains p start json;
  renew = renew-Sustains p start json;
  unread = unread-Sustains p start json;
  drop = remove_pending_domain-Sustains p start json;
  clear = clear_all-Sustains p start json;
}

module _ (p : Platform) (es : List Event) (s : WalletPage) (m : Text) (json : IsJson p) where
  -- Let `JSON.parse` read back what `JSON.stringify` wrote, and let events come in any order,
  -- whatever the node answers, on a page where every wallet reads entries of names. Then every
  -- wallet reads entries of names again, and those come from the old ones by steps of `NameStep`
  -- alone: commit, reveal, renew, drop and clear. Each step is one that an event of the list
  -- allows: a commit needs a submission; a reveal or a renewal needs a reveal or an update of the
  -- row of that name, with that address entered; a drop needs a reveal or an update of the row of
  -- that name; and a clearing needs a confirmed one.
  pub on_events-Reach :
      (start : Text → List Name)
      → ((w : Text) → Reads p s.shared.browser w (start w))
      → (ns : List Name) × Reads p (on_events p es s).shared.browser m ns
        × Reach (Caused p es) (start m) ns
  on_events-Reach start reads =
      let frame : Frame = record { names = start; permits = Caused p es } in
      let well =
        on_events-Well p (IsWell p frame) (Caused p es) (IsWell-IsKept p frame json) es s (λ a c. c)
          (record { holds = record { list = λ w. (start w, reads w, here) } }) in
      well.holds.list m

  pub none-Reads : s.shared.browser.storage ≡ [] → (w : Text) → Reads p s.shared.browser w []
  unfolding get_pending_domains read_list lookup text_or
  none-Reads e w = (nil, rw e json.parse_brackets, tt)

  -- Let `JSON.parse` read back what `JSON.stringify` wrote. Start with an empty storage, and let
  -- events come in any order, whatever the node answers. Then every wallet reads entries of names;
  -- and of two names of one domain in its list, the later is pending, or both are pending or
  -- revealed with one address.
  pub on_events-IsOrdered :
      s.shared.browser.storage ≡ []
      → (ns : List Name) × Reads p (on_events p es s).shared.browser m ns × IsOrdered ns
  on_events-IsOrdered e =
      let (ns, reads, r) = on_events-Reach (λ w. []) (none-Reads e) in
      (ns, reads, Reach-IsOrdered r tt)
