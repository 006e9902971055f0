-- ===== src/Views/Events/Handlers.antt =====
-- Every handler of the wallet page keeps an invariant that its calls keep.
use namecoin.Prelude.{ℕ, ◌≡◌, refl, Bool, true, false, is_empty, List, if◌then◌else◌}
use namecoin.Js.Text.{Text, js}
use namecoin.Js.Value.{Value, get_field}
use namecoin.Js.Effect.{Exception, Result, ok, throw, catch_with, finally}
use namecoin.Js.Effect.Sustains.{Sustains, Sustains-lift_bind}
use namecoin.Js.Platform.{Browser, Platform}
use namecoin.Utils.Hash.{generate_salt}
use namecoin.Services.Transaction.{Transaction}
use namecoin.Composables.UseWallet.{is_wallet_loaded}
use namecoin.Views.WalletPage.{WalletPage, Row}
use namecoin.Views.WalletPage.Names.{
  load_my_domains, fetch_domains, write_row, clear_pending_domains,
}
use namecoin.Views.WalletPage.Sending.{send_signed, show_error}
use namecoin.Views.WalletPage.Commit.{
  commit_sent, send_commitment, commit_steps, stop_processing, commit, handle_submit,
}
use namecoin.Views.WalletPage.Reveal.{
  name_of, entered, forget_name, name_failed, write_address, reveal_written, update_written,
  reveal_saved, revealed, reveal_steps, reveal, handle_first_update, updated, update_steps, renew,
  handle_update,
}
use namecoin.Views.Life.{Action, committing, revealing, renewing, dropping, clearing}
use namecoin.Views.Kept.{IsKept}
use namecoin.Views.Events.Quiet.{
  Well, handler_rules, load_my_domains-Sustains, fetch_domains-Sustains, send_signed-Sustains,
}

module _ (p : Platform) (Inv : Browser → Type 0) (permits : Action → Type 0)
    (kept : IsKept p Inv permits) where
  guarded-Well :
      (b : Bool) (o o' : Result (Unit {0}) × WalletPage)
      → Well Inv o.1
      → Well Inv o'.1
      → Well Inv (if b then o else o').1
  guarded-Well true o o' h k = h
  guarded-Well false o o' h k = k

  names_kept : Sustains (Well Inv) (load_my_domains p)
  names_kept = load_my_domains-Sustains p Inv permits kept

  fetch_kept : Sustains (Well Inv) (fetch_domains p)
  fetch_kept = fetch_domains-Sustains p Inv permits kept

  signed_kept :
      (kind : Text) (sender payload : Value) (t : Text)
      → Sustains (Well Inv) (send_signed p kind sender payload t)
  signed_kept = send_signed-Sustains p Inv permits kept

  salt_here : Sustains Inv (generate_salt p)
  salt_here = kept.salt

  pub clear_pending_domains-Sustains :
      (confirmed : Bool)
      → (confirmed ≡ true → permits clearing)
      → Sustains (Well Inv) (clear_pending_domains p confirmed)
  unfolding clear_pending_domains
  clear_pending_domains-Sustains confirmed may = search (handler_rules, kept.clear) depth 12

  module _ (may : (d : Text) → permits (committing d)) where
    pub commit_sent-Sustains :
        (sender : Value) (salt hashed : Text) (tx : Transaction) (v : Value)
        → Sustains (Well Inv) (commit_sent p sender salt hashed tx v)
    unfolding commit_sent
    commit_sent-Sustains sender salt hashed tx v =
        search (handler_rules, names_kept, kept.commit) depth 16

    send_commitment-Sustains :
        (sender : Value) (salt hashed : Text)
        → Sustains (Well Inv) (send_commitment p sender salt hashed)
    unfolding send_commitment
    send_commitment-Sustains sender salt hashed =
        search (handler_rules, signed_kept, commit_sent-Sustains) depth 12

    commit_steps-Sustains : Sustains (Well Inv) (commit_steps p)
    unfolding commit_steps
    commit_steps-Sustains = search (handler_rules, salt_here, send_commitment-Sustains) depth 12

    try-Sustains :
        Sustains (Well Inv) (finally (catch_with (commit_steps p) show_error) (stop_processing p))
    unfolding stop_processing
    try-Sustains = search (handler_rules, commit_steps-Sustains) depth 8

    commit-Sustains : Sustains (Well Inv) (commit p)
    unfolding commit
    commit-Sustains = record { after = λ {s} h. try-Sustains.after (record { holds = h.holds }) }

    pub handle_submit-Sustains : Sustains (Well Inv) (handle_submit p)
    unfolding handle_submit
    handle_submit-Sustains = record {
      after = λ {s} h.
          guarded-Well (is_empty s.domain_name) _ _ h
            (guarded-Well (is_wallet_loaded s.shared) _ _ (commit-Sustains.after h) h);
    }

  pub forget_name-Sustains :
      (row : Row) (sender : Value)
      → permits (dropping (name_of p row))
      → Sustains (Well Inv) (forget_name p row sender)
  unfolding forget_name
  forget_name-Sustains row sender may = search (handler_rules, names_kept, kept.drop) depth 12

  name_failed-Sustains :
      (hopeless : List Text) (row : Row) (e : Exception)
      → permits (dropping (name_of p row))
      → Sustains (Well Inv) (name_failed p hopeless row e)
  unfolding name_failed
  name_failed-Sustains hopeless row e may =
      search (handler_rules, forget_name-Sustains, fetch_kept) depth 16

  pub write_row-browser :
      (k : ℕ) (name : Text) (v : Value) (s : WalletPage)
      → (write_row k name v s).shared.browser ≡ s.shared.browser
  unfolding write_row
  write_row-browser k name v s = refl

  ruleset row_rules =
      (handler_rules, name_failed-Sustains, names_kept, write_row-browser, signed_kept, fetch_kept)

  module _ (row : Row) where
    -- The address is whatever the row holds.
    module _ (may : (ip : Text) → permits (revealing (name_of p row) ip)) where
      pub reveal_written-Sustains :
          (sender : Value) (ip : Result Text) (tx : Transaction)
          → Sustains (Well Inv) (reveal_written p sender row ip tx)
      unfolding reveal_written write_address
      reveal_written-Sustains sender (ok ip) tx = search (row_rules, kept.reveal) depth 16
      reveal_written-Sustains sender (throw e) tx = search (row_rules, kept.unread) depth 16

    module _ (may : (ip : Text) → permits (renewing (name_of p row) ip)) where
      pub update_written-Sustains :
          (sender : Value) (ip : Result Text) (tx : Transaction)
          → Sustains (Well Inv) (update_written p sender row ip tx)
      unfolding update_written write_address
      update_written-Sustains sender (ok ip) tx = search (row_rules, kept.renew) depth 16
      update_written-Sustains sender (throw e) tx = search (row_rules, kept.unread) depth 16

  module _ (row : Row) (ip : Text) where
    module _ (may : permits (revealing (name_of p row) ip)) where
      reveal_saved-Sustains :
          (sender : Value) (tx : Transaction)
          → Sustains (Well Inv) (reveal_saved p sender row ip tx)
      unfolding reveal_saved reveal_written write_address
      reveal_saved-Sustains sender tx = search (row_rules, kept.reveal) depth 16

      revealed-Sustains :
          (sender : Value) (tx : Transaction) → Sustains (Well Inv) (revealed p sender row ip tx)
      unfolding revealed
      revealed-Sustains sender tx = search (row_rules, reveal_saved-Sustains) depth 16

      reveal-Well : permits (dropping (name_of p row)) → Sustains (Well Inv) (reveal p row ip)
      unfolding reveal reveal_steps
      reveal-Well may_drop = search (row_rules, revealed-Sustains) depth 20

    module _ (may : permits (renewing (name_of p row) ip)) where
      updated-Sustains :
          (sender : Value) (tx : Transaction) → Sustains (Well Inv) (updated p sender row ip tx)
      unfolding updated update_written write_address
      updated-Sustains sender tx = search (row_rules, kept.renew) depth 16

      renew-Well : permits (dropping (name_of p row)) → Sustains (Well Inv) (renew p row ip)
      unfolding renew update_steps
      renew-Well may_drop = search (row_rules, updated-Sustains) depth 20

  module _ (row : Row) (may_drop : permits (dropping (name_of p row))) where
    pub handle_first_update-Sustains :
        ((ip : Text)
          → entered p (get_field (js "revealIp") row.entry) ≡ ok ip
          → permits (revealing (name_of p row) ip))
        → Sustains (Well Inv) (handle_first_update p row)
    unfolding handle_first_update
    handle_first_update-Sustains may =
        search (Sustains-lift_bind, handler_rules, reveal-Well) depth 12

    pub handle_update-Sustains :
        ((ip : Text)
          → entered p (get_field (js "newIp") row.entry) ≡ ok ip
          → permits (renewing (name_of p row) ip))
        → Sustains (Well Inv) (handle_update p row)
    unfolding handle_update
    handle_update-Sustains may = search (Sustains-lift_bind, handler_rules, renew-Well) depth 12
