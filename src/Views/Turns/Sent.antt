-- ===== src/Views/Turns/Sent.antt =====
-- The turns of the wallet page that write to the lists of names.
use namecoin.Prelude.{List}
use namecoin.Js.Text.{Text}
use namecoin.Js.Value.{Value}
use namecoin.Js.Effect.{Result, Exception}
use namecoin.Js.Effect.Sustains.{Sustains}
use namecoin.Js.Effect.Async.Endures.{Endures}
use namecoin.Js.Platform.{Browser, Platform}
use namecoin.Utils.Hash.{generate_salt}
use namecoin.Services.Transaction.{Transaction}
use namecoin.Views.WalletPage.{Row}
use namecoin.Views.WalletPage.Commit.{commit_sent, stop_processing}
use namecoin.Views.WalletPage.Reveal.{name_of, forget_name, reveal_written, update_written}
use namecoin.Views.Life.{Action, committing, revealing, renewing, dropping}
use namecoin.Views.Kept.{IsKept}
use namecoin.Views.Events.Quiet.{Well, salt_kept}
use namecoin.Views.Events.Handlers.{
  commit_sent-Sustains, forget_name-Sustains, reveal_written-Sustains, update_written-Sustains,
  write_row-browser,
}
use namecoin.Views.Turns.Names.{
  send_signed_turns, send_commitment_turns, commit_steps_turns, commit_turns, submit_turns,
  name_failed_turns, reveal_answered, update_answered, reveal_steps_turns, reveal_turns,
  first_update_turns, update_steps_turns, renew_turns, update_turns,
}
use namecoin.Views.Turns.Quiet.{turn_rules, send_signed-Endures}

module _ (p : Platform) (Inv : Browser → Type 0) (permits : Action → Type 0)
    (kept : IsKept p Inv permits) where
  salt_here : Sustains Inv (generate_salt p)
  salt_here = salt_kept p Inv permits kept

  signed_here :
      (kind : Text) (sender payload : Value) (t : Text)
      → Endures (Well Inv) (send_signed_turns p kind sender payload t)
  signed_here = send_signed-Endures p Inv permits kept

  module _ (may : (d : Text) → permits (committing d)) where
    sent_here :
        (sender : Value) (salt hashed : Text) (tx : Transaction) (v : Value)
        → Sustains (Well Inv) (commit_sent p sender salt hashed tx v)
    sent_here = commit_sent-Sustains p Inv permits kept may

    send_commitment-Endures :
        (sender : Value) (salt hashed : Text)
        → Endures (Well Inv) (send_commitment_turns p sender salt hashed)
    unfolding send_commitment_turns
    send_commitment-Endures sender salt hashed =
        search (turn_rules, signed_here, sent_here) depth 12

    commit_steps-Endures : Endures (Well Inv) (commit_steps_turns p)
    unfolding commit_steps_turns
    commit_steps-Endures = search (turn_rules, salt_here, send_commitment-Endures) depth 16

    commit-Endures : Endures (Well Inv) (commit_turns p)
    unfolding commit_turns stop_processing
    commit-Endures = search (turn_rules, commit_steps-Endures) depth 12

    pub submit-Endures : Endures (Well Inv) (submit_turns p)
    unfolding submit_turns
    submit-Endures = search (turn_rules, commit-Endures) depth 12

  forget_here :
      (row : Row) (sender : Value)
      → permits (dropping (name_of p row))
      → Sustains (Well Inv) (forget_name p row sender)
  forget_here = forget_name-Sustains p Inv permits kept

  name_failed-Endures :
      (hopeless : List Text) (row : Row) (e : Exception)
      → permits (dropping (name_of p row))
      → Endures (Well Inv) (name_failed_turns p hopeless row e)
  unfolding name_failed_turns
  name_failed-Endures hopeless row e may = search (turn_rules, forget_here) depth 12

  ruleset row_turn_rules = (turn_rules, name_failed-Endures, write_row-browser, signed_here)

  module _ (row : Row) (may_drop : permits (dropping (name_of p row))) where
    module _ (may : (ip : Text) → permits (revealing (name_of p row) ip)) where
      reveal_written_here :
          (sender : Value) (ip : Result Text) (tx : Transaction)
          → Sustains (Well Inv) (reveal_written p sender row ip tx)
      reveal_written_here = reveal_written-Sustains p Inv permits kept row may

      reveal-Endures : (ip : Text) → Endures (Well Inv) (reveal_turns p row ip)
      unfolding reveal_turns reveal_steps_turns reveal_answered
      reveal-Endures ip = search (row_turn_rules, reveal_written_here) depth 20

      pub first_update-Endures : Endures (Well Inv) (first_update_turns p row)
      unfolding first_update_turns
      first_update-Endures = search (turn_rules, reveal-Endures) depth 12

    module _ (may : (ip : Text) → permits (renewing (name_of p row) ip)) where
      update_written_here :
          (sender : Value) (ip : Result Text) (tx : Transaction)
          → Sustains (Well Inv) (update_written p sender row ip tx)
      update_written_here = update_written-Sustains p Inv permits kept row may

      renew-Endures : (ip : Text) → Endures (Well Inv) (renew_turns p row ip)
      unfolding renew_turns update_steps_turns update_answered
      renew-Endures ip = search (row_turn_rules, update_written_here) depth 20

      pub update-Endures : Endures (Well Inv) (update_turns p row)
      unfolding update_turns
      update-Endures = search (turn_rules, renew-Endures) depth 12
