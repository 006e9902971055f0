-- ===== src/Views/Turns/Names.antt =====
-- frontend/src/views/Wallet.vue: the handlers that send a transaction, turn by turn. `now` is the code between
-- two awaits, and `await` gives way to other calls. What the code reads again after the answer of the node is
-- read again: the refs, and the address in the row, which other calls may have written to. No input writes the name
-- of a row.
use namecoin.Prelude.{true, false, List, ◌++◌, pos, is_empty, if◌then◌else◌}
use namecoin.Js.Text.{Text, js}
use namecoin.Js.Value.{Value, int, undefined, num, bool, str, arr, nil, or_else, truthy, get_field}
use namecoin.Js.Effect.{Exception, pure, lift, gets, modify}
use namecoin.Js.Effect.Async.{Async, now, await, catch_async, finally_async, ◌>>=◌, ◌>>◌}
use namecoin.Js.Platform.{Platform}
use namecoin.Utils.Hash.{generate_salt}
use namecoin.Services.Transaction.{Transaction, build_transaction, compute_transaction_id}
use namecoin.Services.Crypto.{
  hash_domain_with_salt, hash_transaction, generate_transaction_signature,
}
use namecoin.Services.Api.{send_transaction, get_spend_plan}
use namecoin.Services.Wallet.{property}
use namecoin.Composables.UseWallet.{is_wallet_loaded}
use namecoin.Views.WalletPage.{WalletPage, Row, in_browser, set_status, template, is_success}
use namecoin.Views.WalletPage.Names.{write_row, entry_now}
use namecoin.Views.WalletPage.Sending.{refused, show_error}
use namecoin.Views.WalletPage.Commit.{commit_payload, commit_sent, stop_processing}
use namecoin.Views.WalletPage.Reveal.{
  entered, name_of, reveal_payload, update_payload, reveal_hopeless, update_hopeless, is_hopeless,
  forget_name, trimmed, reveal_written, update_written,
}

abbrev pub Turns : Type 0 → Type 0
Turns A = Async WalletPage A

module _ (p : Platform) where
  unfoldable pub apply_spend_plan_turns : Transaction → Turns Transaction
  apply_spend_plan_turns tx = do
    plan ← await (now (in_browser (get_spend_plan p tx.sender tx.amount)))
    inputs ← now (lift (property p (js "inputs") plan))
    outputs ← now (lift (property p (js "outputs") plan))
    now (
        pure (record tx { inputs = or_else inputs (arr nil); outputs = or_else outputs (arr nil) }))

  unfoldable pub deliver_turns : Transaction → Text → Text → Turns (Transaction × Value)
  deliver_turns complete signature sending = do
    now (set_status sending)
    response ← await (now (in_browser (send_transaction p complete (str signature))))
    now (pure (complete, response))

  -- The identifier, the hash and the signature, and the transaction is sent.
  unfoldable pub sign_turns : Transaction → Text → Turns (Transaction × Value)
  sign_turns funded sending = do
    complete ← await (now (lift (compute_transaction_id p funded)))
    tx_hash ← await (now (lift (hash_transaction p complete)))
    private_key ← now (gets (λ s. s.shared.wallet.private_key))
    signature ←
        await (now (lift (generate_transaction_signature p tx_hash (template p private_key))))
    deliver_turns complete signature sending

  unfoldable pub send_signed_turns : Text → Value → Value → Text → Turns (Transaction × Value)
  send_signed_turns kind sender payload sending = do
    pk ← now (gets (λ s. s.shared.wallet.public_key))
    built ← await (
        now (
          pure (
            build_transaction (record {
              type = str kind;
              wallet_id = sender;
              fee = num (int (pos 1));
              payload = payload;
              pk = pk;
              inputs = undefined;
              outputs = undefined;
            }))))
    funded ← await (apply_spend_plan_turns built)
    sign_turns funded sending

  unfoldable pub send_commitment_turns : Value → Text → Text → Turns (Unit {0})
  send_commitment_turns sender salt hashed_domain = do
    ttl ← now (gets (λ s. s.ttl))
    answered ←
        send_signed_turns (js "NameNew") sender (commit_payload hashed_domain ttl)
          (js "Sending transaction to network...")
    let (complete, response) = answered
    now (commit_sent p sender salt hashed_domain complete response)

  unfoldable pub commit_steps_turns : Turns (Unit {0})
  commit_steps_turns = do
    salt ← now (in_browser (generate_salt p))
    domain ← now (gets (λ s. s.domain_name))
    hashed_domain ← await (now (lift (hash_domain_with_salt p domain salt)))
    sender ← now (gets (λ s. s.shared.wallet.id))
    if truthy sender
        then send_commitment_turns sender salt hashed_domain
        else now (set_status (js "Wallet ID not found. Please reload the page."))

  unfoldable pub commit_turns : Turns (Unit {0})
  commit_turns = do
    now (modify (λ s. record s { is_processing = true; status = js "Creating commitment..." }))
    finally_async (catch_async commit_steps_turns (λ e. now (show_error e))) (stop_processing p)

  -- `handleSubmit`
  unfoldable pub submit_turns : Turns (Unit {0})
  submit_turns = do
    domain ← now (gets (λ s. s.domain_name))
    loaded ← now (gets (λ s. is_wallet_loaded s.shared))
    if is_empty domain then now (pure tt) else (if loaded then commit_turns else now (pure tt))

  -- `fetchDomains`, for which the handlers of a row do not wait, is a call of its own.
  unfoldable pub name_failed_turns : List Text → Row → Exception → Turns (Unit {0})
  name_failed_turns hopeless row e = do
    now (show_error e)
    sender ← now (gets (λ s. s.shared.wallet.id))
    if is_hopeless p hopeless e
        then (if truthy sender then now (forget_name p row sender) else now (pure tt))
        else now (pure tt)

  -- The address is read again, as the row holds it now.
  unfoldable pub reveal_answered : Value → Row → Transaction → Turns (Unit {0})
  reveal_answered sender row complete = do
    ip ← now (gets (λ s. entered p (get_field (js "revealIp") (entry_now row s))))
    now (reveal_written p sender row ip complete)

  unfoldable pub update_answered : Value → Row → Transaction → Turns (Unit {0})
  update_answered sender row complete = do
    ip ← now (gets (λ s. trimmed p (get_field (js "newIp") (entry_now row s))))
    now (update_written p sender row ip complete)

  unfoldable pub reveal_steps_turns : Row → Text → Turns (Unit {0})
  reveal_steps_turns row ip = do
    sender ← now (gets (λ s. s.shared.wallet.id))
    let send = do
      answered ←
          send_signed_turns (js "NameFirstUpdate") sender (reveal_payload row ip)
            (js "Sending reveal transaction...")
      let (complete, response) = answered
      if is_success response
          then reveal_answered sender row complete
          else now (refused p (js "Reveal failed: ") response)
    if truthy sender
        then send
        else now (set_status (js "Wallet ID not found. Please reload the page."))

  unfoldable pub reveal_turns : Row → Text → Turns (Unit {0})
  reveal_turns row ip = do
    now (modify (write_row row.key (js "isRevealing") (bool true)))
    now (set_status (js "Revealing domain..."))
    finally_async (catch_async (reveal_steps_turns row ip) (name_failed_turns reveal_hopeless row))
        (write_row row.key (js "isRevealing") (bool false))

  -- `handleFirstUpdate`
  unfoldable pub first_update_turns : Row → Turns (Unit {0})
  first_update_turns row = do
    loaded ← now (gets (λ s. is_wallet_loaded s.shared))
    let go = do
      ip ← now (lift (entered p (get_field (js "revealIp") row.entry)))
      if is_empty ip
          then now (set_status (js "Please enter an IP address"))
          else reveal_turns row ip
    if loaded then go else now (pure tt)

  unfoldable pub update_steps_turns : Row → Text → Turns (Unit {0})
  update_steps_turns row ip = do
    sender ← now (gets (λ s. s.shared.wallet.id))
    let send = do
      answered ←
          send_signed_turns (js "NameUpdate") sender (update_payload row ip)
            (js "Sending update transaction...")
      let (complete, response) = answered
      if is_success response
          then update_answered sender row complete
          else now (refused p (js "Update failed: ") response)
    if truthy sender
        then send
        else now (set_status (js "Wallet ID not found. Please reload the page."))

  unfoldable pub renew_turns : Row → Text → Turns (Unit {0})
  renew_turns row ip = do
    now (modify (write_row row.key (js "isUpdating") (bool true)))
    now (set_status (js "Updating IP for " ++ name_of p row ++ js "..."))
    finally_async (catch_async (update_steps_turns row ip) (name_failed_turns update_hopeless row))
        (write_row row.key (js "isUpdating") (bool false))

  -- `handleUpdate`
  unfoldable pub update_turns : Row → Turns (Unit {0})
  update_turns row = do
    loaded ← now (gets (λ s. is_wallet_loaded s.shared))
    let go = do
      ip ← now (lift (entered p (get_field (js "newIp") row.entry)))
      if is_empty ip then now (set_status (js "Please enter an IP address")) else renew_turns row ip
    if loaded then go else now (pure tt)
