-- ===== src/Views/WalletPage/Commit.antt =====
-- `handleSubmit`: the commitment to a name.
use namecoin.Prelude.{true, false, [], is_empty, if◌then◌else◌}
use namecoin.Js.Text.{Text, js}
use namecoin.Js.Value.{Value, str, obj, end, field, truthy, or_else}
use namecoin.Js.Effect.{ok, lift, gets, modify, catch_with, finally, ◌>>=◌, ◌>>◌}
use namecoin.Js.Platform.{Platform}
use namecoin.Utils.Hash.{generate_salt}
use namecoin.Utils.DomainStorage.{save_pending_domain}
use namecoin.Services.Transaction.{Transaction}
use namecoin.Services.Crypto.{hash_domain_with_salt}
use namecoin.Composables.UseWallet.{is_wallet_loaded}
use namecoin.Views.WalletPage.{
  WalletPage, Wp, in_browser, set_status, template, is_success, zero_number,
}
use namecoin.Views.WalletPage.Names.{load_my_domains}
use namecoin.Views.WalletPage.Sending.{send_signed, refused, show_error}

-- The payload of a commitment.
unfoldable pub commit_payload : Text → Value → Value
commit_payload hashed_domain ttl =
    obj
      (field (js "commitment") (str hashed_domain) (field (js "ttl") (or_else ttl zero_number) end))

module _ (p : Platform) where
  -- What follows the answer of the node to a commitment.
  unfoldable pub commit_sent : Value → Text → Text → Transaction → Value → Wp (Unit {0})
  unfolding is_success
  commit_sent sender salt hashed_domain complete response = do
    let saved = do
      domain ← gets (λ s. s.domain_name)
      modify (λ s. record s { last_tx_id = complete.transaction_id })
      in_browser (
          save_pending_domain p (template p sender) domain salt hashed_domain
            (template p complete.transaction_id))
      set_status (
          js
            "Commitment created! Wait for it to be mined in a block before revealing. Check \"My Domains\" section below.")
      modify (λ s. record s { domain_name = [] })
      load_my_domains p
    if is_success response then saved else refused p (js "Transaction failed: ") response

  -- The transaction of a commitment, and what follows.
  unfoldable pub send_commitment : Value → Text → Text → Wp (Unit {0})
  send_commitment sender salt hashed_domain = do
    ttl ← gets (λ s. s.ttl)
    answered ←
        send_signed p (js "NameNew") sender (commit_payload hashed_domain ttl)
          (js "Sending transaction to network...")
    let (complete, response) = answered
    commit_sent sender salt hashed_domain complete response

  -- The body of the `try` of `handleSubmit`.
  unfoldable pub commit_steps : Wp (Unit {0})
  commit_steps = do
    salt ← in_browser (generate_salt p)
    domain ← gets (λ s. s.domain_name)
    hashed_domain ← lift (hash_domain_with_salt p domain salt)
    sender ← gets (λ s. s.shared.wallet.id)
    if truthy sender
        then send_commitment sender salt hashed_domain
        else set_status (js "Wallet ID not found. Please reload the page.")

  unfoldable pub stop_processing : WalletPage → WalletPage
  stop_processing s = record s { is_processing = false }

  -- `handleSubmit` after its guard
  unfoldable pub commit : Wp (Unit {0})
  commit s =
      finally (catch_with commit_steps show_error) stop_processing
        (record s { is_processing = true; status = js "Creating commitment..." })

  -- `handleSubmit`
  unfoldable pub handle_submit : Wp (Unit {0})
  handle_submit s =
      if is_empty s.domain_name
      then (ok tt, s)
      else (if is_wallet_loaded s.shared then commit s else (ok tt, s))
