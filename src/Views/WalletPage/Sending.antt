-- ===== src/Views/WalletPage/Sending.antt =====
-- How the handlers of the page make a transaction and send it.
use namecoin.Prelude.{◌++◌, pos}
use namecoin.Js.Text.{Text, js}
use namecoin.Js.Value.{Value, int, undefined, num, str, arr, nil, or_else}
use namecoin.Js.Effect.{Exception, message, pure, lift, gets, ◌>>=◌, ◌>>◌}
use namecoin.Js.Platform.{Platform}
use namecoin.Services.Transaction.{Transaction, build_transaction, compute_transaction_id}
use namecoin.Services.Crypto.{hash_transaction, generate_transaction_signature}
use namecoin.Services.Api.{optional_message, send_transaction, get_spend_plan}
use namecoin.Services.Wallet.{property}
use namecoin.Views.WalletPage.{Wp, in_browser, set_status, template, message_or}

module _ (p : Platform) where
  -- `applySpendPlan`
  unfoldable pub apply_spend_plan : Transaction → Wp Transaction
  apply_spend_plan tx = do
    plan ← in_browser (get_spend_plan p tx.sender tx.amount)
    inputs ← lift (property p (js "inputs") plan)
    outputs ← lift (property p (js "outputs") plan)
    pure (record tx { inputs = or_else inputs (arr nil); outputs = or_else outputs (arr nil) })

  -- A transaction is built, funded, identified, signed and sent; it is returned with the answer.
  unfoldable pub send_signed : Text → Value → Value → Text → Wp (Transaction × Value)
  send_signed kind sender payload sending = do
    pk ← gets (λ s. s.shared.wallet.public_key)
    let built = build_transaction (record {
      type = str kind;
      wallet_id = sender;
      fee = num (int (pos 1));
      payload = payload;
      pk = pk;
      inputs = undefined;
      outputs = undefined;
    })
    funded ← apply_spend_plan built
    complete ← lift (compute_transaction_id p funded)
    tx_hash ← lift (hash_transaction p complete)
    private_key ← gets (λ s. s.shared.wallet.private_key)
    signature ← lift (generate_transaction_signature p tx_hash (template p private_key))
    set_status sending
    response ← in_browser (send_transaction p complete (str signature))
    pure (complete, response)

  -- `${response?.message || 'Unknown error'}` after a prefix
  unfoldable pub refused : Text → Value → Wp (Unit {0})
  refused prefix response =
      set_status
        (prefix ++ template p (or_else (optional_message response) (str (js "Unknown error"))))

-- What `catch` shows: `Error: ${error.message || 'Unknown error occurred'}`.
unfoldable pub show_error : Exception → Wp (Unit {0})
show_error e = set_status (js "Error: " ++ message_or (message e) (js "Unknown error occurred"))
