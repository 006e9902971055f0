-- ===== src/Views/WalletPage/Start.antt =====
-- The start of the page, its wallet, and the identifier that the node is told.
use namecoin.Prelude.{Bool, true, false, ◌++◌, if◌then◌else◌}
use namecoin.Js.Text.{js}
use namecoin.Js.Value.{Value, str, truthy}
use namecoin.Js.Effect.{message, pure, gets, modify, catch_with, ◌>>=◌, ◌>>◌}
use namecoin.Js.Platform.{Platform}
use namecoin.Utils.DomainStorage.{is_text}
use namecoin.Services.Api.{get_miner_id, set_miner_id}
use namecoin.Composables.UseWallet.{load_wallet, create_wallet}
use namecoin.Views.WalletPage.{Wp, in_shared, in_browser, set_status}
use namecoin.Views.WalletPage.Names.{load_my_domains, fetch_domains}

-- `v === w`, where the identifier `w` is a text
unfoldable pub same_text : Value → Value → Bool
unfolding is_text
same_text v (str s) = is_text v s
same_text v w = false

abbrev pub connected : Value → Wp (Unit {0})
connected miner_id = modify (λ s. record s {
  is_connected = true;
  connection_status = js "Connected";
  backend_miner_id = miner_id;
})

abbrev pub unconnected : Wp (Unit {0})
unconnected = modify (λ s. record s {
  is_connected = false;
  connection_status = js "Connection Failed";
  status = js "Failed to connect to backend. Please ensure the backend is running.";
})

module _ (p : Platform) where
  -- `syncMinerID`
  unfoldable pub sync_miner_id : Wp (Unit {0})
  sync_miner_id = do
    desired ← gets (λ s. s.shared.wallet.id)
    synced ← gets (λ s. same_text s.backend_miner_id desired)
    let sync =
        catch_with
          (do
            in_browser (set_miner_id p desired)
            modify (λ s. record s { backend_miner_id = desired }))
          (λ e. set_status (js "Failed to sync miner ID: " ++ message e))
    if truthy desired then (if synced then pure tt else sync) else pure tt

  -- the callback of `watch`
  unfoldable pub wallet_id_changed : Value → Wp (Unit {0})
  wallet_id_changed new_id = if truthy new_id then sync_miner_id else pure tt

  -- `handleCreateWallet`
  unfoldable pub handle_create_wallet : Wp (Unit {0})
  handle_create_wallet =
      catch_with (do in_shared (create_wallet p); set_status (js "Wallet created successfully"))
        (λ e. set_status (js "Error creating wallet: " ++ message e))

  -- The callback of `onMounted`.
  unfoldable pub mounted : Wp (Unit {0})
  mounted = do
    catch_with (do miner_id ← in_browser (get_miner_id p); connected miner_id) (λ e. unconnected)
    loaded ← in_shared (load_wallet p)
    let create =
        catch_with (do in_shared (create_wallet p); pure tt)
          (λ e. set_status (js "Failed to create wallet. Please refresh the page."))
    if loaded then pure tt else create
    sync_miner_id
    fetch_domains p
    load_my_domains p
