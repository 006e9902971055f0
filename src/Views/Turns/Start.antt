-- ===== src/Views/Turns/Start.antt =====
-- frontend/src/views/Wallet.vue and composables/useWallet.js: the start of the page, turn by turn.
use namecoin.Prelude.{Bool, true, false, ◌++◌, if◌then◌else◌}
use namecoin.Js.Text.{js}
use namecoin.Js.Value.{Value, str, truthy}
use namecoin.Js.Effect.{message, pure, lift, gets, modify}
use namecoin.Js.Effect.Async.{now, await, catch_async, ◌>>=◌, ◌>>◌}
use namecoin.Js.Platform.{Platform}
use namecoin.Services.Wallet.{
  generate_key_pair, derive_wallet_id, save_wallet, load_wallet as load_stored, property,
}
use namecoin.Services.Api.{get_miner_id, set_miner_id, fetch_registered_domains}
use namecoin.Composables.UseWallet.{WalletRef, set_wallet}
use namecoin.Views.WalletPage.{in_shared, in_browser, set_status}
use namecoin.Views.WalletPage.Names.{map_array, shown_record, load_my_domains}
use namecoin.Views.WalletPage.Start.{same_text, connected, unconnected}
use namecoin.Views.Turns.Names.{Turns}

module _ (p : Platform) where
  -- `createWallet` of the composable
  unfoldable pub create_wallet_turns : Turns WalletRef
  create_wallet_turns = do
    keys ← await (now (in_browser (generate_key_pair p)))
    id ← await (now (lift (derive_wallet_id p (str keys.public_key))))
    now (
        in_shared (
          set_wallet (record {
            public_key = str keys.public_key;
            private_key = str keys.private_key;
            id = id;
          })))
    now (in_browser (save_wallet p (str keys.public_key) (str keys.private_key)))
    now (gets (λ s. s.shared.wallet))

  unfoldable pub load_found_turns : Value → Turns Bool
  load_found_turns saved = do
    public_key ← now (lift (property p (js "publicKey") saved))
    id ← await (now (lift (derive_wallet_id p public_key)))
    private_key ← now (lift (property p (js "privateKey") saved))
    now (
        in_shared
          (set_wallet (record { public_key = public_key; private_key = private_key; id = id })))
    now (pure true)

  -- `loadWallet` of the composable
  unfoldable pub load_wallet_turns : Turns Bool
  load_wallet_turns =
      catch_async
        (do
          saved ← now (in_browser (load_stored p))
          if truthy saved then load_found_turns saved else now (pure false))
        (λ e. now (pure false))

  -- `syncMinerID`
  unfoldable pub sync_turns : Turns (Unit {0})
  sync_turns = do
    desired ← now (gets (λ s. s.shared.wallet.id))
    synced ← now (gets (λ s. same_text s.backend_miner_id desired))
    let sync =
        catch_async
          (do
            await (now (in_browser (set_miner_id p desired)))
            now (modify (λ s. record s { backend_miner_id = desired })))
          (λ e. now (set_status (js "Failed to sync miner ID: " ++ message e)))
    if truthy desired then (if synced then now (pure tt) else sync) else now (pure tt)

  -- the callback of `watch`
  unfoldable pub wallet_id_turns : Value → Turns (Unit {0})
  wallet_id_turns new_id = if truthy new_id then sync_turns else now (pure tt)

  -- `handleCreateWallet`
  unfoldable pub press_create_turns : Turns (Unit {0})
  press_create_turns =
      catch_async
        (do await create_wallet_turns; now (set_status (js "Wallet created successfully")))
        (λ e. now (set_status (js "Error creating wallet: " ++ message e)))

  -- `fetchDomains`
  unfoldable pub fetch_turns : Turns (Unit {0})
  fetch_turns =
      catch_async
        (do
          all_domains ← await (now (in_browser (fetch_registered_domains p)))
          shown ← now (lift (map_array p (shown_record p) all_domains))
          now (modify (λ s. record s { domains = shown; domains_loaded = true })))
        (λ e. now (
          modify (λ s. record s {
            status = js "Error fetching domains: " ++ message e;
            domains_loaded = true;
          })))

  -- The callback of `onMounted`.
  unfoldable pub mounted_turns : Turns (Unit {0})
  mounted_turns = do
    catch_async (do miner_id ← await (now (in_browser (get_miner_id p))); now (connected miner_id))
        (λ e. now unconnected)
    loaded ← await load_wallet_turns
    let create =
        catch_async (do await create_wallet_turns; now (pure tt))
          (λ e. now (set_status (js "Failed to create wallet. Please refresh the page.")))
    if loaded then now (pure tt) else create
    await sync_turns
    await fetch_turns
    now (load_my_domains p)
