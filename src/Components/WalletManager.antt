-- ===== src/Components/WalletManager.antt =====
-- frontend/src/components/WalletManager.vue
pub mod Template
pub mod Laws
use namecoin.Prelude.{ℕ, suc, Bool, true, false, Option, none, some, List, [], ◌∷◌, ◌++◌}
use namecoin.Js.Text.{Text, js}
use namecoin.Js.Effect.{ok, message, Run, modify, catch_with, finally, within, ◌>>=◌, ◌>>◌}
use namecoin.Js.Platform.{Platform}
use namecoin.Services.Wallet.{Download, FileRead}
use namecoin.Composables.UseWallet.{WalletState, Wa, create_wallet, import_wallet, export_wallet}

-- The refs of the component, the wallet that it shares, the files it offers, the alerts, and how often
-- `wallet-loaded` was emitted.
pub record Manager : Type 0 where
  pub shared : WalletState
  pub loading : Bool
  pub show_keys : Bool
  pub downloads : List Download
  pub alerts : List Text
  pub loaded_events : ℕ

abbrev pub Mg : Type 0 → Type 0
Mg A = Run Manager A

unfoldable pub in_shared : {A : Type 0} → Wa A → Mg A
unfolding within
in_shared m = within (λ s. s.shared) (λ w s. record s { shared = w }) m

unfoldable pub alert : Text → Mg (Unit {0})
alert t = modify (λ s. record s { alerts = s.alerts ++ t ∷ [] })

unfoldable pub stop_loading : Manager → Manager
stop_loading s = record s { loading = false }

-- `continueToApp`
unfoldable pub continue_to_app : Mg (Unit {0})
continue_to_app = modify (λ s. record s { loaded_events = suc s.loaded_events })

module _ (p : Platform) where
  -- `createNewWallet`
  unfoldable pub create_new_wallet : Mg (Unit {0})
  create_new_wallet s =
      finally
        (catch_with (do in_shared (create_wallet p); modify (λ t. record t { show_keys = true }))
          (λ e. alert (js "Failed to create wallet: " ++ message e)))
        stop_loading (record s { loading = true })

  -- `handleImport`, for the first file that was chosen
  unfoldable pub handle_import : Option FileRead → Mg (Unit {0})
  handle_import none s = (ok tt, s)
  handle_import (some file) s =
      finally
        (catch_with (do in_shared (import_wallet p file); continue_to_app)
          (λ e. alert (js "Failed to import wallet: " ++ message e)))
        stop_loading (record s { loading = true })

  -- `download`
  unfoldable pub download : Mg (Unit {0})
  download = do
    file ← in_shared (export_wallet p)
    modify (λ s. record s { downloads = s.downloads ++ file ∷ [] })
