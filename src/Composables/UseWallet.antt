-- ===== src/Composables/UseWallet.antt =====
-- frontend/src/composables/useWallet.js: the wallet of the page.
pub mod Laws
use namecoin.Prelude.{Bool, true, false, List, [], ◌∷◌, if◌then◌else◌}
use namecoin.Js.Text.{Text, js}
use namecoin.Js.Value.{
  Value, undefined, null, bool, num, str, arr, obj, end, field, truthy, or_else,
}
use namecoin.Js.Effect.{
  Result, ok, throw, Run, pure, lift, gets, modify, catch_with, within, ◌>>=◌, ◌>>◌,
}
use namecoin.Js.Platform.{Platform, Browser, Io}
use namecoin.Utils.LocalStorage.{clear}
use namecoin.Services.Wallet.{
  HexKeys, Download, FileRead, property, generate_key_pair, derive_wallet_id, save_wallet,
  load_wallet as load_stored, export_wallet_to_file, import_wallet_from_file,
}

-- `wallet.value`
pub record WalletRef : Type 0 where
  pub public_key : Value
  pub private_key : Value
  pub id : Value

pub record WalletState : Type 0 where
  pub browser : Browser
  pub wallet : WalletRef

abbrev pub Wa : Type 0 → Type 0
Wa A = Run WalletState A

abbrev pub no_wallet : WalletRef
no_wallet = record { public_key = null; private_key = null; id = null }

unfoldable pub in_browser : {A : Type 0} → Io A → Wa A
unfolding within
in_browser m = within (λ s. s.browser) (λ b s. record s { browser = b }) m

unfoldable pub set_wallet : WalletRef → Wa (Unit {0})
set_wallet w = modify (λ s. record s { wallet = w })

-- the computed `walletID`
unfoldable pub wallet_id : WalletState → Value
wallet_id s = or_else s.wallet.id null

abbrev is_not_null : Value → Bool
is_not_null null = false
is_not_null _ = true

-- the computed `isWalletLoaded`
unfoldable pub is_wallet_loaded : WalletState → Bool
is_wallet_loaded s = is_not_null s.wallet.public_key

-- The plain object that a wallet is written to a file as.
unfoldable pub wallet_object : WalletRef → Value
unfolding js
wallet_object w = obj (
    field (js "publicKey") w.public_key
      (field (js "privateKey") w.private_key (field (js "id") w.id end)))

module _ (p : Platform) where
  -- The `catch` writes to the console and throws the same exception again.
  unfoldable pub create_wallet : Wa WalletRef
  create_wallet = do
    keys ← in_browser (generate_key_pair p)
    id ← lift (derive_wallet_id p (str keys.public_key))
    set_wallet
        (record { public_key = str keys.public_key; private_key = str keys.private_key; id = id })
    in_browser (save_wallet p (str keys.public_key) (str keys.private_key))
    gets (λ s. s.wallet)

  -- The wallet that was found, if it is one.
  unfoldable pub load_found : Value → Wa Bool
  load_found saved = do
    public_key ← lift (property p (js "publicKey") saved)
    id ← lift (derive_wallet_id p public_key)
    private_key ← lift (property p (js "privateKey") saved)
    set_wallet (record { public_key = public_key; private_key = private_key; id = id })
    pure true

  unfoldable pub load_wallet : Wa Bool
  load_wallet =
      catch_with
        (do
          saved ← in_browser (load_stored p)
          if truthy saved then load_found saved else pure false)
        (λ e. pure false)

  unfoldable pub export_wallet : Wa Download
  export_wallet = do
    w ← gets (λ s. s.wallet)
    in_browser (export_wallet_to_file p (wallet_object w))

  unfoldable pub import_wallet : FileRead → Wa WalletRef
  import_wallet file = do
    imported ← lift (import_wallet_from_file p file)
    public_key ← lift (property p (js "publicKey") imported)
    id ← lift (derive_wallet_id p public_key)
    private_key ← lift (property p (js "privateKey") imported)
    set_wallet (record { public_key = public_key; private_key = private_key; id = id })
    in_browser (save_wallet p public_key private_key)
    gets (λ s. s.wallet)

unfoldable pub clear_wallet : Wa (Unit {0})
clear_wallet = do set_wallet no_wallet; in_browser clear
