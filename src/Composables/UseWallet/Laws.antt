-- ===== src/Composables/UseWallet/Laws.antt =====
-- The wallet of the page and the wallet in the storage.
use namecoin.Prelude.{suc, ◌≡◌, refl, true, false, ◌∷◌}
use namecoin.Js.Text.{Text, js, text_eq, text_eq_refl}
use namecoin.Js.Value.{Value, str, null, truthy, get_prop, get_field, IsPlain}
use namecoin.Js.Effect.{ok, catch_with, ◌>>=◌}
use namecoin.Js.Platform.{Platform, Browser, IsStandard, IsNacl, IsJson, ask}
use namecoin.Js.Storage.{without}
use namecoin.Js.Storage.Laws.{lookup-set}
use namecoin.Utils.LocalStorage.{
  wallet_key, parse_or, set_item, get_item, save_wallet_data, get_wallet_data,
}
use namecoin.Utils.LocalStorage.Laws.{lookup-clear}
use namecoin.Services.Wallet.{
  HexKeys, generate_key_pair, derive_wallet_id, property, stored_wallet, save_wallet,
  load_wallet as load_stored,
}
use namecoin.Services.Wallet.Laws.{derive_wallet_id-generated}
use namecoin.Composables.UseWallet.{
  WalletRef, WalletState, no_wallet, in_browser, set_wallet, wallet_id, is_wallet_loaded,
  create_wallet, load_found, load_wallet, clear_wallet,
}

stored_keys :
    (p : Platform) (k l : Value) (time : Text)
    → (property p (js "publicKey") (stored_wallet k l time) ≡ ok k)
      × (property p (js "privateKey") (stored_wallet k l time) ≡ ok l)
unfolding property stored_wallet get_prop get_field text_eq js
stored_keys p k l time = (refl, refl)

-- After `clearWallet` no wallet is loaded: the page shows none, and `loadWallet` finds none and changes
-- nothing.
load_wallet-clear :
    (p : Platform) (s : WalletState)
    → (is_wallet_loaded (clear_wallet s).1 ≡ false)
      × (wallet_id (clear_wallet s).1 ≡ null)
      × (load_wallet p (clear_wallet s).1 ≡ (ok false, (clear_wallet s).1))
unfolding clear_wallet is_wallet_loaded wallet_id load_wallet set_wallet in_browser load_stored
    get_wallet_data get_item catch_with truthy ◌>>=◌
load_wallet-clear p s = (refl, refl, rw (lookup-clear, text_eq_refl, parse_or))

-- A plain wallet that fits is stored, and `getItem` returns it.
wallet-stored :
    (p : Platform) (v : Value) (b : Browser)
    → IsJson p
    → ((t : Text) → p.stringify v ≡ ok t → p.fits b.storage wallet_key t ≡ true)
    → IsPlain v
    → (b' : Browser) × (set_item p wallet_key v b ≡ (ok true, b'))
      × (get_item p wallet_key null b' ≡ (ok v, b'))
unfolding set_item get_item
wallet-stored p v b json room h =
    let (c, t, written, read) = json.text_of v h in
    (
      record b { storage = (wallet_key, c ∷ t) ∷ without wallet_key b.storage },
      rw (written, room (c ∷ t) written),
      rw (lookup-set, text_eq_refl, parse_or, read),
    )

stored_wallet-IsPlain : (k l : Text) (time : Text) → IsPlain (stored_wallet (str k) (str l) time)
unfolding stored_wallet
stored_wallet-IsPlain k l time = (tt, (tt, (tt, tt)))

stored_wallet-truthy : (k l : Value) (time : Text) → truthy (stored_wallet k l time) ≡ true
unfolding stored_wallet truthy
stored_wallet-truthy k l time = refl

module _ (p : Platform) (json : IsJson p) (std : IsStandard p) (nacl : IsNacl p) where
  -- `createWallet` always returns, and the wallet that it shows is the one that a page opened later on
  -- the same storage loads: with the same keys, and with the hash of the public key for an identifier.
  -- The quota lets through the write of this wallet, with the pair of keys that is made and with its time.
  pub load_wallet-create :
      (s : WalletState)
      → ((keys : HexKeys) (b : Browser) (t : Text)
          → generate_key_pair p s.browser ≡ (ok keys, b)
          → p.stringify
              (stored_wallet (str keys.public_key) (str keys.private_key) (p.iso_date b.asked))
            ≡ ok t
          → p.fits s.browser.storage wallet_key t ≡ true)
      → (w : WalletRef) × (t : WalletState) × (create_wallet p s ≡ (ok w, t))
        × (t.wallet ≡ w)
        × (derive_wallet_id p w.public_key ≡ ok w.id)
        × (load_wallet p (record t { wallet = no_wallet }) ≡ (ok true, t))
  unfolding create_wallet in_browser set_wallet save_wallet save_wallet_data ask load_wallet
      load_found load_stored get_wallet_data catch_with ◌>>=◌
  load_wallet-create s room =
      let (keys, id, made, derived, _, _, _) = derive_wallet_id-generated p std nacl s.browser in
      let k = str keys.public_key in
      let l = str keys.private_key in
      let v = stored_wallet k l (p.iso_date (suc s.browser.asked)) in
      let b1 = record s.browser { asked = suc (suc s.browser.asked) } in
      let (b', stored, read) =
        wallet-stored p v b1 json (λ t. room keys _ t made)
          (stored_wallet-IsPlain keys.public_key keys.private_key
            (p.iso_date (suc s.browser.asked))) in
      let (pk, sk) = stored_keys p k l (p.iso_date (suc s.browser.asked)) in
      let w : WalletRef = record { public_key = k; private_key = l; id = str id } in
      (
        w,
        record { browser = b'; wallet = w },
        rw (made, derived, stored),
        refl,
        derived,
        rw (read, stored_wallet-truthy, pk, derived, sk),
      )
