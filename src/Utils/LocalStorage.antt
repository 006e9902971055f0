-- ===== src/Utils/LocalStorage.antt =====
-- frontend/src/utils/storage.js
pub mod Laws
use namecoin.Prelude.{Bool, true, false, Option, none, some, List, [], ◌∷◌, ◌++◌, if◌then◌else◌}
use namecoin.Js.Text.{Text, js}
use namecoin.Js.Value.{Value, Items, undefined, null, bool, num, str, arr, obj, nil, cons}
use namecoin.Js.Effect.{
  Result, ok, throw, type_error, Run, pure, raise, lift, catch_with, ◌>>=◌, ◌>>◌,
}
use namecoin.Js.Platform.{Platform, Browser, Io}
use namecoin.Js.Storage.{
  lookup, get_item as local_get, set_item as local_set, remove_item as local_remove,
}

-- `StorageKeys`
unfoldable pub wallet_key : Text
unfolding js
wallet_key = js "peerster_wallet"

unfoldable pub domains_key : Text
unfolding js
domains_key = js "peerster_domains"

unfoldable pub transactions_key : Text
unfolding js
transactions_key = js "peerster_transactions"

-- `xs.push(v)`
unfoldable pub snoc : Items → Value → Items
snoc nil v = cons v nil
snoc (cons x xs) v = cons x (snoc xs v)

-- The array that `xs.push(v)` leaves; no other value has a `push`.
unfoldable pub push : Platform → Value → Value → Result Value
unfolding snoc
push p (arr xs) v = ok (arr (snoc xs v))
push p _ v = throw (type_error p.no_property)

-- `item ? JSON.parse(item) : d`
unfoldable pub parse_or : Platform → Value → Option Text → Result Value
parse_or p d none = ok d
parse_or p d (some []) = ok d
parse_or p d (some (c ∷ s)) = p.parse (c ∷ s)

module _ (p : Platform) where
  unfoldable pub set_item : Text → Value → Io Bool
  unfolding ◌>>=◌ catch_with local_set
  set_item key value =
      catch_with (do serialized ← lift (p.stringify value); local_set p key serialized; pure true)
        (λ e. pure false)

  unfoldable pub get_item : Text → Value → Io Value
  unfolding ◌>>=◌ catch_with local_get parse_or
  get_item key default_value =
      catch_with (do item ← local_get key; lift (parse_or p default_value item))
        (λ e. pure default_value)

  unfoldable pub save_wallet_data : Value → Io Bool
  save_wallet_data wallet = set_item wallet_key wallet

  unfoldable pub get_wallet_data : Io Value
  get_wallet_data = get_item wallet_key null

  unfoldable pub save_domain : Value → Io Bool
  save_domain domain_data = do
    domains ← get_item domains_key (arr nil)
    pushed ← lift (push p domains domain_data)
    set_item domains_key pushed

  unfoldable pub get_domains : Io Value
  get_domains = get_item domains_key (arr nil)

unfoldable pub remove_item : Text → Io (Unit {0})
unfolding local_remove
remove_item key = local_remove key

unfoldable pub clear : Io (Unit {0})
clear = do remove_item wallet_key; remove_item domains_key; remove_item transactions_key
