-- ===== src/Services/Wallet.antt =====
-- frontend/src/services/wallet.service.js
pub mod Laws
use namecoin.Prelude.{
  ℕ, zero, suc, pos, negsuc, Bool, true, false, Option, none, some, List, [], ◌∷◌, ◌++◌,
  if◌then◌else◌,
}
use namecoin.Js.Text.{Text, js, show_nat}
use namecoin.Js.Value.{
  Value, Number, int, frac, nan, infinity, minus_infinity, Items, undefined, null, bool, num, str,
  arr, obj, nil, cons, end, field, truthy, get_prop, get_field,
}
use namecoin.Js.Effect.{
  Result, Exception, ok, throw, error, type_error, Run, pure, lift, raise, ◌>>=◌,
}
use namecoin.Js.Platform.{Platform, Io, ask}
use namecoin.Utils.Hex.{bytes_to_hex, hex_to_bytes}
use namecoin.Utils.Hash.{sha256, bytes_input}
use namecoin.Utils.LocalStorage.{save_wallet_data, get_wallet_data}

pub record HexKeys : Type 0 where
  pub private_key : Text
  pub public_key : Text

-- `new Uint8Array(length / 2)` and the loop of `hexToBytes`, for a value that has no `substr`: no byte
-- for a length between -2 and 2, and an exception for the others.
unfoldable pub foreign_bytes : Platform → Number → Result (List ℕ)
foreign_bytes p (int (pos (suc (suc n)))) = throw (type_error p.no_property)
foreign_bytes p (frac (pos (suc (suc n))) m) = throw (type_error p.no_property)
foreign_bytes p (int (negsuc (suc n))) = throw (error p.bad_length)
foreign_bytes p (frac (negsuc (suc (suc n))) m) = throw (error p.bad_length)
foreign_bytes p infinity = throw (error p.bad_length)
foreign_bytes p minus_infinity = throw (error p.bad_length)
foreign_bytes p _ = ok []

abbrev pub as_number : Platform → Value → Number
as_number p undefined = nan
as_number p (num n) = n
as_number p v = p.to_number v

abbrev count_items : Items → ℕ
count_items nil = 0
count_items (cons x xs) = suc (count_items xs)

-- `hexToBytes(v)` of a value that need not be a text
unfoldable pub value_to_bytes : Platform → Value → Result (List ℕ)
unfolding foreign_bytes
value_to_bytes p (str s) = ok (hex_to_bytes s)
value_to_bytes p (arr xs) = foreign_bytes p (int (pos (count_items xs)))
value_to_bytes p (obj fs) = foreign_bytes p (as_number p (get_field (js "length") fs))
value_to_bytes p undefined = throw (type_error p.no_property)
value_to_bytes p null = throw (type_error p.no_property)
value_to_bytes p _ = ok []

abbrev hash_of_bytes : Platform → Result (List ℕ) → Result Value
hash_of_bytes p (throw e) = throw e
hash_of_bytes p (ok bs) = elim (sha256 p (bytes_input bs)) [ ok s ↦ ok (str s) | throw e ↦ throw e ]

unfoldable pub derive_wallet_id : Platform → Value → Result Value
unfolding value_to_bytes
derive_wallet_id p public_key =
    if truthy public_key then hash_of_bytes p (value_to_bytes p public_key) else ok null

-- The object that `saveWallet` stores.
unfoldable pub stored_wallet : Value → Value → Text → Value
stored_wallet public_key private_key created_at = obj (
    field (js "publicKey") public_key
      (field (js "privateKey") private_key (field (js "createdAt") (str created_at) end)))

-- A file that the browser is told to save.
pub record Download : Type 0 where
  pub name : Text
  pub content : Text

-- What the `FileReader` delivers.
pub data FileRead : Type 0 where
  loaded : Text → FileRead
  failed : Exception → FileRead

-- `v.k`, thrown as a `TypeError` where `v` has no properties
unfoldable pub property : Platform → Text → Value → Result Value
unfolding get_prop
property p k v = elim (get_prop k v) [ none ↦ throw (type_error p.no_property) | some w ↦ ok w ]

-- The promise settles once: after the rejection of an incomplete wallet `resolve` has no effect.
abbrev pub require_keys : Value → Result Value → Result Value → Result Value
require_keys wallet (throw e) private_key = throw e
require_keys wallet (ok k) (throw e) =
    if truthy k then throw e else throw (error (js "Invalid wallet file"))
require_keys wallet (ok k) (ok l) =
    if truthy k
    then (if truthy l then ok wallet else throw (error (js "Invalid wallet file")))
    else throw (error (js "Invalid wallet file"))

abbrev parsed_wallet : Platform → Result Value → Result Value
parsed_wallet p (throw e) = throw e
parsed_wallet p (ok wallet) =
    require_keys wallet (property p (js "publicKey") wallet) (property p (js "privateKey") wallet)

unfoldable pub import_wallet_from_file : Platform → FileRead → Result Value
unfolding property
import_wallet_from_file p (failed e) = throw e
import_wallet_from_file p (loaded text) = parsed_wallet p (p.parse text)

module _ (p : Platform) where
  unfoldable pub generate_key_pair : Io HexKeys
  generate_key_pair = do
    pair ← ask p.key_pair
    pure (record {
      private_key = bytes_to_hex pair.secret_key;
      public_key = bytes_to_hex pair.public_key;
    })

  unfoldable pub save_wallet : Value → Value → Io Bool
  save_wallet public_key private_key = do
    created_at ← ask p.iso_date
    save_wallet_data p (stored_wallet public_key private_key created_at)

  unfoldable pub load_wallet : Io Value
  load_wallet = get_wallet_data p

  unfoldable pub export_wallet_to_file : Value → Io Download
  export_wallet_to_file wallet = do
    content ← lift (p.pretty wallet)
    time ← ask p.now
    pure (record { name = js "peerster-wallet-" ++ show_nat time ++ js ".json"; content = content })
