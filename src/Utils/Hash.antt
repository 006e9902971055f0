-- ===== src/Utils/Hash.antt =====
-- frontend/src/utils/hash.js over the platform's SHA-256 and `canonicalize`.
pub mod Laws
use namecoin.Prelude.{ℕ, Option, none, some, List, [], ◌∷◌, ◌++◌}
use namecoin.Js.Text.{Text, js}
use namecoin.Js.Value.{Value, Fields, field, end, arr, nil, obj, str, default_to, type_of}
use namecoin.Js.Effect.{Result, ok, throw, type_error, pure, lift, ◌>>=◌}
use namecoin.Js.Platform.{Platform, Io, ask}
use namecoin.Utils.Hex.{bytes_to_hex}

-- The kinds of argument that `sha256` tells apart; the others by their `typeof`.
pub data HashInput : Type 0 where
  string_input : Text → HashInput
  bytes_input : List ℕ → HashInput
  other_input : Text → HashInput

unfoldable pub hash_input : Value → HashInput
hash_input (str s) = string_input s
hash_input v = other_input (type_of v)

unfoldable pub invalid_input : Text → Text
unfolding js
invalid_input kind =
    js "sha256: Invalid input type. Expected string or Uint8Array, got "
    ++ kind
    ++ js
        ". If you have an object or array, stringify it first using JSON.stringify() or canonicalize()."

abbrev pub empty_array : Value
empty_array = arr nil

-- The argument of `generateTxID`; a property that is not given is `undefined`.
pub record TxParams : Type 0 where
  pub type : Value
  pub sender : Value
  pub amount : Value
  pub payload : Value
  pub inputs : Value
  pub outputs : Value

-- The object that is hashed and signed.
unfoldable pub tx_object : TxParams → Value
tx_object t = obj (
    field (js "type") t.type (
      field (js "from") t.sender (
        field (js "amount") t.amount (
          field (js "payload") t.payload
            (field (js "inputs") t.inputs (field (js "outputs") t.outputs end))))))

module _ (p : Platform) where
  unfoldable pub sha256 : HashInput → Result Text
  sha256 (string_input s) = ok (bytes_to_hex (p.digest (p.utf8 s)))
  sha256 (bytes_input bs) = ok (bytes_to_hex (p.digest bs))
  sha256 (other_input kind) = throw (type_error (invalid_input kind))

  -- `length = 16` writes the window's property of that name; the salt is of 16 bytes.
  unfoldable pub generate_random_salt : Io Text
  generate_random_salt = do bytes ← ask (λ t. p.random_values t 16); pure (bytes_to_hex bytes)

  unfoldable pub generate_salt : Io Text
  generate_salt = generate_random_salt

  unfoldable pub generate_hash : Text → Text → Result Text
  unfolding sha256
  generate_hash domain salt =
      sha256 (string_input (js "DOMAIN_HASH_v1:" ++ domain ++ js ":" ++ salt))

  -- `await sha256(canonicalize(v))`
  unfoldable pub hash_canonical : Value → Result Text
  unfolding sha256
  hash_canonical v = elim (p.canonicalize v) [ ok c ↦ sha256 (hash_input c) | throw e ↦ throw e ]

  unfoldable pub hash_tx_data : Value → Result Text
  unfolding hash_canonical
  hash_tx_data tx_data = hash_canonical tx_data

  unfoldable pub generate_tx_id : TxParams → Result Text
  unfolding hash_canonical
  generate_tx_id t = hash_canonical (
      tx_object (record t {
        inputs = default_to empty_array t.inputs;
        outputs = default_to empty_array t.outputs;
      }))
