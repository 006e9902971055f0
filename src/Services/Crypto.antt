-- ===== src/Services/Crypto.antt =====
-- frontend/src/services/crypto.service.js
pub mod Laws
pub mod Identity
use Prim.Native.Nat.{bit_or, bit_xor}
use namecoin.Prelude.{ℕ, Bool, true, false, List, [], ◌∷◌, ◌==◌, if◌then◌else◌, length, not}
use namecoin.Js.Text.{Text, js}
use namecoin.Js.Value.{Value}
use namecoin.Js.Effect.{Result, ok, throw, Run, pure, lift, ◌>>=◌}
use namecoin.Js.Platform.{Platform, Io}
use namecoin.Utils.Hex.{bytes_to_hex, hex_to_bytes}
use namecoin.Utils.Hash.{generate_salt, generate_hash, hash_canonical, tx_object}
use namecoin.Services.Transaction.{Transaction, hashed_part}

-- `for (…) diff |= bufA[i] ^ bufB[i]`, on buffers of one length
unfoldable pub gather : ℕ → List ℕ → List ℕ → ℕ
gather diff [] bs = diff
gather diff (a ∷ xs) [] = diff
gather diff (a ∷ xs) (b ∷ ys) = gather (bit_or diff (bit_xor a b)) xs ys

-- The loop over buffers of two lengths has no effect on the answer `false`.
unfoldable pub equal_bytes : List ℕ → List ℕ → Bool
unfolding gather
equal_bytes xs ys = if length xs == length ys then gather 0 xs ys == 0 else false

pub record SaltedHash : Type 0 where
  pub hashed_domain : Text
  pub salt : Text

module _ (p : Platform) where
  -- `timingSafeEqual` of two texts
  unfoldable pub timing_safe_equal : Text → Text → Bool
  unfolding equal_bytes
  timing_safe_equal a b = equal_bytes (p.utf8 a) (p.utf8 b)

  unfoldable pub generate_salted_hash : Text → Io SaltedHash
  generate_salted_hash domain = do
    salt ← generate_salt p
    hashed_domain ← lift (generate_hash p domain salt)
    pure (record { hashed_domain = hashed_domain; salt = salt })

  unfoldable pub hash_domain_with_salt : Text → Text → Result Text
  hash_domain_with_salt domain salt = generate_hash p domain salt

  unfoldable pub verify_domain_hash : Text → Text → Text → Result Bool
  unfolding timing_safe_equal
  verify_domain_hash domain salt hashed_domain = elim (generate_hash p domain salt) [
    | ok computed ↦ ok (timing_safe_equal computed hashed_domain)
    | throw e ↦ throw e
  ]

  unfoldable pub generate_transaction_signature : Text → Text → Result Text
  generate_transaction_signature tx_hash private_key =
      elim (p.sign (hex_to_bytes tx_hash) (hex_to_bytes private_key)) [
        | ok signature ↦ ok (bytes_to_hex signature)
        | throw e ↦ throw e
      ]

  -- An exception of the library is caught and counts as a failed verification.
  unfoldable pub verify_transaction_signature : Text → Text → Text → Bool
  verify_transaction_signature tx_hash signature public_key =
      elim (p.verify (hex_to_bytes tx_hash) (hex_to_bytes signature) (hex_to_bytes public_key)) [
        | ok good ↦ good
        | throw e ↦ false
      ]

  unfoldable pub hash_transaction_data : Value → Result Text
  hash_transaction_data tx_data = hash_canonical p tx_data

  unfoldable pub hash_transaction : Transaction → Result Text
  unfolding hashed_part
  hash_transaction tx = hash_canonical p (tx_object (hashed_part tx))
