-- ===== src/Services/Wallet/Laws.antt =====
-- Wallets: keys, identifiers and files.
use namecoin.Prelude.{ℕ, suc, ◌≤◌, ◌≡◌, refl, ap, true, inl, inr, Bool-cases, arith, [], ◌∷◌, ◌↔◌}
use namecoin.Js.Text.{Text, js}
use namecoin.Js.Value.{Value, str, bool, truthy}
use namecoin.Js.Effect.{Result, ok, throw, ◌>>=◌}
use namecoin.Js.Platform.{Platform, Browser, IsStandard, IsNacl, ask}
use namecoin.Utils.Hex.{bytes_to_hex, hex_to_bytes}
use namecoin.Utils.Hex.Laws.{bytes_to_hex-IsLowerHex, length-bytes_to_hex}
use namecoin.Utils.Hash.{sha256, bytes_input}
use namecoin.Utils.Hash.Laws.{IsHexOf, sha256-IsHexOf}
use namecoin.Utils.Validation.{is_valid_wallet_id}
use namecoin.Utils.Validation.Laws.{is_valid_wallet_id-IsHexOf}
use namecoin.Services.Wallet.{
  HexKeys, generate_key_pair, derive_wallet_id, property, FileRead, loaded, failed,
  import_wallet_from_file, require_keys, parsed_wallet,
}

truthy-hex : (n : ℕ) (s : Text) → 1 ≤ n → IsHexOf n s → truthy (str s) ≡ true
unfolding truthy
truthy-hex n [] h r = absurd (omega (arith, r.size))
truthy-hex n (c ∷ s) h r = refl

module _ (p : Platform) (std : IsStandard p) (nacl : IsNacl p) where
  public_key-IsHexOf : (t : ℕ) → IsHexOf 32 (bytes_to_hex (p.key_pair t).public_key)
  public_key-IsHexOf t = record {
    digits = bytes_to_hex-IsLowerHex _ (nacl.public_bytes t);
    size = omega (arith, length-bytes_to_hex _ (nacl.public_bytes t), nacl.length_public t);
  }

  -- The identifier of a wallet that `generateKeyPair` made is the hash of the public key's bytes, in 64
  -- hexadecimal digits, and `isValidWalletID` accepts it.
  pub derive_wallet_id-generated :
      (b : Browser)
      → (keys : HexKeys) × (id : Text) × (generate_key_pair p b
          ≡ (ok keys, record b { asked = suc b.asked }))
        × (derive_wallet_id p (str keys.public_key) ≡ ok (str id))
        × (sha256 p (bytes_input (hex_to_bytes keys.public_key)) ≡ ok id)
        × IsHexOf 32 id
        × (is_valid_wallet_id (str id) ≡ bool true)
  unfolding generate_key_pair ask ◌>>=◌ derive_wallet_id sha256
  derive_wallet_id-generated b =
      let pk = (p.key_pair b.asked).public_key in
      let id = bytes_to_hex (p.digest (hex_to_bytes (bytes_to_hex pk))) in
      let hex : IsHexOf 32 id =
        sha256-IsHexOf p std (bytes_input (hex_to_bytes (bytes_to_hex pk))) id refl in
      (
        record {
          private_key = bytes_to_hex (p.key_pair b.asked).secret_key;
          public_key = bytes_to_hex pk;
        },
        id,
        refl,
        rw (truthy-hex 32 (bytes_to_hex pk) (omega arith) (public_key-IsHexOf b.asked)),
        refl,
        hex,
        is_valid_wallet_id-IsHexOf 32 id (omega arith) hex,
      )

abbrev Truthy : Result Value → Type 0
Truthy r = (k : Value) × (r ≡ ok k) × (truthy k ≡ true)

require_keys_iff :
    (wallet v : Value) (a b : Result Value)
    → (require_keys wallet a b ≡ ok v) ↔ ((wallet ≡ v) × Truthy a × Truthy b)
require_keys_iff wallet v (throw e) b = (λ h. absurd (cc), λ r. absurd (cc (r.1.1)))
require_keys_iff wallet v (ok k) (throw e) = (λ h. absurd (ground arith), λ r. absurd (cc (r.2.1)))
require_keys_iff wallet v (ok k) (ok l) = elim (Bool-cases (truthy k)) [
  | inl tk ↦ elim (Bool-cases (truthy l)) [
    | inl tl ↦ rw (tk, tl) (λ h. (cc h, (k, refl, tk), (l, refl, tl)), λ r. ap ok r.0)
    | inr fl ↦ rw (tk, fl) (λ h. absurd (cc h), λ r. absurd (ground (arith, r.2.1, r.2.2)))
  ]
  | inr fk ↦ rw fk (λ h. absurd (cc h), λ r. absurd (ground (arith, r.1.1, r.1.2)))
]

parsed_wallet_iff :
    (p : Platform) (r : Result Value) (v : Value)
    → (parsed_wallet p r ≡ ok v) ↔ (
        (r ≡ ok v)
        × Truthy (property p (js "publicKey") v)
        × Truthy (property p (js "privateKey") v))
parsed_wallet_iff p (throw e) v = (λ h. absurd (cc h), λ r. absurd (cc (r.0)))
parsed_wallet_iff p (ok w) v = (
  λ h.
      let (e, k, l) =
        (require_keys_iff w v (property p (js "publicKey") w) (property p (js "privateKey") w)).0
          h in
      (ap ok e, rw e at k, rw e at l),
  λ r.
      let e : w ≡ v = cc (r.0) in
      rw e (
        (require_keys_iff v v (property p (js "publicKey") v) (property p (js "privateKey") v)).1
          (refl, r.1, r.2)),
)

loaded_injective : {a b : Text} → loaded a ≡ loaded b → a ≡ b
loaded_injective e = cc

-- `importWalletFromFile` returns a wallet exactly when the file is read, its text is JSON of that
-- wallet, and both keys of the wallet are there and count as true.
pub import_wallet_from_file_iff :
    (p : Platform) (file : FileRead) (wallet : Value)
    → (import_wallet_from_file p file ≡ ok wallet) ↔ (
        (text : Text) × (file ≡ loaded text)
        × (p.parse text ≡ ok wallet)
        × ((k : Value) × (property p (js "publicKey") wallet ≡ ok k) × (truthy k ≡ true))
        × ((l : Value) × (property p (js "privateKey") wallet ≡ ok l) × (truthy l ≡ true)))
unfolding import_wallet_from_file
import_wallet_from_file_iff p (failed e) wallet = (λ h. absurd (cc h), λ r. absurd (cc (r.1)))
import_wallet_from_file_iff p (loaded text) wallet = (
  λ h. let (e, k, l) = (parsed_wallet_iff p (p.parse text) wallet).0 h in (text, refl, e, k, l),
  λ r.
      let same : p.parse text ≡ ok wallet = cc (ap p.parse (loaded_injective r.1), r.2) in
      (parsed_wallet_iff p (p.parse text) wallet).1 (same, r.3, r.4),
)
