-- ===== src/Services/Crypto/Laws.antt =====
-- Comparison of hashes, and signatures.
use Prim.Native.Nat.{bit_or, bit_xor}
use namecoin.Prelude.{
  ℕ, ◌<◌, ◌≡◌, ◌↔◌, refl, ap, Bool, true, false, List, [], ◌∷◌, ◌==◌, ==_iff, if◌then◌else◌, length,
  All, arith, ltb, Bool-cases, inl, inr,
}
use namecoin.Prelude.Ranges.{holds_under, holds_under-apply}
use namecoin.Js.Text.{Text, text_eq, text_eq_sound, text_eq_iff}
use namecoin.Js.Effect.{ok}
use namecoin.Js.Platform.{Platform, IsNacl}
use namecoin.Utils.Hex.{bytes_to_hex, hex_to_bytes}
use namecoin.Utils.Hex.Laws.{hex_to_bytes-bytes_to_hex}
use namecoin.Utils.Hash.{generate_hash}
use namecoin.Services.Crypto.{
  gather, equal_bytes, timing_safe_equal, verify_domain_hash, generate_transaction_signature,
  verify_transaction_signature,
}

abbrev pub IsBytes : List ℕ → Type 0
IsBytes bs = All (λ b. b < 256) bs

or_row : ℕ → ℕ → Bool
or_row d x =
    if ltb (bit_or d x) 256
    then (if d == 0 then bit_or d x == x else if bit_or d x == 0 then false else true)
    else false

xor_row : ℕ → ℕ → Bool
xor_row a b =
    if ltb (bit_xor a b) 256
    then (if a == b then bit_xor a b == 0 else if bit_xor a b == 0 then false else true)
    else false

or_table : holds_under (λ d. holds_under (or_row d) 256) 256 ≡ true
unfolding holds_under or_row
or_table = refl

xor_table : holds_under (λ a. holds_under (xor_row a) 256) 256 ≡ true
unfolding holds_under xor_row
xor_table = refl

or_fact : (d x : ℕ) → d < 256 → x < 256 → or_row d x ≡ true
or_fact d x h k =
    holds_under-apply (or_row d) 256 x k
      (holds_under-apply (λ e. holds_under (or_row e) 256) 256 d h or_table)

xor_fact : (a b : ℕ) → a < 256 → b < 256 → xor_row a b ≡ true
xor_fact a b h k =
    holds_under-apply (xor_row a) 256 b k
      (holds_under-apply (λ e. holds_under (xor_row e) 256) 256 a h xor_table)

-- One round: the difference stays a byte, and it is zero exactly if it was and the bytes agree.
round :
    (d a b : ℕ)
    → d < 256
    → a < 256
    → b < 256
    → (bit_or d (bit_xor a b) < 256)
      × ((bit_or d (bit_xor a b) == 0) ≡ (if d == 0 then a == b else false))
unfolding or_row xor_row
round d a b hd ha hb =
    let small : bit_xor a b < 256 = ground (arith, xor_fact a b ha hb) in
    (
      ground (arith, or_fact d (bit_xor a b) hd small),
      ground (arith, xor_fact a b ha hb, or_fact d (bit_xor a b) hd small),
    )

-- The constant-time comparison of bytes is equality.
gather-eq :
    (d : ℕ) (xs ys : List ℕ)
    → d < 256
    → IsBytes xs
    → IsBytes ys
    → length xs ≡ length ys
    → (gather d xs ys == 0) ≡ (if d == 0 then text_eq xs ys else false)
unfolding gather text_eq
gather-eq d [] [] hd h k e = ground arith
gather-eq d [] (y ∷ ys) hd h k e = absurd (omega arith)
gather-eq d (x ∷ xs) [] hd h k e = absurd (omega arith)
gather-eq d (x ∷ xs) (y ∷ ys) hd (hx, h) (hy, k) e =
    let (small, zero_iff) = round d x y hd hx hy in
    rw (gather-eq (bit_or d (bit_xor x y)) xs ys small h k (omega arith), zero_iff) (ground arith)

equal_bytes-text_eq : (xs ys : List ℕ) → IsBytes xs → IsBytes ys → equal_bytes xs ys ≡ text_eq xs ys
unfolding equal_bytes
equal_bytes-text_eq xs ys h k = elim (Bool-cases (length xs == length ys)) [
  | inl e ↦ rw e (gather-eq 0 xs ys (omega arith) h k ((==_iff (length xs) (length ys)).0 e))
  | inr e ↦ rw e (elim (Bool-cases (text_eq xs ys)) [
    | inl q ↦ cc (e, (==_iff (length xs) (length ys)).1 (ap length (text_eq_sound xs ys q)))
    | inr q ↦ rw q
  ])
]

ok_injective : {a b : Bool} → ok a ≡ ok b → a ≡ b
ok_injective e = cc

module _ (p : Platform) (utf8_bytes : (s : Text) → IsBytes (p.utf8 s)) where
  -- `timingSafeEqual` accepts two texts exactly when their encodings are equal.
  timing_safe_equal_iff : (a b : Text) → (timing_safe_equal p a b ≡ true) ↔ (p.utf8 a ≡ p.utf8 b)
  unfolding timing_safe_equal
  timing_safe_equal_iff a b =
      rw (equal_bytes-text_eq (p.utf8 a) (p.utf8 b) (utf8_bytes a) (utf8_bytes b))
        (text_eq_iff (p.utf8 a) (p.utf8 b))

  -- `verifyDomainHash` returns a Boolean for every input, and it accepts a hash exactly when `generateHash` of the same
  -- domain and salt is a text of the same encoding.
  pub verify_domain_hash_iff :
      (domain salt hash : Text)
      → ((b : Bool) × (verify_domain_hash p domain salt hash ≡ ok b))
        × ((verify_domain_hash p domain salt hash ≡ ok true)
            ↔ ((c : Text) × (generate_hash p domain salt ≡ ok c) × (p.utf8 c ≡ p.utf8 hash)))
  unfolding verify_domain_hash generate_hash
  verify_domain_hash_iff domain salt hash = (
    (_, refl),
    (
      λ h. (_, refl, (timing_safe_equal_iff _ hash).0 (ok_injective h)),
      λ r. ap ok ((timing_safe_equal_iff _ hash).1 (cc (r.1, r.2))),
    ),
  )

-- A signature by a generated private key is returned, and the public key of the pair verifies it.
pub verify_transaction_signature-generate :
    (p : Platform) (tx_hash : Text) (t : ℕ)
    → IsNacl p
    → (signature : Text) × (generate_transaction_signature p tx_hash
          (bytes_to_hex (p.key_pair t).secret_key)
        ≡ ok signature)
      × (verify_transaction_signature p tx_hash signature (bytes_to_hex (p.key_pair t).public_key)
          ≡ true)
unfolding generate_transaction_signature verify_transaction_signature
verify_transaction_signature-generate p tx_hash t nacl =
    let (g, signed, g_bytes, verified) = nacl.signs t (hex_to_bytes tx_hash) in
    (
      bytes_to_hex g,
      rw (
        hex_to_bytes-bytes_to_hex _ (nacl.secret_bytes t),
        signed,
        generate_transaction_signature,
      ),
      rw (
        hex_to_bytes-bytes_to_hex (p.key_pair t).public_key (nacl.public_bytes t),
        hex_to_bytes-bytes_to_hex g g_bytes,
        verified,
        verify_transaction_signature,
      ),
    )
