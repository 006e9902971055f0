-- ===== src/Utils/Hex/Laws.antt =====
-- The round trips of `bytesToHex` and `hexToBytes`.
use namecoin.Prelude.{
  ℕ, zero, suc, ◌+◌, ◌-◌, ◌*◌, ◌/◌, ◌%◌, ◌<◌, ◌≤◌, ◌≡◌, refl, true, List, [], ◌∷◌, ◌==◌, ==_iff,
  length, arith, All, ◌⊎◌, inl, inr,
}
use namecoin.Prelude.Ranges.{holds_under, holds_under-apply}
use namecoin.Js.Text.{Text}
use namecoin.Utils.Hex.{
  hex_digit, to_string_16, pad_start_2, bytes_to_hex, parse_int_16, fill_bytes, hex_to_bytes,
  to_byte,
}

two_digits :
    (b : ℕ) → b < 256 → pad_start_2 (to_string_16 b) ≡ hex_digit (b / 16) ∷ hex_digit (b % 16) ∷ []
unfolding pad_start_2 to_string_16 hex_digit
two_digits b h = ground arith

pub bytes_to_hex-cons :
    (b : ℕ) (bs : List ℕ)
    → b < 256
    → bytes_to_hex (b ∷ bs) ≡ hex_digit (b / 16) ∷ hex_digit (b % 16) ∷ bytes_to_hex bs
unfolding bytes_to_hex
bytes_to_hex-cons b bs h = rw (two_digits b h)

byte_table :
    holds_under
      (λ b. to_byte (parse_int_16 (hex_digit (b / 16) ∷ hex_digit (b % 16) ∷ [])) == b)
      256
    ≡ true
unfolding holds_under parse_int_16 hex_digit
byte_table = refl

pub byte-of_digits :
    (b : ℕ) → b < 256 → to_byte (parse_int_16 (hex_digit (b / 16) ∷ hex_digit (b % 16) ∷ [])) ≡ b
byte-of_digits b h = (==_iff _ b).0 (holds_under-apply _ 256 b h byte_table)

-- Each byte is written as two digits.
pub length-bytes_to_hex :
    (bs : List ℕ) → All (λ b. b < 256) bs → length (bytes_to_hex bs) ≡ length bs * 2
unfolding bytes_to_hex
length-bytes_to_hex [] h = refl
length-bytes_to_hex (b ∷ bs) (h, hs) =
    rw (two_digits b h) (omega (arith, length-bytes_to_hex bs hs))

-- The loop at index `i` reads what stands behind the first `2 * i` digits.
fill_bytes-shift :
    (left i : ℕ) (c d : ℕ) (s : Text) → fill_bytes left (suc i) (c ∷ d ∷ s) ≡ fill_bytes left i s
unfolding fill_bytes
fill_bytes-shift zero i c d s = refl
fill_bytes-shift (suc left) i c d s =
    let e : suc i * 2 ≡ suc (suc (i * 2)) = omega arith in
    rw e (rw (fill_bytes-shift left (suc i) c d s))

fill_bytes-bytes_to_hex :
    (bs : List ℕ) → All (λ b. b < 256) bs → fill_bytes (length bs) 0 (bytes_to_hex bs) ≡ bs
unfolding fill_bytes
fill_bytes-bytes_to_hex [] h = refl
fill_bytes-bytes_to_hex (b ∷ bs) (h, hs) =
    rw (bytes_to_hex-cons b bs h)
      (rw (byte-of_digits b h, fill_bytes-shift (length bs) 0, fill_bytes-bytes_to_hex bs hs))

-- Reading the text of bytes gives the bytes back.
pub hex_to_bytes-bytes_to_hex :
    (bs : List ℕ) → All (λ b. b < 256) bs → hex_to_bytes (bytes_to_hex bs) ≡ bs
unfolding hex_to_bytes
hex_to_bytes-bytes_to_hex bs h =
    rw (length-bytes_to_hex bs h)
      (let e : length bs * 2 / 2 ≡ length bs = omega arith in rw e (fill_bytes-bytes_to_hex bs h))

-- A digit that `toString(16)` writes: `0` to `9` or `a` to `f`.
abbrev pub IsLowerHex : ℕ → Type 0
IsLowerHex c = ((48 ≤ c) × (c < 58)) ⊎ ((97 ≤ c) × (c < 103))

lower_digit : (v : ℕ) → v < 16 → IsLowerHex (hex_digit v)
unfolding hex_digit
lower_digit v h = ground arith

digit-of_lower : (c : ℕ) → IsLowerHex c → (v : ℕ) × (v < 16) × (hex_digit v ≡ c)
unfolding hex_digit
digit-of_lower c (inl h) = (c - 48, omega arith, ground arith)
digit-of_lower c (inr h) = (c - 87, omega arith, ground arith)

pub bytes_to_hex-IsLowerHex :
    (bs : List ℕ) → All (λ b. b < 256) bs → All IsLowerHex (bytes_to_hex bs)
unfolding bytes_to_hex
bytes_to_hex-IsLowerHex [] h = tt
bytes_to_hex-IsLowerHex (b ∷ bs) (h, hs) = rw (two_digits b h) (
  lower_digit (b / 16) (omega arith),
  (lower_digit (b % 16) (omega arith), bytes_to_hex-IsLowerHex bs hs),
)

-- Text of whole bytes is the text of some bytes.
bytes-of_lower :
    (n : ℕ) (s : Text)
    → All IsLowerHex s
    → length s ≡ n * 2
    → (bs : List ℕ) × All (λ b. b < 256) bs × (bytes_to_hex bs ≡ s)
unfolding bytes_to_hex
bytes-of_lower zero [] h e = ([], tt, refl)
bytes-of_lower zero (c ∷ s) h e = absurd (omega arith)
bytes-of_lower (suc n) [] h e = absurd (omega arith)
bytes-of_lower (suc n) (c ∷ []) h e = absurd (omega arith)
bytes-of_lower (suc n) (c ∷ d ∷ s) (hc, (hd, hs)) e =
    let (bs, small, same) = bytes-of_lower n s hs (omega arith) in
    let (v, v_small, v_digit) = digit-of_lower c hc in
    let (w, w_small, w_digit) = digit-of_lower d hd in
    let high : (v * 16 + w) / 16 ≡ v = omega arith in
    let low : (v * 16 + w) % 16 ≡ w = omega arith in
    (
      (v * 16 + w) ∷ bs,
      (omega arith, small),
      rw (two_digits (v * 16 + w) (omega arith)) (rw (high, low, v_digit, w_digit, same)),
    )

-- Text of whole bytes in lower case is what its bytes are written as.
pub bytes_to_hex-hex_to_bytes :
    (s : Text) → All IsLowerHex s → length s % 2 ≡ 0 → bytes_to_hex (hex_to_bytes s) ≡ s
bytes_to_hex-hex_to_bytes s h even =
    let (bs, small, same) = bytes-of_lower (length s / 2) s h (omega arith) in
    rw (← same) (rw (hex_to_bytes-bytes_to_hex bs small))
