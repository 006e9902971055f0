-- ===== src/Utils/Hex.antt =====
-- Bytes and their hexadecimal text: `bytesToHex` and `hexToBytes` of frontend/src/utils/hash.js.
pub mod Laws
use namecoin.Prelude.{
  ℕ, zero, suc, ◌+◌, ◌-◌, ◌*◌, ◌/◌, ◌%◌, Bool, true, false, ◌&&◌, ◌||◌, Option, none, some, List,
  [], ◌∷◌, ◌++◌, ◌==◌, leb, ltb, if◌then◌else◌, length, take, drop,
}
use namecoin.Js.Text.{Text, is_space}

-- The digit of a number below 16.
unfoldable pub hex_digit : ℕ → ℕ
hex_digit d = if ltb d 10 then 48 + d else 87 + d

-- `b.toString(16)` for a byte
unfoldable pub to_string_16 : ℕ → Text
unfolding hex_digit
to_string_16 b = if ltb b 16 then hex_digit b ∷ [] else hex_digit (b / 16) ∷ hex_digit (b % 16) ∷ []

-- `s.padStart(2, '0')`
unfoldable pub pad_start_2 : Text → Text
pad_start_2 [] = 48 ∷ 48 ∷ []
pad_start_2 (c ∷ []) = 48 ∷ c ∷ []
pad_start_2 (c ∷ d ∷ s) = c ∷ d ∷ s

unfoldable pub bytes_to_hex : List ℕ → Text
unfolding to_string_16 pad_start_2
bytes_to_hex [] = []
bytes_to_hex (b ∷ bs) = pad_start_2 (to_string_16 b) ++ bytes_to_hex bs

unfoldable pub hex_value : ℕ → Option ℕ
hex_value c =
    if leb 48 c && leb c 57
    then some (c - 48)
    else if leb 97 c && leb c 102
    then some (c - 87)
    else if leb 65 c && leb c 70
    then some (c - 55)
    else none

-- The longest prefix of hexadecimal digits; `none` is `NaN`, where there is none.
unfoldable pub hex_prefix : Option ℕ → Text → Option ℕ
unfolding hex_value
hex_prefix read [] = read
hex_prefix none (c ∷ s) = elim (hex_value c) [ none ↦ none | some d ↦ hex_prefix (some d) s ]
hex_prefix (some n) (c ∷ s) = elim (hex_value c) [
  | none ↦ some n
  | some d ↦ hex_prefix (some (n * 16 + d)) s
]

unfoldable pub skip_spaces : Text → Text
unfolding is_space
skip_spaces [] = []
skip_spaces (c ∷ s) = let rest = skip_spaces s in if is_space c then rest else c ∷ s

-- `0x` or `0X` in front of the digits
unfoldable pub skip_0x : Text → Text
skip_0x [] = []
skip_0x (c ∷ []) = c ∷ []
skip_0x (c ∷ d ∷ s) = if c == 48 && (d == 120 || d == 88) then s else c ∷ d ∷ s

-- A negative number is stored in a byte modulo 256.
abbrev pub negate_byte : Option ℕ → Option ℕ
negate_byte none = none
negate_byte (some n) = some (256 - n % 256)

-- `parseInt(s, 16)`, up to multiples of 256; `none` is `NaN`
unfoldable pub parse_int_16 : Text → Option ℕ
unfolding skip_spaces hex_prefix skip_0x
parse_int_16 s = elim (skip_spaces s) [
  | [] ↦ none
  | c ∷ t ↦
      if c == 45
      then negate_byte (hex_prefix none (skip_0x t))
      else if c == 43
      then hex_prefix none (skip_0x t)
      else hex_prefix none (skip_0x (c ∷ t))
]

-- What an element of a `Uint8Array` holds after it is assigned a number; `NaN` is stored as 0.
abbrev pub to_byte : Option ℕ → ℕ
to_byte none = 0
to_byte (some n) = n % 256

-- The loop of `hexToBytes`, with the rounds left, at index `i`.
unfoldable pub fill_bytes : ℕ → ℕ → Text → List ℕ
fill_bytes zero i hex = []
fill_bytes (suc left) i hex =
    to_byte (parse_int_16 (take 2 (drop (i * 2) hex))) ∷ fill_bytes left (suc i) hex

-- The length of a typed array drops the half of an odd length.
unfoldable pub hex_to_bytes : Text → List ℕ
unfolding fill_bytes
hex_to_bytes hex = fill_bytes (length hex / 2) 0 hex
