-- ===== src/Utils/Validation.antt =====
-- frontend/src/utils/validation.js
pub mod Laws
use namecoin.Prelude.{
  ℕ, Bool, true, false, ◌&&◌, ◌||◌, Option, none, some, List, [], ◌∷◌, ◌==◌, leb, length,
  if◌then◌else◌,
}
use namecoin.Js.Text.{Text}
use namecoin.Js.Value.{
  Value, undefined, null, bool, num, str, arr, obj, truthy, positive, is_integer,
}
use namecoin.Utils.Regex.{Piece, test}

unfoldable pub is_letter : ℕ → Bool
is_letter c = if leb 97 c && leb c 122 then true else leb 65 c && leb c 90

unfoldable pub is_alphanumeric : ℕ → Bool
unfolding is_letter
is_alphanumeric c = if leb 48 c && leb c 57 then true else is_letter c

unfoldable pub is_label_char : ℕ → Bool
unfolding is_alphanumeric
is_label_char c = if c == 45 then true else is_alphanumeric c

unfoldable pub is_hex_char : ℕ → Bool
is_hex_char c =
    if leb 48 c && leb c 57
    then true
    else if leb 97 c && leb c 102
    then true
    else leb 65 c && leb c 70

abbrev pub is_dot : ℕ → Bool
is_dot c = c == 46

-- `domainRegex`, piece by piece
abbrev pub domain_regex : List Piece
domain_regex =
    record { class = is_alphanumeric; least = 1; extra = some 0 }
    ∷ record { class = is_label_char; least = 0; extra = some 61 }
    ∷ record { class = is_alphanumeric; least = 0; extra = some 1 }
    ∷ record { class = is_dot; least = 1; extra = some 0 }
    ∷ record { class = is_letter; least = 2; extra = none }
    ∷ []

unfoldable pub is_valid_domain : Text → Bool
unfolding test
is_valid_domain domain = test domain_regex domain

unfoldable pub is_valid_fee : Value → Bool
unfolding positive is_integer
is_valid_fee (num n) = if positive n then is_integer n else false
is_valid_fee _ = false

unfoldable pub is_valid_hex : Text → Bool
unfolding test
is_valid_hex s = test (record { class = is_hex_char; least = 1; extra = none } ∷ []) s

-- The chain of `&&` returns its first operand that counts as false, else a Boolean.
unfoldable pub is_valid_wallet_id : Value → Value
unfolding is_valid_hex truthy
is_valid_wallet_id (str s) =
    if truthy (str s)
    then (if is_valid_hex s then bool (leb 32 (length s)) else bool false)
    else str s
is_valid_wallet_id id = if truthy id then bool false else id
