-- ===== src/Js/Value.antt =====
-- JavaScript values as the program meets them: what `JSON.parse` returns, and `undefined`.
use namecoin.Prelude.{
  ℕ, zero, suc, ℤ, pos, negsuc, Bool, true, false, not, Option, none, some, [], ◌∷◌, if◌then◌else◌,
}
use namecoin.Js.Text.{Text, text_eq, js}

-- A double: a whole number (0 and -0 are one), a fraction by its floor and its other bits, or one of
-- the values that are not finite.
pub data Number : Type 0 where
  int : ℤ → Number
  frac : ℤ → ℕ → Number
  nan infinity minus_infinity : Number

mutual
  pub data Value : Type 0 where
    undefined null : Value
    bool : Bool → Value
    num : Number → Value
    str : Text → Value
    arr : Items → Value
    obj : Fields → Value

  pub data Items : Type 0 where
    nil : Items
    cons : Value → Items → Items

  pub data Fields : Type 0 where
    end : Fields
    field : Text → Value → Fields → Fields

-- `x === 0` or `x !== x`
abbrev number_falsy : Number → Bool
number_falsy (int (pos zero)) = true
number_falsy nan = true
number_falsy _ = false

-- the condition `x`
unfoldable pub truthy : Value → Bool
truthy undefined = false
truthy null = false
truthy (bool b) = b
truthy (num n) = not (number_falsy n)
truthy (str []) = false
truthy (str (c ∷ s)) = true
truthy (arr xs) = true
truthy (obj fs) = true

-- `x || d`
abbrev pub or_else : Value → Value → Value
or_else x d = if truthy x then x else d

-- a parameter's default, `x = d`
unfoldable pub default_to : Value → Value → Value
default_to d undefined = d
default_to d x = x

unfoldable pub is_array : Value → Bool
is_array (arr xs) = true
is_array _ = false

-- own property of an object; `undefined` where there is none
unfoldable pub get_field : Text → Fields → Value
get_field k end = undefined
get_field k (field j v fs) = let rest = get_field k fs in if text_eq j k then v else rest

-- `v.k` for a data property, where `none` is the `TypeError` on `null` and `undefined`
unfoldable pub get_prop : Text → Value → Option Value
get_prop k undefined = none
get_prop k null = none
get_prop k (obj fs) = some (get_field k fs)
get_prop k _ = some undefined

-- `x < 1`, `x > 0` and `Number.isInteger(x)` on numbers
unfoldable pub less_than_one : Number → Bool
less_than_one (int (pos zero)) = true
less_than_one (int (pos (suc n))) = false
less_than_one (int (negsuc n)) = true
less_than_one (frac (pos zero) m) = true
less_than_one (frac (pos (suc n)) m) = false
less_than_one (frac (negsuc n) m) = true
less_than_one nan = false
less_than_one infinity = false
less_than_one minus_infinity = true

unfoldable pub positive : Number → Bool
positive (int (pos zero)) = false
positive (int (pos (suc n))) = true
positive (int (negsuc n)) = false
positive (frac (pos n) m) = true
positive (frac (negsuc n) m) = false
positive nan = false
positive infinity = true
positive minus_infinity = false

unfoldable pub is_integer : Number → Bool
is_integer (int z) = true
is_integer _ = false

-- `typeof v`
unfoldable pub type_of : Value → Text
unfolding js
type_of undefined = js "undefined"
type_of null = js "object"
type_of (bool b) = js "boolean"
type_of (num n) = js "number"
type_of (str s) = js "string"
type_of (arr xs) = js "object"
type_of (obj fs) = js "object"

abbrev IsFinite : Number → Type 0
IsFinite (int z) = Unit
IsFinite (frac z m) = Unit
IsFinite _ = ⊥

-- What `JSON.stringify` writes and `JSON.parse` reads back as it is.
abbrev mutual
  pub IsPlain : Value → Type 0
  IsPlain undefined = ⊥
  IsPlain null = Unit
  IsPlain (bool b) = Unit
  IsPlain (num n) = IsFinite n
  IsPlain (str s) = Unit
  IsPlain (arr xs) = IsPlainItems xs
  IsPlain (obj fs) = IsPlainFields fs

  pub IsPlainItems : Items → Type 0
  IsPlainItems nil = Unit
  IsPlainItems (cons x xs) = IsPlain x × IsPlainItems xs

  pub IsPlainFields : Fields → Type 0
  IsPlainFields end = Unit
  IsPlainFields (field k v fs) = IsPlain v × IsPlainFields fs
