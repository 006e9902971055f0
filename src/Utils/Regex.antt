-- ===== src/Utils/Regex.antt =====
-- Anchored regular expressions that are sequences of counted character classes, which is all that
-- frontend/src/utils/validation.js writes. A matcher tries the counts by backtracking.
pub mod Spec
pub mod Pieces
use namecoin.Prelude.{
  ℕ, zero, suc, Bool, true, false, ◌&&◌, ◌||◌, Option, none, some, List, [], ◌∷◌, if◌then◌else◌,
  is_empty,
}
use namecoin.Js.Text.{Text}

-- `[class]{least,least+extra}`, without an upper end for `none`
pub record Piece : Type 0 where
  pub class : ℕ → Bool
  pub least : ℕ
  pub extra : Option ℕ

-- One more character of the class may follow.
abbrev pub may_go_on : Option ℕ → Bool
may_go_on (some zero) = false
may_go_on _ = true

abbrev pub one_less : Option ℕ → Option ℕ
one_less none = none
one_less (some zero) = some zero
one_less (some (suc n)) = some n

module _ (class : ℕ → Bool) (rest : Text → Bool) where
  -- the optional characters, then the rest of the expression
  unfoldable pub match_extra : Option ℕ → Text → Bool
  match_extra extra [] = rest []
  match_extra extra (c ∷ s) =
      let more = match_extra (one_less extra) s in
      if rest (c ∷ s)
      then true
      else (if may_go_on extra then (if class c then more else false) else false)

  -- the required characters
  unfoldable pub match_least : ℕ → Option ℕ → Text → Bool
  unfolding match_extra
  match_least zero extra s = match_extra extra s
  match_least (suc n) extra [] = false
  match_least (suc n) extra (c ∷ s) =
      let more = match_least n extra s in if class c then more else false

-- `/^…$/.test(s)`
unfoldable pub test : List Piece → Text → Bool
unfolding match_least
test [] s = is_empty s
test (q ∷ qs) s = match_least q.class (test qs) q.least q.extra s
