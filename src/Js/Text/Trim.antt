-- ===== src/Js/Text/Trim.antt =====
-- `trim` and `includes` of a text.
use namecoin.Prelude.{ℕ, Bool, true, false, List, [], ◌∷◌, ◌==◌, is_empty, if◌then◌else◌}
use namecoin.Js.Text.{Text, is_space}

-- without the white space in front
unfoldable pub drop_spaces : Text → Text
unfolding is_space
drop_spaces [] = []
drop_spaces (c ∷ s) = let rest = drop_spaces s in if is_space c then rest else c ∷ s

-- without the white space behind
unfoldable pub snoc_trimmed : ℕ → Text → Text
unfolding is_space
snoc_trimmed c [] = if is_space c then [] else c ∷ []
snoc_trimmed c (d ∷ s) = c ∷ d ∷ s

unfoldable pub drop_end_spaces : Text → Text
unfolding snoc_trimmed
drop_end_spaces [] = []
drop_end_spaces (c ∷ s) = snoc_trimmed c (drop_end_spaces s)

-- `s.trim()`
unfoldable pub trim : Text → Text
unfolding drop_spaces drop_end_spaces
trim s = drop_end_spaces (drop_spaces s)

unfoldable pub starts_with : Text → Text → Bool
starts_with s [] = true
starts_with [] (d ∷ t) = false
starts_with (c ∷ s) (d ∷ t) = if c == d then starts_with s t else false

-- `s.includes(t)`
unfoldable pub includes : Text → Text → Bool
unfolding starts_with
includes [] t = is_empty t
includes (c ∷ s) t = if starts_with (c ∷ s) t then true else includes s t

-- `s.includes(t1) || s.includes(t2) || …`
unfoldable pub includes_any : Text → List Text → Bool
unfolding includes
includes_any s [] = false
includes_any s (t ∷ ts) = if includes s t then true else includes_any s ts
