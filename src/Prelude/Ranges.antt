-- ===== src/Prelude/Ranges.antt =====
-- Facts about all small numbers, found by trying them.
use Prim.Native.Nat.{ℕ, zero, suc, ◌<◌}
use mathlib.Core.Path.{◌≡◌}
use mathlib.Core.Logic.{inl, inr}
use mathlib.Core.Bool.{Bool, true, false}
use native.Mathlib.Omega.{arith}
use namecoin.Prelude.Tests.{if◌then◌else◌, Bool-cases, ◌==◌, ==_iff}

-- The test holds of each number under the limit, the highest tried first.
unfoldable pub holds_under : (ℕ → Bool) → ℕ → Bool
holds_under test zero = true
holds_under test (suc limit) =
    let below = holds_under test limit in if test limit then below else false

pub holds_under-apply :
    (test : ℕ → Bool) (limit k : ℕ) → k < limit → holds_under test limit ≡ true → test k ≡ true
unfolding holds_under
holds_under-apply test zero k small all = absurd (omega arith)
holds_under-apply test (suc limit) k small all = elim (Bool-cases (test limit)) [
  | inl top ↦ elim (Bool-cases (k == limit)) [
    | inl e ↦ rw ((==_iff k limit).0 e) top
    | inr e ↦ holds_under-apply test limit k (ground arith) (rw top at all)
  ]
  | inr bad ↦ absurd (ground arith)
]
