-- ===== src/Js/Effect/Inversion.antt =====
-- What a computation that returned went through.
use namecoin.Prelude.{◌≡◌, refl, Bool, true, false}
use namecoin.Js.Effect.{Exception, Result, ok, throw, Run, lift, check, continue, ◌>>=◌}

-- The result of a step that returned, in the middle of a computation.
pub >>=-eq-ok :
    {S A B : Type 0} (m : Run S A) (f : A → Run S B) (s : S) {b : B} {t : S}
    → (m >>= f) s ≡ (ok b, t)
    → (a : A) × (u : S) × (m s ≡ (ok a, u)) × (f a u ≡ (ok b, t))
unfolding ◌>>=◌
>>=-eq-ok {A = A} {B = B} m f s {b} {t} h = go (m s).0 (m s).1 refl h
  where
    go :
        (r : Result A) (u : _)
        → (m s) ≡ (r, u)
        → continue r f u ≡ (ok b, t)
        → (a : A) × (u : _) × (m s ≡ (ok a, u)) × (f a u ≡ (ok b, t))
    go (ok a) u e k = (a, u, e, k)
    go (throw x) u e k = absurd (cc)

pub lift-eq-ok :
    {S A : Type 0} (r : Result A) {s t : S} {a : A} → lift r s ≡ (ok a, t) → (r ≡ ok a) × (s ≡ t)
unfolding lift
lift-eq-ok r h = (cc h, cc h)

pub check-eq-ok :
    {S : Type 0} (b : Bool) (e : Exception) {s t : S} {u : Unit {0}}
    → check b e s ≡ (ok u, t)
    → (b ≡ true) × (s ≡ t)
unfolding check
check-eq-ok true e h = (refl, cc h)
check-eq-ok false e h = absurd (cc)

module _ {S A B : Type 0} (f : A → Run S B) (s : S) where
  pub lift_ok-bind : (a : A) → (lift (ok a) >>= f) s ≡ f a s
  unfolding ◌>>=◌
  lift_ok-bind a = refl

  pub lift_throw-bind : (e : Exception) → (lift (throw e) >>= f) s ≡ (throw e, s)
  unfolding ◌>>=◌
  lift_throw-bind e = refl
