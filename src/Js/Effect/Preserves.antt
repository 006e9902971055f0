-- ===== src/Js/Effect/Preserves.antt =====
-- What a computation leaves alone, whether it returns or throws.
use namecoin.Prelude.{◌≡◌, refl, ◌∙◌, Bool, true, false, if◌then◌else◌}
use namecoin.Js.Effect.{
  Exception, Result, ok, throw, Run, pure, raise, lift, gets, catch_with, handle, finally, continue,
  ◌>>=◌,
}

-- The observation `view` of the state is the same before and after.
pub record Preserves {S A X : Type 0} (view : S → X) (m : Run S A) : Type 0 where
  pub at : (s : S) → view (m s).1 ≡ view s

module _ {S A X : Type 0} {view : S → X} where
  pub Preserves-pure : (a : A) → Preserves view (pure a)
  unfolding pure
  Preserves-pure a = record { at = λ s. refl }

  pub Preserves-raise : (e : Exception) → Preserves view (raise {A = A} e)
  unfolding raise
  Preserves-raise e = record { at = λ s. refl }

  pub Preserves-lift : (r : Result A) → Preserves view (lift r)
  unfolding lift
  Preserves-lift r = record { at = λ s. refl }

  pub Preserves-gets : (f : S → A) → Preserves view (gets f)
  unfolding gets
  Preserves-gets f = record { at = λ s. refl }

  pub Preserves-if :
      (b : Bool) (m n : Run S A)
      → Preserves view m
      → Preserves view n
      → Preserves view (if b then m else n)
  Preserves-if true m n h k = h
  Preserves-if false m n h k = k

  handle-view :
      (r : Result A) (s : S) (h : Exception → Run S A)
      → ((e : Exception) → Preserves view (h e))
      → view (handle (r, s) h).1 ≡ view s
  handle-view (ok a) s h k = refl
  handle-view (throw e) s h k = (k e).at s

  pub Preserves-catch :
      (m : Run S A) (h : Exception → Run S A)
      → Preserves view m
      → ((e : Exception) → Preserves view (h e))
      → Preserves view (catch_with m h)
  unfolding catch_with
  Preserves-catch m h km kh = record {
    at = λ s. let (r, s') = m s in handle-view r s' h kh ∙ km.at s;
  }

  pub Preserves-finally :
      (m : Run S A) (f : S → S)
      → Preserves view m
      → ((s : S) → view (f s) ≡ view s)
      → Preserves view (finally m f)
  unfolding finally
  Preserves-finally m f km kf = record { at = λ s. kf (m s).1 ∙ km.at s }

module _ {S A B X : Type 0} {view : S → X} where
  continue-view :
      (r : Result A) (f : A → Run S B) (s : S)
      → ((a : A) → Preserves view (f a))
      → view (continue r f s).1 ≡ view s
  continue-view (ok a) f s k = (k a).at s
  continue-view (throw e) f s k = refl

  pub Preserves-bind :
      (m : Run S A) (f : A → Run S B)
      → Preserves view m
      → ((a : A) → Preserves view (f a))
      → Preserves view (m >>= f)
  unfolding ◌>>=◌
  Preserves-bind m f km kf = record {
    at = λ s. let (r, s') = m s in continue-view r f s' kf ∙ km.at s;
  }

pub ruleset preserves_rules = (
  Preserves-pure, Preserves-raise, Preserves-lift, Preserves-gets, Preserves-if, Preserves-catch,
  Preserves-bind, Preserves-finally,
)
