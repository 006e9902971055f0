-- ===== src/Js/Effect/Sustains.antt =====
-- Invariants of the state, which hold after a computation that returns and after one that throws.
use namecoin.Prelude.{◌≡◌, refl, Bool, true, false, if◌then◌else◌}
use namecoin.Js.Effect.{
  Exception, Result, ok, throw, Run, pure, raise, lift, gets, modify, catch_with, handle, finally,
  continue, ◌>>=◌,
}

pub record Sustains {S A : Type 0} (Inv : S → Type 0) (m : Run S A) : Type 0 where
  pub after : {s : S} → Inv s → Inv (m s).1

module _ {S A B : Type 0} {Inv : S → Type 0} where
  continued :
      (r : Result A) (f : A → Run S B) {s : S}
      → ((a : A) → Sustains Inv (f a))
      → Inv s
      → Inv (continue r f s).1
  continued (ok a) f rest i = (rest a).after i
  continued (throw e) f rest i = i

  pub Sustains-bind :
      (m : Run S A) (f : A → Run S B)
      → Sustains Inv m
      → ((a : A) → Sustains Inv (f a))
      → Sustains Inv (m >>= f)
  unfolding ◌>>=◌
  Sustains-bind m f first rest = record {
    after = λ {s} i. let (r, t) = m s in continued r f rest (first.after i);
  }

  -- What follows a `lift` may use that it did not throw.
  pub Sustains-lift_bind :
      (r : Result A) (f : A → Run S B)
      → ((a : A) → r ≡ ok a → Sustains Inv (f a))
      → Sustains Inv (lift r >>= f)
  unfolding ◌>>=◌ lift
  Sustains-lift_bind (ok a) f rest = record { after = λ i. (rest a refl).after i }
  Sustains-lift_bind (throw e) f rest = record { after = λ i. i }

module _ {S A : Type 0} {Inv : S → Type 0} where
  handled :
      (r : Result A) {s : S} (h : Exception → Run S A)
      → ((e : Exception) → Sustains Inv (h e))
      → Inv s
      → Inv (handle (r, s) h).1
  handled (ok a) h rest i = i
  handled (throw e) h rest i = (rest e).after i

  pub Sustains-catch :
      (m : Run S A) (h : Exception → Run S A)
      → Sustains Inv m
      → ((e : Exception) → Sustains Inv (h e))
      → Sustains Inv (catch_with m h)
  unfolding catch_with
  Sustains-catch m h first rest = record {
    after = λ {s} i. let (r, t) = m s in handled r h rest (first.after i);
  }

  pub Sustains-finally :
      (m : Run S A) (f : S → S)
      → Sustains Inv m
      → ((s : S) → Inv s → Inv (f s))
      → Sustains Inv (finally m f)
  unfolding finally
  Sustains-finally m f first last = record { after = λ {s} i. last (m s).1 (first.after i) }

  -- Code that does not write to the state.
  reads_only : (m : Run S A) → ((s : S) → (m s).1 ≡ s) → Sustains Inv m
  reads_only m same = record { after = λ {s} i. rw same i }

  pub Sustains-gets : (f : S → A) → Sustains Inv (gets f)
  unfolding gets
  Sustains-gets f = reads_only (gets f) (λ s. refl)

  pub Sustains-lift : (r : Result A) → Sustains Inv (lift r)
  unfolding lift
  Sustains-lift r = reads_only (lift r) (λ s. refl)

  pub Sustains-raise : (x : Exception) → Sustains Inv (raise {A = A} x)
  unfolding raise
  Sustains-raise x = reads_only (raise x) (λ s. refl)

  pub Sustains-pure : (a : A) → Sustains Inv (pure a)
  unfolding pure
  Sustains-pure a = reads_only (pure a) (λ s. refl)

  -- Each branch may use its test.
  pub Sustains-if :
      {yes_branch no_branch : Run S A} (test : Bool)
      → (test ≡ true → Sustains Inv yes_branch)
      → (test ≡ false → Sustains Inv no_branch)
      → Sustains Inv (if test then yes_branch else no_branch)
  Sustains-if true left right = left refl
  Sustains-if false left right = right refl

pub Sustains-modify :
    {S : Type 0} {Inv : S → Type 0} (f : S → S)
    → ((s : S) → Inv s → Inv (f s))
    → Sustains Inv (modify f)
unfolding modify
Sustains-modify f h = record { after = λ {s} i. h s i }

pub ruleset sustains_rules = (
  Sustains-bind, Sustains-if, Sustains-catch, Sustains-pure, Sustains-gets, Sustains-lift,
  Sustains-raise,
)
