-- ===== src/Js/Effect/Async.antt =====
-- An `async` function that gives way to others where it awaits.
pub mod Endures
use namecoin.Prelude.{
  ℕ, zero, suc, ◌≡◌, refl, Bool, true, false, List, [], ◌∷◌, ◌++◌, if◌then◌else◌,
}
use namecoin.Js.Effect.{Exception, Result, ok, throw, Run}

-- How far a call has come: it has its result, or it waits, and goes on from the state of that time, which
-- it changes up to where it waits again.
pub data Outcome (S A : Type 0) : Type 0 where
  returned : Result A → Outcome S A
  waiting : (S → Outcome S A) → (S → S) → Outcome S A

-- The code up to the first wait.
abbrev pub Async : Type 0 → Type 0 → Type 0
Async S A = S → Outcome S A × S

module _ {S A : Type 0} where
  -- Code that does not wait.
  unfoldable pub now : Run S A → Async S A
  now m s = let (r, t) = m s in (returned r, t)

  -- It goes on after all else that is ready.
  unfoldable pub then_wait : Outcome S A → Outcome S A
  then_wait (returned r) = waiting (λ s. returned r) (λ s. s)
  then_wait (waiting k n) = waiting (λ s. then_wait (k s)) n

  -- `await m`
  unfoldable pub await : Async S A → Async S A
  unfolding then_wait
  await m s = let (o, t) = m s in (then_wait o, t)

  -- The handler runs in the turn in which the exception is thrown.
  unfoldable pub handle_outcome : Outcome S A × S → (Exception → Async S A) → Outcome S A × S
  handle_outcome (returned (ok a), s) h = (returned (ok a), s)
  handle_outcome (returned (throw e), s) h = h e s
  handle_outcome (waiting k n, s) h =
      (waiting (λ t. (handle_outcome (k t, n t) h).0) (λ t. (handle_outcome (k t, n t) h).1), s)

  unfoldable pub catch_async : Async S A → (Exception → Async S A) → Async S A
  unfolding handle_outcome
  catch_async m h s = handle_outcome (m s) h

  -- The last turn ends with `f`.
  unfoldable pub finish_outcome : Outcome S A × S → (S → S) → Outcome S A × S
  finish_outcome (returned r, s) f = (returned r, f s)
  finish_outcome (waiting k n, s) f =
      (waiting (λ t. (finish_outcome (k t, n t) f).0) (λ t. (finish_outcome (k t, n t) f).1), s)

  unfoldable pub finally_async : Async S A → (S → S) → Async S A
  unfolding finish_outcome
  finally_async m f s = finish_outcome (m s) f

module _ {S A B : Type 0} where
  unfoldable pub continue_outcome : Outcome S A × S → (A → Async S B) → Outcome S B × S
  continue_outcome (returned (ok a), s) f = f a s
  continue_outcome (returned (throw e), s) f = (returned (throw e), s)
  continue_outcome (waiting k n, s) f =
      (waiting (λ t. (continue_outcome (k t, n t) f).0) (λ t. (continue_outcome (k t, n t) f).1), s)

  infixl 5 ◌>>=◌ ◌>>◌
  unfoldable pub ◌>>=◌ : Async S A → (A → Async S B) → Async S B
  unfolding continue_outcome
  ◌>>=◌ m f s = continue_outcome (m s) f

  abbrev pub ◌>>◌ : Async S A → Async S B → Async S B
  m >> n = m >>= λ _. n

-- The event loop: it starts the handler of an event, or lets a waiting call go on.
pub data Move (E : Type 0) : Type 0 where
  start : E → Move E
  resume : ℕ → Move E

module _ {S A : Type 0} where
  unfoldable pub go_on : Outcome S A × S → Outcome S A × S
  go_on (returned r, s) = (returned r, s)
  go_on (waiting k n, s) = (k s, n s)

  unfoldable pub go_on_at : ℕ → List (Outcome S A) × S → List (Outcome S A) × S
  unfolding go_on
  go_on_at i ([], s) = ([], s)
  go_on_at zero (o ∷ os, s) = let (o', t) = go_on (o, s) in (o' ∷ os, t)
  go_on_at (suc i) (o ∷ os, s) = let (os', t) = go_on_at i (os, s) in (o ∷ os', t)

module _ {S A E : Type 0} (handler : E → Async S A) where
  unfoldable pub move : Move E → List (Outcome S A) × S → List (Outcome S A) × S
  unfolding go_on_at
  move (start e) (os, s) = let (o, t) = handler e s in (os ++ o ∷ [], t)
  move (resume i) (os, s) = go_on_at i (os, s)

  unfoldable pub moves : List (Move E) → List (Outcome S A) × S → List (Outcome S A) × S
  unfolding move
  moves [] c = c
  moves (m ∷ ms) c = moves ms (move m c)
