-- ===== src/Js/Effect.antt =====
-- Code that changes a state and may throw. What was written before a throw stays written.
pub mod Preserves
pub mod Inversion
pub mod Sustains
pub mod Async
use namecoin.Prelude.{◌≡◌, refl, Bool, true, false, if◌then◌else◌, ◌++◌, ◌⊎◌, inl, inr}
use namecoin.Js.Text.{Text, js}
use namecoin.Js.Value.{Value}

-- `error` and `type_error` carry the `message` of an `Error` and of a `TypeError`, `thrown` a text
-- that is thrown itself.
pub data Exception : Type 0 where
  error type_error thrown : Text → Exception

-- `e.message`, of the two kinds that have one
abbrev pub message : Exception → Text
message (error m) = m
message (type_error m) = m
message (thrown m) = m

-- `"" + e`
unfoldable pub describe : Exception → Text
unfolding js
describe (error m) = js "Error: " ++ m
describe (type_error m) = js "TypeError: " ++ m
describe (thrown m) = m

pub data Result {ℓ} (A : Type ℓ) : Type ℓ where
  ok : A → Result A
  throw : Exception → Result A

-- A computation on the state `S`; an `async` function runs to its end, each `await` in turn.
abbrev pub Run : Type 0 → Type 0 → Type 0
Run S A = S → Result A × S

module _ {S A : Type 0} where
  unfoldable pub pure : A → Run S A
  pure a s = (ok a, s)

  unfoldable pub raise : Exception → Run S A
  raise e s = (throw e, s)

  unfoldable pub lift : Result A → Run S A
  lift r s = (r, s)

  unfoldable pub gets : (S → A) → Run S A
  gets f s = (ok (f s), s)

unfoldable pub modify : {S : Type 0} → (S → S) → Run S (Unit {0})
modify f s = (ok tt, f s)

module _ {S A : Type 0} where
  abbrev pub handle : Result A × S → (Exception → Run S A) → Result A × S
  handle (ok a, s) h = (ok a, s)
  handle (throw e, s) h = h e s

  -- `try { m } catch (e) { h(e) }`
  unfoldable pub catch_with : Run S A → (Exception → Run S A) → Run S A
  catch_with m h s = handle (m s) h

  -- `try { m } finally { f }` for an `f` that only writes to the state
  unfoldable pub finally : Run S A → (S → S) → Run S A
  finally m f s = let (r, s') = m s in (r, f s')

module _ {S A B : Type 0} where
  abbrev pub continue : Result A → (A → Run S B) → Run S B
  continue (ok a) f s = f a s
  continue (throw e) f s = (throw e, s)

  infixl 5 ◌>>=◌ ◌>>◌
  unfoldable pub ◌>>=◌ : Run S A → (A → Run S B) → Run S B
  unfolding pure raise lift gets modify
  ◌>>=◌ m f s = let (r, s') = m s in continue r f s'

  abbrev pub ◌>>◌ : Run S A → Run S B → Run S B
  m >> n = m >>= λ _. n

-- A computation on a part of the state.
unfoldable pub within : {S T A : Type 0} → (T → S) → (S → T → T) → Run S A → Run T A
within get put m t = let (r, s) = m (get t) in (r, put s t)

-- A test that throws if it fails.
unfoldable pub check : {S : Type 0} → Bool → Exception → Run S (Unit {0})
check b e s = (if b then ok tt else throw e, s)

pub Result-cases {ℓ} :
    {A : Type ℓ} (r : Result A) → ((a : A) × (r ≡ ok a)) ⊎ ((e : Exception) × (r ≡ throw e))
Result-cases (ok a) = inl (a, refl)
Result-cases (throw e) = inr (e, refl)
