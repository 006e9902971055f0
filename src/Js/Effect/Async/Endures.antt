-- ===== src/Js/Effect/Async/Endures.antt =====
-- Invariants of the state that hold whatever calls take turns.
use namecoin.Prelude.{
  ℕ, zero, suc, ◌≡◌, ◌⊎◌, inl, inr, refl, Bool, true, false, List, [], ◌∷◌, ◌++◌, All,
  if◌then◌else◌,
}
use namecoin.Js.Effect.{Exception, Result, ok, throw, Run, lift}
use namecoin.Js.Effect.Sustains.{Sustains}
use namecoin.Js.Effect.Async.{
  Outcome, returned, waiting, Async, now, then_wait, await, handle_outcome, catch_async,
  finish_outcome, finally_async, continue_outcome, ◌>>=◌, Move, start, resume, go_on, go_on_at,
  move, moves,
}

module _ {S A : Type 0} (Inv : S → Type 0) where
  -- Each turn that is left keeps the invariant.
  abbrev pub Lasts : Outcome S A → Type 0
  Lasts (returned r) = Unit
  Lasts (waiting k n) = (s : S) → Inv s → Inv (n s) × Lasts (k s)

  -- So does each turn of a call.
  pub record Endures (m : Async S A) : Type 0 where
    pub after : {s : S} → Inv s → Inv (m s).1 × Lasts (m s).0

module _ {S A : Type 0} (Inv : S → Type 0) where
  then_wait-Lasts : (o : Outcome S A) → Lasts Inv o → Lasts Inv (then_wait o)
  unfolding then_wait
  then_wait-Lasts (returned r) h = λ s i. (i, tt)
  then_wait-Lasts (waiting k n) h = λ s i. let (j, l) = h s i in (j, then_wait-Lasts (k s) l)

module _ {S A : Type 0} {Inv : S → Type 0} where
  pub Endures-now : (m : Run S A) → Sustains Inv m → Endures Inv (now m)
  unfolding now
  Endures-now m h = record { after = λ i. (h.after i, tt) }

  pub Endures-await : (m : Async S A) → Endures Inv m → Endures Inv (await m)
  unfolding await
  Endures-await m h = record {
    after = λ {s} i. let (j, l) = h.after i in (j, then_wait-Lasts Inv (m s).0 l);
  }

  handled :
      (o : Outcome S A) (s : S) (h : Exception → Async S A)
      → ((e : Exception) → Endures Inv (h e))
      → Inv s
      → Lasts Inv o
      → Inv (handle_outcome (o, s) h).1 × Lasts Inv (handle_outcome (o, s) h).0
  unfolding handle_outcome
  handled (returned (ok a)) s h rest i l = (i, tt)
  handled (returned (throw e)) s h rest i l = (rest e).after i
  handled (waiting k n) s h rest i l =
      (i, λ t j. let (j', l') = l t j in handled (k t) (n t) h rest j' l')

  pub Endures-catch :
      (m : Async S A) (h : Exception → Async S A)
      → Endures Inv m
      → ((e : Exception) → Endures Inv (h e))
      → Endures Inv (catch_async m h)
  unfolding catch_async
  Endures-catch m h first rest = record {
    after = λ {s} i. let (j, l) = first.after i in handled (m s).0 (m s).1 h rest j l;
  }

  finished :
      (o : Outcome S A) (s : S) (f : S → S)
      → ((t : S) → Inv t → Inv (f t))
      → Inv s
      → Lasts Inv o
      → Inv (finish_outcome (o, s) f).1 × Lasts Inv (finish_outcome (o, s) f).0
  unfolding finish_outcome
  finished (returned r) s f last i l = (last s i, tt)
  finished (waiting k n) s f last i l =
      (i, λ t j. let (j', l') = l t j in finished (k t) (n t) f last j' l')

  pub Endures-finally :
      (m : Async S A) (f : S → S)
      → Endures Inv m
      → ((t : S) → Inv t → Inv (f t))
      → Endures Inv (finally_async m f)
  unfolding finally_async
  Endures-finally m f first last = record {
    after = λ {s} i. let (j, l) = first.after i in finished (m s).0 (m s).1 f last j l;
  }

  pub Endures-if :
      {yes_branch no_branch : Async S A} (test : Bool)
      → (test ≡ true → Endures Inv yes_branch)
      → (test ≡ false → Endures Inv no_branch)
      → Endures Inv (if test then yes_branch else no_branch)
  Endures-if true left right = left refl
  Endures-if false left right = right refl

module _ {S A B : Type 0} {Inv : S → Type 0} where
  continued :
      (o : Outcome S A) (s : S) (f : A → Async S B)
      → ((a : A) → Endures Inv (f a))
      → Inv s
      → Lasts Inv o
      → Inv (continue_outcome (o, s) f).1 × Lasts Inv (continue_outcome (o, s) f).0
  unfolding continue_outcome
  continued (returned (ok a)) s f rest i l = (rest a).after i
  continued (returned (throw e)) s f rest i l = (i, tt)
  continued (waiting k n) s f rest i l =
      (i, λ t j. let (j', l') = l t j in continued (k t) (n t) f rest j' l')

  pub Endures-bind :
      (m : Async S A) (f : A → Async S B)
      → Endures Inv m
      → ((a : A) → Endures Inv (f a))
      → Endures Inv (m >>= f)
  unfolding ◌>>=◌
  Endures-bind m f first rest = record {
    after = λ {s} i. let (j, l) = first.after i in continued (m s).0 (m s).1 f rest j l;
  }

  -- What follows a result that was waited for may use that it is no exception.
  pub Endures-lift_bind :
      (r : Result A) (f : A → Async S B)
      → ((a : A) → r ≡ ok a → Endures Inv (f a))
      → Endures Inv (await (now (lift r)) >>= f)
  unfolding ◌>>=◌ await now lift then_wait continue_outcome
  Endures-lift_bind (ok a) f rest = record { after = λ i. (i, λ s j. (rest a refl).after j) }
  Endures-lift_bind (throw e) f rest = record { after = λ i. (i, λ s j. (j, tt)) }

module _ {S A B : Type 0} {Inv : S → Type 0} where
  pub Endures-now_lift_bind :
      (r : Result A) (f : A → Async S B)
      → ((a : A) → r ≡ ok a → Endures Inv (f a))
      → Endures Inv (now (lift r) >>= f)
  unfolding ◌>>=◌ now lift continue_outcome
  Endures-now_lift_bind (ok a) f rest = record { after = λ i. (rest a refl).after i }
  Endures-now_lift_bind (throw e) f rest = record { after = λ i. (i, tt) }

pub ruleset endures_rules = (
  Endures-now_lift_bind, Endures-lift_bind, Endures-bind, Endures-if, Endures-catch, Endures-await,
  Endures-now,
)

-- The event is started by one of the moves.
abbrev pub Starts : {E : Type 0} → List (Move E) → E → Type 0
Starts [] e = ⊥
Starts (start e' ∷ ms) e = (e' ≡ e) ⊎ Starts ms e
Starts (resume i ∷ ms) e = Starts ms e

module _ {S A : Type 0} (Inv : S → Type 0) where
  go_on_at-Lasts :
      (i : ℕ) (os : List (Outcome S A)) (s : S)
      → All (Lasts Inv) os
      → Inv s
      → All (Lasts Inv) (go_on_at i (os, s)).0 × Inv (go_on_at i (os, s)).1
  unfolding go_on_at go_on
  go_on_at-Lasts i [] s all h = (tt, h)
  go_on_at-Lasts zero (returned r ∷ os) s (l, all) h = ((l, all), h)
  go_on_at-Lasts zero (waiting k n ∷ os) s (l, all) h = let (j, l') = l s h in ((l', all), j)
  go_on_at-Lasts (suc i) (o ∷ os) s (l, all) h =
      let (all', j) = go_on_at-Lasts i os s all h in ((l, all'), j)

  All-snoc :
      (os : List (Outcome S A)) (o : Outcome S A)
      → All (Lasts Inv) os
      → Lasts Inv o
      → All (Lasts Inv) (os ++ o ∷ [])
  All-snoc [] o all l = (l, tt)
  All-snoc (p ∷ os) o (k, all) l = (k, All-snoc os o all l)

  -- If every handler that is started keeps the invariant in all its turns, it holds after the moves.
  pub moves-Lasts :
      {E : Type 0} (handler : E → Async S A) (ms : List (Move E)) (os : List (Outcome S A)) (s : S)
      → ((e : E) → Starts ms e → Endures Inv (handler e))
      → All (Lasts Inv) os
      → Inv s
      → Inv (moves handler ms (os, s)).1
  unfolding moves move
  moves-Lasts handler [] os s may all h = h
  moves-Lasts handler (start e ∷ ms) os s may all h =
      let (j, l) = (may e (inl refl)).after h in
      moves-Lasts handler ms _ _ (λ e' c. may e' (inr c)) (All-snoc os _ all l) j
  moves-Lasts handler (resume i ∷ ms) os s may all h =
      let (all', j) = go_on_at-Lasts i os s all h in moves-Lasts handler ms _ _ may all' j
