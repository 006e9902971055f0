-- ===== src/Utils/Regex/Spec.antt =====
-- The matcher decides the language of the expression.
use namecoin.Prelude.{
  ℕ, zero, suc, ◌≤◌, ◌≡◌, refl, ap, Bool, true, Option, none, some, List, [], ◌∷◌, ◌++◌, All,
  length, arith, inl, inr, Bool-cases, ◌↔◌,
}
use namecoin.Js.Text.{Text}
use namecoin.Utils.Regex.{Piece, may_go_on, one_less, match_extra, match_least, test}

abbrev pub InClass : (ℕ → Bool) → Text → Type 0
InClass class s = All (λ c. class c ≡ true) s

-- At most so many.
abbrev pub Bounded : Option ℕ → ℕ → Type 0
Bounded none n = Unit
Bounded (some m) n = n ≤ m

-- `s` is a text in the class, no longer than `extra` allows, then a text that `rest` accepts.
pub record Optional (class : ℕ → Bool) (rest : Text → Bool) (extra : Option ℕ) (s : Text)
    : Type 0 where
  pub front : Text
  pub others : Text
  pub whole : front ++ others ≡ s
  pub in_class : InClass class front
  pub bounded : Bounded extra (length front)
  pub accepted : rest others ≡ true

-- The same behind a text in the class of just `least` characters.
pub record Splits (class : ℕ → Bool) (rest : Text → Bool) (least : ℕ) (extra : Option ℕ) (s : Text)
    : Type 0 where
  pub front : Text
  pub others : Text
  pub whole : front ++ others ≡ s
  pub in_class : InClass class front
  pub counted : length front ≡ least
  pub optional : Optional class rest extra others

Bounded-suc :
    (extra : Option ℕ) (n : ℕ)
    → may_go_on extra ≡ true
    → Bounded (one_less extra) n
    → Bounded extra (suc n)
Bounded-suc none n h b = tt
Bounded-suc (some zero) n h b = cc
Bounded-suc (some (suc m)) n h b = omega arith

Bounded-pred :
    (extra : Option ℕ) (n : ℕ)
    → Bounded extra (suc n)
    → (may_go_on extra ≡ true) × Bounded (one_less extra) n
Bounded-pred none n b = (refl, tt)
Bounded-pred (some zero) n b = absurd (omega arith)
Bounded-pred (some (suc m)) n b = (refl, omega arith)

Bounded-zero : (extra : Option ℕ) → Bounded extra 0
Bounded-zero none = tt
Bounded-zero (some m) = omega arith

module _ (class : ℕ → Bool) (rest : Text → Bool) where
  match_extra_sound :
      (extra : Option ℕ) (s : Text)
      → match_extra class rest extra s ≡ true
      → Optional class rest extra s
  unfolding match_extra
  match_extra_sound extra [] h = record {
    front = [];
    others = [];
    whole = refl;
    in_class = tt;
    bounded = Bounded-zero extra;
    accepted = h;
  }
  match_extra_sound extra (c ∷ s) h = elim (Bool-cases (rest (c ∷ s))) [
    | inl now ↦ record {
      front = [];
      others = c ∷ s;
      whole = refl;
      in_class = tt;
      bounded = Bounded-zero extra;
      accepted = now;
    }
    | inr later ↦
        let on : may_go_on extra ≡ true = ground arith in
        let fits : class c ≡ true = ground arith in
        let r : Optional class rest (one_less extra) s =
          match_extra_sound (one_less extra) s (ground arith) in
        record {
          front = c ∷ r.front;
          others = r.others;
          whole = ap (λ t. c ∷ t) r.whole;
          in_class = (fits, r.in_class);
          bounded = Bounded-suc extra (length r.front) on r.bounded;
          accepted = r.accepted;
        }
  ]

  match_extra_complete :
      (extra : Option ℕ) (front others : Text)
      → InClass class front
      → Bounded extra (length front)
      → rest others ≡ true
      → match_extra class rest extra (front ++ others) ≡ true
  unfolding match_extra
  match_extra_complete extra [] [] k b h = h
  match_extra_complete extra [] (x ∷ others) k b h = rw h
  match_extra_complete extra (c ∷ front) others (kc, k) b h =
      let (on, less) = Bounded-pred extra (length front) b in
      let ih = match_extra_complete (one_less extra) front others k less h in ground (arith, ih)

  pub match_least_sound :
      (least : ℕ) (extra : Option ℕ) (s : Text)
      → match_least class rest least extra s ≡ true
      → Splits class rest least extra s
  unfolding match_least
  match_least_sound zero extra s h = record {
    front = [];
    others = s;
    whole = refl;
    in_class = tt;
    counted = refl;
    optional = match_extra_sound extra s h;
  }
  match_least_sound (suc n) extra [] h = cc
  match_least_sound (suc n) extra (c ∷ s) h =
      let fits : class c ≡ true = ground arith in
      let r : Splits class rest n extra s = match_least_sound n extra s (ground arith) in
      record {
        front = c ∷ r.front;
        others = r.others;
        whole = ap (λ t. c ∷ t) r.whole;
        in_class = (fits, r.in_class);
        counted = ap suc r.counted;
        optional = r.optional;
      }

  match_least-front :
      (least : ℕ) (extra : Option ℕ) (front others : Text)
      → InClass class front
      → length front ≡ least
      → match_extra class rest extra others ≡ true
      → match_least class rest least extra (front ++ others) ≡ true
  unfolding match_least
  match_least-front zero extra [] others k e h = h
  match_least-front zero extra (c ∷ front) others k e h = absurd (omega arith)
  match_least-front (suc n) extra [] others k e h = absurd (omega arith)
  match_least-front (suc n) extra (c ∷ front) others (kc, k) e h =
      rw kc (match_least-front n extra front others k (omega arith) h)

  pub match_least_complete :
      (least : ℕ) (extra : Option ℕ) (s : Text)
      → Splits class rest least extra s
      → match_least class rest least extra s ≡ true
  match_least_complete least extra s r =
      let o = r.optional in
      let tail : match_extra class rest extra r.others ≡ true =
        rw o.whole at
          (match_extra_complete extra o.front o.others o.in_class o.bounded o.accepted) in
      rw r.whole at (match_least-front least extra r.front r.others r.in_class r.counted tail)

-- The matcher accepts just the texts that split as the expression says.
pub test_iff :
    (q : Piece) (qs : List Piece) (s : Text)
    → (test (q ∷ qs) s ≡ true) ↔ Splits q.class (test qs) q.least q.extra s
unfolding test
test_iff q qs s = (
  match_least_sound q.class (test qs) q.least q.extra s,
  match_least_complete q.class (test qs) q.least q.extra s,
)
