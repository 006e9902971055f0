-- ===== src/Utils/Regex/Pieces.antt =====
-- Pieces of an expression that stand once, may be missing, or stand at its end.
use namecoin.Prelude.{
  ℕ, zero, suc, ◌≤◌, ◌≡◌, refl, ap, Bool, true, Option, none, some, [], ◌∷◌, ◌++◌, append-nil,
  length, length-append, arith,
}
use namecoin.Js.Text.{Text}
use namecoin.Utils.Regex.{test}
use namecoin.Utils.Regex.Spec.{InClass, Optional, Splits}

module _ {class : ℕ → Bool} {rest : Text → Bool} {s : Text} where
  -- A piece that stands once.
  pub one_char :
      Splits class rest 1 (some 0) s
      → (c : ℕ) × (t : Text) × (class c ≡ true) × (c ∷ t ≡ s) × (rest t ≡ true)
  one_char r =
      go r.front r.optional.front r.in_class r.counted r.optional.bounded r.whole r.optional.whole
    where
      go :
          (f o : Text)
          → InClass class f
          → length f ≡ 1
          → length o ≤ 0
          → f ++ r.others ≡ s
          → o ++ r.optional.others ≡ r.others
          → (c : ℕ) × (t : Text) × (class c ≡ true) × (c ∷ t ≡ s) × (rest t ≡ true)
      go [] o k e b w v = absurd (omega arith)
      go (c ∷ d ∷ f) o k e b w v = absurd (omega arith)
      go (c ∷ []) (x ∷ o) k e b w v = absurd (omega arith)
      go (c ∷ []) [] k e b w v = (c, r.others, k.0, w, rw v at r.optional.accepted)

  -- A piece that need not stand.
  pub no_least : {extra : Option ℕ} → Splits class rest 0 extra s → Optional class rest extra s
  no_least {extra} r = go r.front r.counted r.whole
    where
      go : (f : Text) → length f ≡ 0 → f ++ r.others ≡ s → Optional class rest extra s
      go [] e w = rw w at r.optional
      go (c ∷ f) e w = absurd (omega arith)

  pub one_char_back :
      (c : ℕ) (t : Text)
      → class c ≡ true
      → c ∷ t ≡ s
      → rest t ≡ true
      → Splits class rest 1 (some 0) s
  one_char_back c t k w h = record {
    front = c ∷ [];
    others = t;
    whole = w;
    in_class = (k, tt);
    counted = refl;
    optional = record {
      front = [];
      others = t;
      whole = refl;
      in_class = tt;
      bounded = omega arith;
      accepted = h;
    };
  }

  pub no_least_back : {extra : Option ℕ} → Optional class rest extra s → Splits class rest 0 extra s
  no_least_back o = record {
    front = [];
    others = s;
    whole = refl;
    in_class = tt;
    counted = refl;
    optional = o;
  }

pub test-nil : (s : Text) → test [] s ≡ true → s ≡ []
unfolding test
test-nil [] h = refl
test-nil (c ∷ s) h = cc

pub InClass-append :
    (class : ℕ → Bool) (s t : Text) → InClass class s → InClass class t → InClass class (s ++ t)
InClass-append class [] t h k = k
InClass-append class (c ∷ s) t (hc, h) k = (hc, InClass-append class s t h k)

-- A piece at the end that has no upper count.
pub at_least :
    (class : ℕ → Bool) (least : ℕ) (s : Text)
    → Splits class (test []) least none s
    → InClass class s × (least ≤ length s)
at_least class least s r =
    let o = r.optional in
    let last : r.others ≡ o.front =
      cc (o.whole, test-nil o.others o.accepted, append-nil o.front) in
    let all : InClass class (r.front ++ r.others) =
      rw last (InClass-append class r.front o.front r.in_class o.in_class) in
    (rw r.whole at all, omega (arith, r.counted, length-append r.front r.others, ap length r.whole))

pub at_least_back :
    (class : ℕ → Bool) (least : ℕ) (s : Text)
    → InClass class s
    → least ≤ length s
    → Splits class (test []) least none s
unfolding test
at_least_back class zero s k h = no_least_back (record {
  front = s;
  others = [];
  whole = append-nil s;
  in_class = k;
  bounded = tt;
  accepted = refl;
})
at_least_back class (suc n) [] k h = absurd (omega arith)
at_least_back class (suc n) (c ∷ s) (kc, k) h =
    let r = at_least_back class n s k (omega arith) in
    record {
      front = c ∷ r.front;
      others = r.others;
      whole = ap (λ t. c ∷ t) r.whole;
      in_class = (kc, r.in_class);
      counted = ap suc r.counted;
      optional = r.optional;
    }
