-- ===== src/Utils/Validation/Laws.antt =====
-- What the validators accept.
use namecoin.Prelude.{
  ℕ, ◌≤◌, ◌≡◌, refl, ap, ◌↔◌, true, none, [], ◌∷◌, ◌++◌, append_assoc, length, length-append, All,
  arith, leb,
}
use namecoin.Js.Text.{Text}
use namecoin.Js.Value.{bool, str, truthy}
use namecoin.Utils.Regex.{Piece, test}
use namecoin.Utils.Regex.Spec.{InClass, test_iff}
use namecoin.Utils.Regex.Pieces.{
  one_char, no_least, one_char_back, no_least_back, InClass-append, at_least, at_least_back,
}
use namecoin.Utils.Hex.Laws.{IsLowerHex}
use namecoin.Utils.Hash.Laws.{IsHexOf}
use namecoin.Utils.Validation.{
  is_letter, is_alphanumeric, is_label_char, is_hex_char, domain_regex, is_valid_domain,
  is_valid_hex, is_valid_wallet_id,
}

-- A name of two labels: a first character, at most 61 label characters, at most one more letter or
-- digit, a dot, and at least two letters.
pub record IsDomain (d : Text) : Type 0 where
  pub first : ℕ
  pub middle : Text
  pub last : Text
  pub tld : Text
  pub whole : first ∷ (middle ++ (last ++ (46 ∷ tld))) ≡ d
  pub first_class : is_alphanumeric first ≡ true
  pub middle_class : InClass is_label_char middle
  pub last_class : InClass is_alphanumeric last
  pub tld_class : InClass is_letter tld
  pub middle_size : length middle ≤ 61
  pub last_size : length last ≤ 1
  pub tld_size : 2 ≤ length tld

IsDomain-of_test : (d : Text) → test domain_regex d ≡ true → IsDomain d
IsDomain-of_test d h =
    let (c, t, kc, wc, h1) = one_char ((test_iff _ _ d).0 h) in
    let m = no_least ((test_iff _ _ t).0 h1) in
    let l = no_least ((test_iff _ _ m.others).0 m.accepted) in
    let (dot, u, kdot, wdot, h2) = one_char ((test_iff _ _ l.others).0 l.accepted) in
    let (ku, long) = at_least is_letter 2 u ((test_iff _ _ u).0 h2) in
    let e : dot ≡ 46 = ground arith in
    record {
      first = c;
      middle = m.front;
      last = l.front;
      tld = u;
      whole = cc (wc, m.whole, l.whole, wdot, e);
      first_class = kc;
      middle_class = m.in_class;
      last_class = l.in_class;
      tld_class = ku;
      middle_size = m.bounded;
      last_size = l.bounded;
      tld_size = long;
    }

test-of_IsDomain : (d : Text) → IsDomain d → test domain_regex d ≡ true
test-of_IsDomain d r = (test_iff _ _ d).1 (
    one_char_back r.first (r.middle ++ (r.last ++ (46 ∷ r.tld))) r.first_class r.whole (
      (test_iff _ _ _).1 (
        no_least_back (record {
          front = r.middle;
          others = r.last ++ (46 ∷ r.tld);
          whole = refl;
          in_class = r.middle_class;
          bounded = r.middle_size;
          accepted = (test_iff _ _ _).1 (
              no_least_back (record {
                front = r.last;
                others = 46 ∷ r.tld;
                whole = refl;
                in_class = r.last_class;
                bounded = r.last_size;
                accepted = (test_iff _ _ _).1 (
                    one_char_back 46 r.tld refl refl (
                      (test_iff _ _ r.tld).1
                        (at_least_back is_letter 2 r.tld r.tld_class r.tld_size)));
              }));
        }))))

-- `isValidDomain` accepts a text exactly when it is a name of two labels as `IsDomain` says.
pub is_valid_domain_iff : (d : Text) → (is_valid_domain d ≡ true) ↔ IsDomain d
unfolding is_valid_domain
is_valid_domain_iff d = (IsDomain-of_test d, test-of_IsDomain d)

alphanumeric_label : (c : ℕ) → is_alphanumeric c ≡ true → is_label_char c ≡ true
unfolding is_label_char
alphanumeric_label c h = ground arith

-- A label that ends in a hyphen is accepted, up to 62 characters long.
pub is_valid_domain-trailing_hyphen :
    (first : ℕ) (middle tld : Text)
    → is_alphanumeric first ≡ true
    → InClass is_label_char middle
    → InClass is_letter tld
    → length middle ≤ 60
    → 2 ≤ length tld
    → is_valid_domain (first ∷ (middle ++ (45 ∷ 46 ∷ tld))) ≡ true
unfolding is_label_char
is_valid_domain-trailing_hyphen first middle tld kf km kt hm ht =
    (is_valid_domain_iff _).1 (record {
      first = first;
      middle = middle ++ 45 ∷ [];
      last = [];
      tld = tld;
      whole = ap (λ t. first ∷ t) (append_assoc middle (45 ∷ []) (46 ∷ tld));
      first_class = kf;
      middle_class = InClass-append is_label_char middle (45 ∷ []) km (refl, tt);
      last_class = tt;
      tld_class = kt;
      middle_size = omega (arith, length-append middle (45 ∷ []));
      last_size = omega arith;
      tld_size = ht;
    })

abbrev hex_piece : Piece
hex_piece = record { class = is_hex_char; least = 1; extra = none }

-- `isValidHex` accepts a text exactly when it has a character and each is a hexadecimal digit.
is_valid_hex_iff : (s : Text) → (is_valid_hex s ≡ true) ↔ (InClass is_hex_char s × (1 ≤ length s))
unfolding is_valid_hex
is_valid_hex_iff s = (
  λ h. at_least is_hex_char 1 s ((test_iff hex_piece [] s).0 h),
  λ h. (test_iff hex_piece [] s).1 (at_least_back is_hex_char 1 s h.0 h.1),
)

lower_hex_char : (c : ℕ) → IsLowerHex c → is_hex_char c ≡ true
unfolding is_hex_char
lower_hex_char c h = ground arith

lower_hex_class : (s : Text) → All IsLowerHex s → InClass is_hex_char s
lower_hex_class [] h = tt
lower_hex_class (c ∷ s) (hc, h) = (lower_hex_char c hc, lower_hex_class s h)

-- Hexadecimal text of `n` bytes passes `isValidWalletID` exactly from 16 bytes on.
pub is_valid_wallet_id-IsHexOf :
    (n : ℕ) (s : Text) → 1 ≤ n → IsHexOf n s → is_valid_wallet_id (str s) ≡ bool (leb 16 n)
unfolding is_valid_wallet_id truthy
is_valid_wallet_id-IsHexOf n [] h r = absurd (omega (arith, r.size))
is_valid_wallet_id-IsHexOf n (c ∷ s) h r =
    let good : is_valid_hex (c ∷ s) ≡ true =
      (is_valid_hex_iff (c ∷ s)).1 (lower_hex_class (c ∷ s) r.digits, omega arith) in
    rw good (ap bool (ground (arith, r.size)))
