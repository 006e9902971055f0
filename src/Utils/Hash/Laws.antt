-- ===== src/Utils/Hash/Laws.antt =====
-- What the hashes look like, and what a commitment binds.
use namecoin.Prelude.{
  ℕ, suc, ◌*◌, ◌≡◌, ◌≢◌, ◌⊎◌, inl, inr, refl, ap, List, [], ◌∷◌, ◌++◌, arith, length, length-append,
  All, Bool-cases,
}
use namecoin.Js.Text.{Text, js, text_eq, text_eq_sound, text_eq_refl}
use namecoin.Js.Effect.{ok, ◌>>=◌}
use namecoin.Js.Platform.{Platform, IsStandard, Browser, ask}
use namecoin.Utils.Hex.{bytes_to_hex, hex_to_bytes}
use namecoin.Utils.Hex.Laws.{
  length-bytes_to_hex, bytes_to_hex-IsLowerHex, IsLowerHex, hex_to_bytes-bytes_to_hex,
}
use namecoin.Utils.Hash.{
  HashInput, string_input, bytes_input, other_input, sha256, generate_random_salt, generate_hash,
}

-- Text of `n` bytes in lower case hexadecimal digits.
pub record IsHexOf (n : ℕ) (s : Text) : Type 0 where
  pub digits : All IsLowerHex s
  pub size : length s ≡ n * 2

cons_parts : {x y : ℕ} {xs ys : List ℕ} → ◌≡◌ {A = List ℕ} (x ∷ xs) (y ∷ ys) → (x ≡ y) × (xs ≡ ys)
cons_parts e = (cc, cc)

-- Where the ends are of one length, an appended text splits in one way.
append_split : (a b s t : Text) → length s ≡ length t → a ++ s ≡ b ++ t → (a ≡ b) × (s ≡ t)
append_split [] [] s t h e = (refl, e)
append_split [] (y ∷ b) s t h e = absurd (omega (arith, ap length e, length-append b t))
append_split (x ∷ a) [] s t h e = absurd (omega (arith, ap length e, length-append a s))
append_split (x ∷ a) (y ∷ b) s t h e =
    let (heads, tails) = cons_parts e in
    let (same, rest) = append_split a b s t h tails in (cc (heads, same), rest)

append_cancel : (a s t : Text) → a ++ s ≡ a ++ t → s ≡ t
append_cancel [] s t e = e
append_cancel (x ∷ a) s t e = append_cancel a s t (cons_parts e).1

-- The text of a commitment.
abbrev pub committed : Text → Text → Text
committed domain salt = js "DOMAIN_HASH_v1:" ++ domain ++ js ":" ++ salt

module _ (p : Platform) (std : IsStandard p) where
  digest-IsHexOf : (bs : List ℕ) → IsHexOf 32 (bytes_to_hex (p.digest bs))
  digest-IsHexOf bs = record {
    digits = bytes_to_hex-IsLowerHex _ (std.digest_bytes bs);
    size = omega (arith, length-bytes_to_hex _ (std.digest_bytes bs), std.length_digest bs);
  }

  -- Whatever `sha256` returns is 64 hexadecimal digits in lower case.
  pub sha256-IsHexOf : (x : HashInput) (s : Text) → sha256 p x ≡ ok s → IsHexOf 32 s
  unfolding sha256
  sha256-IsHexOf (string_input t) s h =
      let e : bytes_to_hex (p.digest (p.utf8 t)) ≡ s = cc in rw e at (digest-IsHexOf (p.utf8 t))
  sha256-IsHexOf (bytes_input bs) s h =
      let e : bytes_to_hex (p.digest bs) ≡ s = cc in rw e at (digest-IsHexOf bs)
  sha256-IsHexOf (other_input k) s h = cc

  -- `generateRandomSalt` returns 32 hexadecimal digits in lower case, asks the generator once, and
  -- changes neither the storage nor the requests sent.
  generate_random_salt-IsHexOf :
      (b : Browser)
      → (s : Text) × (generate_random_salt p b ≡ (ok s, record b { asked = suc b.asked }))
        × IsHexOf 16 s
  unfolding generate_random_salt ask ◌>>=◌
  generate_random_salt-IsHexOf b =
      let bytes = p.random_values b.asked 16 in
      (
        bytes_to_hex bytes,
        refl,
        record {
          digits = bytes_to_hex-IsLowerHex _ (std.random_bytes b.asked 16);
          size = omega (
            arith,
            length-bytes_to_hex bytes (std.random_bytes b.asked 16),
            std.length_random b.asked 16,
          );
        },
      )

  hash_injective :
      (s t : Text)
      → bytes_to_hex (p.digest (p.utf8 s)) ≡ bytes_to_hex (p.digest (p.utf8 t))
      → p.digest (p.utf8 s) ≡ p.digest (p.utf8 t)
  hash_injective s t e = cc (
    ap hex_to_bytes e,
    hex_to_bytes-bytes_to_hex _ (std.digest_bytes (p.utf8 s)),
    hex_to_bytes-bytes_to_hex _ (std.digest_bytes (p.utf8 t)),
  )

  -- Two commitments whose salts have one length and whose hashes agree are to the same domain with the
  -- same salt, or the two texts `DOMAIN_HASH_v1:domain:salt` differ and have one SHA-256 digest.
  pub generate_hash_binding :
      (domain salt domain' salt' : Text) (h : Text)
      → length salt ≡ length salt'
      → generate_hash p domain salt ≡ ok h
      → generate_hash p domain' salt' ≡ ok h
      → ((domain ≡ domain') × (salt ≡ salt'))
        ⊎ ((committed domain salt ≢ committed domain' salt')
            × (p.digest (p.utf8 (committed domain salt))
                ≡ p.digest (p.utf8 (committed domain' salt'))))
  unfolding generate_hash
  generate_hash_binding domain salt domain' salt' h len e e' =
      let tag = js "DOMAIN_HASH_v1:" in
      let s = committed domain salt in
      let t = committed domain' salt' in
      let same : p.digest (p.utf8 s) ≡ p.digest (p.utf8 t) = hash_injective s t cc in
      elim (Bool-cases (text_eq s t)) [
        | inl eq ↦
            let (front, salts) = append_split _ _ salt salt' len (text_eq_sound s t eq) in
            let (front', _) = append_split _ _ (js ":") (js ":") refl front in
            inl (append_cancel tag domain domain' front', salts)
        | inr ne ↦ inr ((λ (q : s ≡ t). cc (ap (text_eq s) q, text_eq_refl s)), same)
      ]
