-- ===== src/Js/Platform.antt =====
-- What the program calls and does not implement: the browser, the `canonicalize` and `tweetnacl`
-- packages, and the node behind the proxy. All of it is a parameter of the model.
use namecoin.Prelude.{
  refl, ◌⊎◌, inl, inr, ℕ, suc, ◌<◌, ◌≡◌, Bool, true, Option, List, ◌∷◌, length, leb, ◌&&◌, All,
}
use namecoin.Js.Text.{Text, js}
use namecoin.Js.Value.{Value, Number, arr, nil, IsPlain}
use namecoin.Js.Effect.{Result, Exception, Run}

pub data Method : Type 0 where
  get post : Method

-- `fetch(url, { method, headers, body })`
pub record Request : Type 0 where
  pub method : Method
  pub url : Text
  pub content_type : Option Text
  pub body : Option Text

pub record Response : Type 0 where
  pub status : ℕ
  pub status_text : Text
  pub body : Text

-- The promise of `fetch`: a response, or a rejection where the network failed.
pub data Fetched : Type 0 where
  responded : Response → Fetched
  rejected : Exception → Fetched

pub Fetched-cases :
    (f : Fetched) → ((r : Response) × (f ≡ responded r)) ⊎ ((e : Exception) × (f ≡ rejected e))
Fetched-cases (responded r) = inl (r, refl)
Fetched-cases (rejected e) = inr (e, refl)

abbrev pub Entries : Type 0
Entries = List (Text × Text)

pub record KeyPair : Type 0 where
  pub secret_key : List ℕ
  pub public_key : List ℕ

-- What the environment answers may depend on the time: `ℕ` counts the earlier questions.
pub record Platform : Type 0 where
  -- `TextEncoder.encode`, `crypto.subtle.digest('SHA-256', …)`, `crypto.getRandomValues`
  pub utf8 : Text → List ℕ
  pub digest : List ℕ → List ℕ
  pub random_values : ℕ → ℕ → List ℕ
  -- `JSON.stringify(v)`, where `undefined` is written as that word, `JSON.stringify(v, null, 2)` and
  -- `JSON.parse`
  pub stringify : Value → Result Text
  pub pretty : Value → Result Text
  pub parse : Text → Result Value
  -- `canonicalize`, and `nacl.sign.keyPair`, `nacl.sign.detached(message, key)`,
  -- `nacl.sign.detached.verify(message, signature, key)`
  pub canonicalize : Value → Result Value
  pub key_pair : ℕ → KeyPair
  pub sign : List ℕ → List ℕ → Result (List ℕ)
  pub verify : List ℕ → List ℕ → List ℕ → Result Bool
  -- `Date.now()` and `new Date().toISOString()`
  pub now : ℕ → ℕ
  pub iso_date : ℕ → Text
  -- the network, the quota of `localStorage`, and `import.meta.env.VITE_BACKEND_URL`
  pub answer : ℕ → Request → Fetched
  pub fits : Entries → Text → Text → Bool
  pub backend_url : Option Text
  -- `Number(v)` and `String(v)` of values that are no number and no text
  pub to_number : Value → Number
  pub to_text : Value → Text
  -- `s.toLowerCase()`
  pub lower : Text → Text
  -- the engine's message for a property of `null` or `undefined`, and for the quota
  pub no_property : Text
  pub quota_exceeded : Text
  pub bad_length : Text

-- The state that all code of a page shares: `localStorage`, the requests sent, newest first, and the
-- number of questions asked.
pub record Browser : Type 0 where
  pub storage : Entries
  pub sent : List Request
  pub asked : ℕ

abbrev pub Io : Type 0 → Type 0
Io A = Run Browser A

-- `response.ok`
unfoldable pub response_ok : Response → Bool
response_ok r = leb 200 r.status && leb r.status 299

-- A question to the environment.
unfoldable pub ask : {A : Type 0} → (ℕ → A) → Io A
ask f b = (Result.ok (f b.asked), record b { asked = suc b.asked })

-- `await fetch(…)`
unfoldable pub fetch : Platform → Request → Io Response
fetch p q b =
    let b' = record b { sent = q ∷ b.sent; asked = suc b.asked } in
    elim (p.answer b.asked q) [
      | responded r ↦ (Result.ok r, b')
      | rejected e ↦ (Result.throw e, b')
    ]

-- What the standards promise of the platform, as far as theorems use it.
pub record IsStandard (p : Platform) : Type 0 where
  pub utf8_bytes : (s : Text) → All (λ b. b < 256) (p.utf8 s)
  pub digest_bytes : (bs : List ℕ) → All (λ b. b < 256) (p.digest bs)
  pub length_digest : (bs : List ℕ) → length (p.digest bs) ≡ 32
  pub random_bytes : (t n : ℕ) → All (λ b. b < 256) (p.random_values t n)
  pub length_random : (t n : ℕ) → length (p.random_values t n) ≡ n

-- What the standard promises of `JSON` on values without `undefined` or numbers that are not finite,
-- and that the text of such a value is never empty.
pub record IsJson (p : Platform) : Type 0 where
  pub text_of :
      (v : Value)
      → IsPlain v
      → (c : ℕ) × (s : Text) × (p.stringify v ≡ Result.ok (c ∷ s)) × (p.parse (c ∷ s) ≡ Result.ok v)
  pub parse_brackets : p.parse (js "[]") ≡ Result.ok (arr nil)

-- What `tweetnacl` promises: the bytes of a key pair, and that a signature made with the secret key is
-- one that the public key verifies.
pub record IsNacl (p : Platform) : Type 0 where
  pub secret_bytes : (t : ℕ) → All (λ b. b < 256) (p.key_pair t).secret_key
  pub public_bytes : (t : ℕ) → All (λ b. b < 256) (p.key_pair t).public_key
  pub length_public : (t : ℕ) → length (p.key_pair t).public_key ≡ 32
  pub signs :
      (t : ℕ) (m : List ℕ)
      → (g : List ℕ) × (p.sign m (p.key_pair t).secret_key ≡ Result.ok g)
        × All (λ b. b < 256) g
        × (p.verify m g (p.key_pair t).public_key ≡ Result.ok true)
