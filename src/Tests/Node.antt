-- ===== src/Tests/Node.antt =====
-- A platform that runs: a node that grants every request, and simple stand-ins for the browser.
use namecoin.Prelude.{
  leb, if◌then◌else◌, ℕ, zero, suc, ◌+◌, ◌%◌, ◌<◌, ◌≡◌, refl, ap, true, none, List, [], ◌∷◌, map,
  All, length, arith,
}
use namecoin.Js.Text.{Text, js, text_eq, text_eq_refl}
use namecoin.Js.Value.{Value, nan, str, arr, obj, nil, end, field}
use namecoin.Js.Effect.{ok}
use namecoin.Js.Platform.{Platform, responded, Browser, IsStandard, IsJson, IsNacl}
use namecoin.Tests.Codec.{to_json, of_json, of_json-to_json}

abbrev pub total : List ℕ → ℕ
total [] = 0
total (b ∷ bs) = b + total bs

abbrev pub replicate : ℕ → ℕ → List ℕ
replicate zero b = []
replicate (suc n) b = b ∷ replicate n b

-- The answer to each request: no inputs, no outputs, a success.
unfoldable pub granted : Value
unfolding js
granted = obj (
    field (js "status") (str (js "success")) (
      field (js "inputs") (arr nil)
        (field (js "outputs") (arr nil) (field (js "minerID") (str (js "ab")) end))))

unfoldable pub node : Platform
unfolding to_json of_json granted js text_eq
node = record {
  utf8 = map (λ c. c % 256);
  digest = λ bs. replicate 32 (total bs % 256);
  random_values = λ t n. replicate n (t % 256);
  stringify = λ v. ok (to_json v);
  pretty = λ v. ok (to_json v);
  parse = of_json;
  canonicalize = λ v. ok (str (to_json v));
  key_pair =
      λ t. record { secret_key = replicate 64 (t % 256); public_key = replicate 32 (t % 256) };
  sign = λ m k. ok (replicate 32 (total m % 256));
  verify = λ m g k. ok (text_eq g (replicate 32 (total m % 256)));
  now = λ t. t;
  iso_date = λ t. t ∷ [];
  answer =
      λ t q. responded (record { status = 200; status_text = js "OK"; body = to_json granted });
  fits = λ m k v. true;
  backend_url = none;
  to_number = λ v. nan;
  to_text = λ v. js "value";
  lower = map (λ c. if leb 65 c then (if leb c 90 then c + 32 else c) else c);
  no_property = js "no property";
  quota_exceeded = js "quota exceeded";
  bad_length = js "bad length";
}

replicate-bytes : (n b : ℕ) → b < 256 → All (λ c. c < 256) (replicate n b)
replicate-bytes zero b h = tt
replicate-bytes (suc n) b h = (h, replicate-bytes n b h)

length-replicate : (n b : ℕ) → length (replicate n b) ≡ n
length-replicate zero b = refl
length-replicate (suc n) b = omega (arith, length-replicate n b)

map-bytes : (s : Text) → All (λ c. c < 256) (map (λ c. c % 256) s)
map-bytes [] = tt
map-bytes (c ∷ s) = (omega arith, map-bytes s)

pub node-IsStandard : IsStandard node
unfolding node
node-IsStandard = record {
  utf8_bytes = map-bytes;
  digest_bytes = λ bs. replicate-bytes 32 (total bs % 256) (omega arith);
  length_digest = λ bs. length-replicate 32 (total bs % 256);
  random_bytes = λ t n. replicate-bytes n (t % 256) (omega arith);
  length_random = λ t n. length-replicate n (t % 256);
}

pub node-IsJson : IsJson node
unfolding node to_json
node-IsJson = record { text_of = λ v h. (0, _, refl, of_json-to_json v); parse_brackets = refl }

pub node-IsNacl : IsNacl node
unfolding node
node-IsNacl = record {
  secret_bytes = λ t. replicate-bytes 64 (t % 256) (omega arith);
  public_bytes = λ t. replicate-bytes 32 (t % 256) (omega arith);
  length_public = λ t. length-replicate 32 (t % 256);
  signs = λ t m. (
    replicate 32 (total m % 256),
    refl,
    replicate-bytes 32 (total m % 256) (omega arith),
    ap ok (text_eq_refl (replicate 32 (total m % 256))),
  );
}

abbrev pub fresh : Browser
fresh = record { storage = []; sent = []; asked = 7 }
