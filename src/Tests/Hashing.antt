-- ===== src/Tests/Hashing.antt =====
-- Hexadecimal text, hashes, signatures and validators at concrete inputs.
use namecoin.Prelude.{◌≡◌, ◌≢◌, ◌↔◌, ◌⊎◌, inl, inr, refl, Bool, true, false, [], ◌∷◌, ◌++◌, arith}
use namecoin.Js.Text.{Text, js}
use namecoin.Js.Effect.{ok}
use namecoin.Utils.Hex.{bytes_to_hex, hex_to_bytes}
use namecoin.Utils.Hex.Laws.{hex_to_bytes-bytes_to_hex, bytes_to_hex-hex_to_bytes}
use namecoin.Utils.Hash.{string_input, sha256, generate_hash}
use namecoin.Utils.Hash.Laws.{IsHexOf, sha256-IsHexOf, committed, generate_hash_binding}
use namecoin.Utils.Validation.{is_alphanumeric, is_label_char, is_valid_domain}
use namecoin.Utils.Validation.Laws.{IsDomain, is_valid_domain_iff, is_valid_domain-trailing_hyphen}
use namecoin.Services.Crypto.{
  verify_domain_hash, generate_transaction_signature, verify_transaction_signature,
}
use namecoin.Services.Crypto.Laws.{verify_domain_hash_iff, verify_transaction_signature-generate}
use namecoin.Tests.Node.{node, node-IsStandard, node-IsNacl}

to_hex : bytes_to_hex (0 ∷ 171 ∷ 16 ∷ []) ≡ js "00ab10"
unfolding bytes_to_hex js
to_hex = refl

odd_and_bad : hex_to_bytes (js "0xfg1") ≡ 0 ∷ 15 ∷ []
unfolding hex_to_bytes namecoin.Utils.Hex.parse_int_16 js
odd_and_bad = refl

hex_to_bytes-bytes_to_hex_example : hex_to_bytes (bytes_to_hex (0 ∷ 171 ∷ [])) ≡ 0 ∷ 171 ∷ []
hex_to_bytes-bytes_to_hex_example = hex_to_bytes-bytes_to_hex (0 ∷ 171 ∷ []) (omega arith)

bytes_to_hex-hex_to_bytes_example : bytes_to_hex (hex_to_bytes (48 ∷ 97 ∷ [])) ≡ 48 ∷ 97 ∷ []
bytes_to_hex-hex_to_bytes_example =
    bytes_to_hex-hex_to_bytes (48 ∷ 97 ∷ []) (inl (omega arith), (inr (omega arith), tt)) refl

abbrev sample_hash : Text
sample_hash = bytes_to_hex (node.digest (node.utf8 (js "abc")))

sample_is_hash : sha256 node (string_input (js "abc")) ≡ ok sample_hash
unfolding sha256
sample_is_hash = refl

sha256-IsHexOf_example : IsHexOf 32 sample_hash
sha256-IsHexOf_example =
    sha256-IsHexOf node node-IsStandard (string_input (js "abc")) sample_hash sample_is_hash

abbrev commitment : Text
commitment =
    bytes_to_hex (node.digest (node.utf8 (js "DOMAIN_HASH_v1:" ++ js "a.bit" ++ js ":" ++ js "07")))

is_commitment : generate_hash node (js "a.bit") (js "07") ≡ ok commitment
unfolding generate_hash
is_commitment = refl

generate_hash_binding_example :
    ((js "a.bit" ≡ js "a.bit") × (js "07" ≡ js "07"))
    ⊎ ((committed (js "a.bit") (js "07") ≢ committed (js "a.bit") (js "07"))
        × (node.digest (node.utf8 (committed (js "a.bit") (js "07")))
            ≡ node.digest (node.utf8 (committed (js "a.bit") (js "07")))))
generate_hash_binding_example =
    generate_hash_binding node node-IsStandard (js "a.bit") (js "07") (js "a.bit") (js "07")
      commitment refl is_commitment is_commitment

verify_domain_hash_iff_example :
    ((b : Bool) × (verify_domain_hash node (js "a.bit") (js "07") commitment ≡ ok b))
    × ((verify_domain_hash node (js "a.bit") (js "07") commitment ≡ ok true) ↔ (
        (c : Text) × (generate_hash node (js "a.bit") (js "07") ≡ ok c)
        × (node.utf8 c ≡ node.utf8 commitment)))
verify_domain_hash_iff_example =
    verify_domain_hash_iff node node-IsStandard.utf8_bytes (js "a.bit") (js "07") commitment

verify_transaction_signature-generate_example :
    (signature : Text) × (generate_transaction_signature node
        (js "0a")
        (bytes_to_hex (node.key_pair 3).secret_key)
      ≡ ok signature)
    × (verify_transaction_signature node
          (js "0a")
          signature
          (bytes_to_hex (node.key_pair 3).public_key)
        ≡ true)
verify_transaction_signature-generate_example =
    verify_transaction_signature-generate node (js "0a") 3 node-IsNacl

is_valid_domain_iff_example : (is_valid_domain (js "a-b.com") ≡ true) ↔ IsDomain (js "a-b.com")
is_valid_domain_iff_example = is_valid_domain_iff (js "a-b.com")

accepted_and_refused :
    (is_valid_domain (js "a-b.com") ≡ true)
    × (is_valid_domain (js "-a.com") ≡ false)
    × (is_valid_domain (js "a.c") ≡ false)
    × (is_valid_domain (js "a.b.com") ≡ false)
unfolding is_valid_domain js is_label_char
accepted_and_refused = (refl, refl, refl, refl)

is_valid_domain-trailing_hyphen_example :
    is_valid_domain (97 ∷ (98 ∷ [] ++ (45 ∷ 46 ∷ 98 ∷ 105 ∷ []))) ≡ true
unfolding is_alphanumeric is_label_char
is_valid_domain-trailing_hyphen_example =
    is_valid_domain-trailing_hyphen 97 (98 ∷ []) (98 ∷ 105 ∷ []) refl (refl, tt) (refl, (refl, tt))
      (omega arith) (omega arith)
