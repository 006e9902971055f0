-- ===== src/Utils/LocalStorage/Laws.antt =====
-- What is read after a write.
use namecoin.Prelude.{
  ◌≡◌, ◌⊎◌, inl, inr, refl, Bool, true, false, none, ◌∷◌, Bool-cases, if◌then◌else◌, arith,
}
use namecoin.Js.Text.{Text, js, text_eq, text_eq_refl}
use namecoin.Js.Value.{Value, Items, arr, nil, cons, IsPlain, IsPlainItems}
use namecoin.Js.Effect.{Result, ok, Result-cases, ◌>>=◌}
use namecoin.Js.Platform.{Platform, Browser, IsJson}
use namecoin.Js.Storage.{lookup, without, remove_item as local_remove}
use namecoin.Js.Storage.Laws.{lookup-set, lookup-without}
use namecoin.Utils.LocalStorage.{
  wallet_key, domains_key, transactions_key, parse_or, push, snoc, set_item, get_item, save_domain,
  get_domains, clear, remove_item,
}

-- `setItem` returned `true`, the value is what `getItem` returns, and the other keys are as before; or
-- it returned `false` and the storage is as before.
abbrev pub Sets : Platform → Text → Value → Browser → Result Bool × Browser → Type 0
Sets p key v b out =
    (out.0 ≡ ok true)
      × ((d : Value) → get_item p key d out.1 ≡ (ok v, out.1))
      × ((j : Text) → text_eq key j ≡ false → lookup j out.1.storage ≡ lookup j b.storage)
    ⊎ (out.0 ≡ ok false) × (out.1 ≡ b)

module _ (p : Platform) (json : IsJson p) where
  -- `setItem` of a plain value never throws; it stores the value for `getItem`, whatever the default
  -- given there, and keeps the other keys, or it returns `false` and changes nothing.
  set_item-Sets :
      (key : Text) (v : Value) (b : Browser) → IsPlain v → Sets p key v b (set_item p key v b)
  unfolding set_item get_item
  set_item-Sets key v b h =
      let (c, s, written, read) = json.text_of v h in
      elim (Bool-cases (p.fits b.storage key (c ∷ s))) [
        | inl room ↦
            rw (written, room)
              (inl (
                refl,
                (λ d. rw (lookup-set, text_eq_refl, parse_or, read)),
                λ j other. rw (lookup-set, other),
              ))
        | inr full ↦ rw (written, full) (inr (refl, refl))
      ]

-- `getItem` never throws and never writes, whatever the storage holds.
get_item_total :
    (p : Platform) (key : Text) (d : Value) (b : Browser)
    → (v : Value) × (get_item p key d b ≡ (ok v, b))
unfolding get_item
get_item_total p key d b = elim (Result-cases (parse_or p d (lookup key b.storage))) [
  | inl (v, e) ↦ (v, rw e)
  | inr (x, e) ↦ (d, rw e)
]

distinct_keys :
    (text_eq transactions_key domains_key ≡ false) × (text_eq domains_key wallet_key ≡ false)
unfolding wallet_key domains_key transactions_key js text_eq
distinct_keys = (refl, refl)

-- `clear` removes the three keys of the application and keeps every other key.
pub lookup-clear :
    (j : Text) (b : Browser)
    → lookup j (clear b).1.storage ≡ (
        if text_eq wallet_key j
        then none
        else if text_eq domains_key j
        then none
        else if text_eq transactions_key j
        then none
        else lookup j b.storage)
unfolding clear remove_item local_remove ◌>>=◌
lookup-clear j b = ground (
  arith,
  lookup-without transactions_key j (without domains_key (without wallet_key b.storage)),
  lookup-without domains_key j (without wallet_key b.storage),
  lookup-without wallet_key j b.storage,
)

snoc-IsPlainItems :
    (xs : Items) (v : Value) → IsPlainItems xs → IsPlain v → IsPlainItems (snoc xs v)
unfolding snoc
snoc-IsPlainItems nil v h k = (k, tt)
snoc-IsPlainItems (cons x xs) v (hx, h) k = (hx, snoc-IsPlainItems xs v h k)

-- Where `getDomains` returns a list, `saveDomain` appends to it and writes it back as `setItem` does.
save_domain-Sets :
    (p : Platform) (b : Browser) (xs : Items) (v : Value)
    → IsJson p
    → get_domains p b ≡ (ok (arr xs), b)
    → IsPlainItems xs
    → IsPlain v
    → Sets p domains_key (arr (snoc xs v)) b (save_domain p v b)
unfolding save_domain get_domains push ◌>>=◌
save_domain-Sets p b xs v json reads hs h =
    rw reads (set_item-Sets p json domains_key (arr (snoc xs v)) b (snoc-IsPlainItems xs v hs h))
