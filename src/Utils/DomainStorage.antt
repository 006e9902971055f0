-- ===== src/Utils/DomainStorage.antt =====
-- frontend/src/utils/domainStorage.js: the names whose commitment a wallet has sent.
pub mod Laws
pub mod Isolation
use namecoin.Prelude.{
  ℕ, Bool, true, false, Option, none, some, List, [], ◌∷◌, ◌++◌, ℤ, pos, if◌then◌else◌,
}
use namecoin.Js.Text.{Text, js, text_eq}
use namecoin.Js.Value.{
  Value, Items, Fields, int, undefined, null, bool, num, str, arr, obj, nil, cons, end, field,
  get_field, get_prop,
}
use namecoin.Js.Effect.{Result, ok, throw, type_error, Run, pure, lift, ◌>>=◌, ◌>>◌}
use namecoin.Js.Platform.{Platform, Browser, Io, ask}
use namecoin.Js.Storage.{get_item, set_item, remove_item}
use namecoin.Utils.LocalStorage.{push}

-- `pending_domains_${minerID}`
unfoldable pub pending_key : Text → Text
pending_key miner_id = js "pending_domains_" ++ miner_id

-- `v === s` for a text `s`
unfoldable pub is_text : Value → Text → Bool
unfolding text_eq
is_text (str t) s = text_eq t s
is_text v s = false

-- `{ ...fs, k: v }`: a property that is there keeps its place.
unfoldable pub set_field : Text → Value → Fields → Fields
unfolding text_eq
set_field k v end = field k v end
set_field k v (field j w fs) =
    let rest = set_field k v fs in if text_eq j k then field j v fs else field j w rest

abbrev pub bind {ℓ κ} : {A : Type ℓ} {B : Type κ} → Result A → (A → Result B) → Result B
bind (ok a) f = f a
bind (throw e) f = throw e

-- `d.domain === domain`, or the `TypeError` where `d` has no properties
unfoldable pub has_domain : Platform → Text → Value → Result Bool
unfolding is_text
has_domain p domain d = elim (get_prop (js "domain") d) [
  | none ↦ throw (type_error p.no_property)
  | some v ↦ ok (is_text v domain)
]

-- The object that is pushed for a new commitment.
unfoldable pub pending_entry : Text → Text → Text → Text → ℕ → Value
pending_entry domain salt commitment txid time = obj (
    field (js "domain") (str domain) (
      field (js "salt") (str salt) (
        field (js "commitment") (str commitment) (
          field (js "txid") (str txid) (
            field (js "timestamp") (num (int (pos time)))
              (field (js "status") (str (js "pending")) end))))))

-- `{ ...d, status }`; the spread of a value that is no object has no property here.
unfoldable pub with_status : Text → Value → Value
unfolding set_field
with_status status (obj fs) = obj (set_field (js "status") (str status) fs)
with_status status v = obj (field (js "status") (str status) end)

module _ (p : Platform) (domain : Text) where
  -- the callback of `map`, over the whole array
  unfoldable pub map_status : Text → Items → Result Items
  map_status status nil = ok nil
  map_status status (cons d ds) = bind (has_domain p domain d) λ same.
      bind (map_status status ds) λ rest. ok (cons (if same then with_status status d else d) rest)

  -- the callback of `filter`, over the whole array
  unfoldable pub filter_others : Items → Result Items
  filter_others nil = ok nil
  filter_others (cons d ds) =
      bind (has_domain p domain d)
        λ same. bind (filter_others ds) λ rest. ok (if same then rest else cons d rest)

-- `v.map(…)` and `v.filter(…)`, which only an array has
abbrev on_array : Platform → (Items → Result Items) → Value → Result Value
on_array p f (arr xs) = bind (f xs) (λ ys. ok (arr ys))
on_array p f v = throw (type_error p.no_property)

-- `item || d` for a text that may be `null`
unfoldable pub text_or : Option Text → Text → Text
text_or none d = d
text_or (some []) d = d
text_or (some (c ∷ s)) d = c ∷ s

module _ (p : Platform) where
  -- `JSON.parse(localStorage.getItem(key) || '[]')`
  unfoldable pub read_list : Text → Io Value
  unfolding ◌>>=◌ get_item text_or
  read_list key = do item ← get_item key; lift (p.parse (text_or item (js "[]")))

  -- `localStorage.setItem(key, JSON.stringify(v))`
  unfoldable pub write_list : Text → Value → Io (Unit {0})
  unfolding ◌>>=◌ set_item
  write_list key v = do text ← lift (p.stringify v); set_item p key text

  unfoldable pub save_pending_domain : Text → Text → Text → Text → Text → Io (Unit {0})
  save_pending_domain miner_id domain salt commitment txid = do
    existing ← read_list (pending_key miner_id)
    time ← ask p.now
    pushed ← lift (push p existing (pending_entry domain salt commitment txid time))
    write_list (pending_key miner_id) pushed

  unfoldable pub get_pending_domains : Text → Io Value
  unfolding read_list
  get_pending_domains miner_id = read_list (pending_key miner_id)

  unfoldable pub update_domain_status : Text → Text → Text → Io (Unit {0})
  update_domain_status miner_id domain status = do
    existing ← read_list (pending_key miner_id)
    updated ← lift (on_array p (map_status p domain status) existing)
    write_list (pending_key miner_id) updated

  unfoldable pub remove_pending_domain : Text → Text → Io (Unit {0})
  remove_pending_domain miner_id domain = do
    existing ← read_list (pending_key miner_id)
    filtered ← lift (on_array p (filter_others p domain) existing)
    write_list (pending_key miner_id) filtered

unfoldable pub clear_all_pending_domains : Text → Io (Unit {0})
clear_all_pending_domains miner_id = remove_item (pending_key miner_id)
