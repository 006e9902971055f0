-- ===== src/Utils/DomainStorage/Laws.antt =====
-- What a wallet's list of names holds after each operation.
use namecoin.Prelude.{
  ◌≡◌, ◌⊎◌, refl, true, false, List, ◌∷◌, arith, if◌then◌else◌, Bool-cases, inl, inr,
}
use namecoin.Js.Text.{Text, js, text_eq, text_eq_refl, text_eq_iff}
use namecoin.Js.Value.{
  Value, Items, Fields, obj, str, end, field, arr, nil, cons, get_field, get_prop, IsPlain,
  IsPlainItems, IsPlainFields,
}
use namecoin.Js.Effect.{Result, ok, throw, error, ◌>>=◌}
use namecoin.Js.Platform.{Platform, Browser, Entries, Request, IsJson, ask}
use namecoin.Js.Storage.{lookup}
use namecoin.Js.Storage.Laws.{lookup-set}
use namecoin.Utils.LocalStorage.{push, snoc}
use namecoin.Utils.DomainStorage.{
  pending_key, read_list, write_list, get_pending_domains, save_pending_domain,
  update_domain_status, remove_pending_domain, pending_entry, is_text, set_field, has_domain,
  with_status, map_status, filter_others,
}

-- The list of names that the wallet reads, if it reads one.
abbrev pub names_of : Platform → Text → Browser → Result Value
names_of p miner_id b = (get_pending_domains p miner_id b).0

-- After a write of `v` under `key` to the storage `m`: it is read back, the other keys hold what they
-- held, and no request was sent beyond `sent`.
pub record Stored (p : Platform) (key : Text) (v : Value) (m : Entries) (sent : List Request)
    (b : Browser) : Type 0 where
  pub read : (read_list p key b).0 ≡ ok v
  pub others : (j : Text) → text_eq key j ≡ false → lookup j b.storage ≡ lookup j m
  pub no_request : b.sent ≡ sent

-- The write took place, or it threw because of the quota and stored nothing.
abbrev pub Writes : Platform → Text → Value → Browser → Result (Unit {0}) × Browser → Type 0
Writes p key v b out =
    (out.0 ≡ ok tt) × Stored p key v b.storage b.sent out.1
    ⊎ (out.0 ≡ throw (error p.quota_exceeded)) × (out.1.storage ≡ b.storage) × (out.1.sent ≡ b.sent)

-- Whose entries all are objects, as the entries that this module writes.
abbrev pub AllObjects : Items → Type 0
AllObjects nil = Unit
AllObjects (cons (obj fs) xs) = AllObjects xs
AllObjects (cons _ xs) = ⊥

-- The entries with the property `domain` at `name` have the new status, and are otherwise as before;
-- the others are unchanged, and the order is kept.
pub data Updated (name status : Text) : Items → Items → Type 0 where
  done : Updated name status nil nil
  hit :
      {fs gs : Fields} {xs ys : Items}
      → is_text (get_field (js "domain") fs) name ≡ true
      → get_field (js "status") gs ≡ str status
      → ((k : Text) → text_eq (js "status") k ≡ false → get_field k gs ≡ get_field k fs)
      → Updated name status xs ys
      → Updated name status (cons (obj fs) xs) (cons (obj gs) ys)
  miss :
      {fs : Fields} {xs ys : Items}
      → is_text (get_field (js "domain") fs) name ≡ false
      → Updated name status xs ys
      → Updated name status (cons (obj fs) xs) (cons (obj fs) ys)

-- Just the entries with the property `domain` at `name` are gone.
pub data Removed (name : Text) : Items → Items → Type 0 where
  done : Removed name nil nil
  gone :
      {fs : Fields} {xs ys : Items}
      → is_text (get_field (js "domain") fs) name ≡ true
      → Removed name xs ys
      → Removed name (cons (obj fs) xs) ys
  kept :
      {fs : Fields} {xs ys : Items}
      → is_text (get_field (js "domain") fs) name ≡ false
      → Removed name xs ys
      → Removed name (cons (obj fs) xs) (cons (obj fs) ys)

pub get_field-set_field :
    (k j : Text) (v : Value) (fs : Fields)
    → get_field j (set_field k v fs) ≡ (if text_eq k j then v else get_field j fs)
unfolding get_field set_field
get_field-set_field k j v end = ground arith
get_field-set_field k j v (field i w fs) =
    ground (arith, get_field-set_field k j v fs, text_eq_iff i k, text_eq_iff i j, text_eq_iff k j)

pub set_field-IsPlainFields :
    (k : Text) (v : Value) (fs : Fields)
    → IsPlain v
    → IsPlainFields fs
    → IsPlainFields (set_field k v fs)
unfolding set_field
set_field-IsPlainFields k v end h hs = (h, tt)
set_field-IsPlainFields k v (field j w fs) h (hw, hs) = elim (Bool-cases (text_eq j k)) [
  | inl e ↦ rw e (h, hs)
  | inr e ↦ rw e (hw, set_field-IsPlainFields k v fs h hs)
]

snoc-IsPlainItems :
    (xs : Items) (v : Value) → IsPlainItems xs → IsPlain v → IsPlainItems (snoc xs v)
unfolding snoc
snoc-IsPlainItems nil v h k = (k, tt)
snoc-IsPlainItems (cons x xs) v (hx, h) k = (hx, snoc-IsPlainItems xs v h k)

module _ (p : Platform) (name : Text) where
  map_status-Updated :
      (status : Text) (xs : Items)
      → AllObjects xs
      → IsPlainItems xs
      → (ys : Items) × (map_status p name status xs ≡ ok ys)
        × Updated name status xs ys
        × IsPlainItems ys
  unfolding map_status has_domain get_prop with_status
  map_status-Updated status nil o h = (nil, refl, done, tt)
  map_status-Updated status (cons (obj fs) xs) o (hf, h) =
      let (ys, e, u, k) = map_status-Updated status xs o h in
      elim (Bool-cases (is_text (get_field (js "domain") fs) name)) [
        | inl same ↦
            let gs = set_field (js "status") (str status) fs in
            (
              cons (obj gs) ys,
              rw (e, same),
              hit same (rw (get_field-set_field, text_eq_refl))
                  (λ j other. rw (get_field-set_field, other)) u,
              (set_field-IsPlainFields (js "status") (str status) fs tt hf, k),
            )
        | inr other ↦ (cons (obj fs) ys, rw (e, other), miss other u, (hf, k))
      ]
  map_status-Updated status (cons _ xs) o h = absurd o

  filter_others-Removed :
      (xs : Items)
      → AllObjects xs
      → IsPlainItems xs
      → (ys : Items) × (filter_others p name xs ≡ ok ys) × Removed name xs ys × IsPlainItems ys
  unfolding filter_others has_domain get_prop
  filter_others-Removed nil o h = (nil, refl, done, tt)
  filter_others-Removed (cons (obj fs) xs) o (hf, h) =
      let (ys, e, u, k) = filter_others-Removed xs o h in
      elim (Bool-cases (is_text (get_field (js "domain") fs) name)) [
        | inl same ↦ (ys, rw (e, same), gone same u, k)
        | inr other ↦ (cons (obj fs) ys, rw (e, other), kept other u, (hf, k))
      ]
  filter_others-Removed (cons _ xs) o h = absurd o

module _ (p : Platform) (json : IsJson p) where
  pub write_list-Writes :
      (key : Text) (v : Value) (b : Browser) → IsPlain v → Writes p key v b (write_list p key v b)
  unfolding write_list read_list
  write_list-Writes key v b h =
      let (c, s, written, read) = json.text_of v h in
      elim (Bool-cases (p.fits b.storage key (c ∷ s))) [
        | inl room ↦
            rw (written, room)
              (inl (
                refl,
                record {
                  read = rw (lookup-set, text_eq_refl) read;
                  others = λ j other. rw (lookup-set, other);
                  no_request = refl;
                },
              ))
        | inr full ↦ rw (written, full) (inr (refl, refl, refl))
      ]

  module _ (miner_id : Text) (b : Browser) (xs : Items)
      (reads : names_of p miner_id b ≡ ok (arr xs)) (plain : IsPlainItems xs) where
    -- `savePendingDomain` puts one more entry at the end of the list that is read, with the status
    -- `pending` and the time, or it throws because of the quota and stores nothing.
    pub save_pending_domain-Writes :
        (domain salt commitment txid : Text)
        → Writes p
            (pending_key miner_id)
            (arr (snoc xs (pending_entry domain salt commitment txid (p.now b.asked))))
            b
            (save_pending_domain p miner_id domain salt commitment txid b)
    unfolding save_pending_domain get_pending_domains read_list push ask ◌>>=◌
    save_pending_domain-Writes domain salt commitment txid = rw reads (
        write_list-Writes (pending_key miner_id)
          (arr (snoc xs (pending_entry domain salt commitment txid (p.now b.asked)))) _
          (snoc-IsPlainItems xs (pending_entry domain salt commitment txid (p.now b.asked)) plain
            (unfold pending_entry in (tt, (tt, (tt, (tt, (tt, (tt, tt)))))))))

    -- `updateDomainStatus` gives the entries of a name the new status and changes nothing else.
    pub update_domain_status-Updated :
        AllObjects xs
        → (domain status : Text)
        → (ys : Items) × Updated domain status xs ys
          × Writes p
              (pending_key miner_id)
              (arr ys)
              b
              (update_domain_status p miner_id domain status b)
    unfolding update_domain_status get_pending_domains read_list ◌>>=◌
    update_domain_status-Updated o domain status =
        let (ys, e, u, k) = map_status-Updated p domain status xs o plain in
        (ys, u, rw (reads, e) (write_list-Writes (pending_key miner_id) (arr ys) b k))

    -- `removePendingDomain` drops the entries of a name and keeps the others in their order.
    pub remove_pending_domain-Removed :
        AllObjects xs
        → (domain : Text)
        → (ys : Items) × Removed domain xs ys
          × Writes p (pending_key miner_id) (arr ys) b (remove_pending_domain p miner_id domain b)
    unfolding remove_pending_domain get_pending_domains read_list ◌>>=◌
    remove_pending_domain-Removed o domain =
        let (ys, e, u, k) = filter_others-Removed p domain xs o plain in
        (ys, u, rw (reads, e) (write_list-Writes (pending_key miner_id) (arr ys) b k))
