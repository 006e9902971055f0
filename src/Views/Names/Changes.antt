-- ===== src/Views/Names/Changes.antt =====
-- What the writes to a list of entries are on the names that it shows.
use namecoin.Prelude.{
  ℕ, ◌≡◌, ◌⊎◌, refl, false, Bool-cases, inl, inr, List, [], ◌∷◌, ◌++◌, map, if◌then◌else◌,
}
use namecoin.Js.Text.{Text, js, text_eq}
use namecoin.Js.Value.{Value, Items, Fields, str, obj, nil, cons, get_field, get_prop, IsPlainItems}
use namecoin.Js.Effect.{Exception, ok, throw}
use namecoin.Js.Platform.{Platform}
use namecoin.Utils.LocalStorage.{snoc}
use namecoin.Utils.DomainStorage.{pending_entry, set_field, has_domain, is_text}
use namecoin.Utils.DomainStorage.Laws.{
  AllObjects, Removed, done, gone, kept, get_field-set_field, set_field-IsPlainFields,
}
use namecoin.Views.WalletPage.Names.{map_items, change_named, unread_named, array_of}
use namecoin.Views.WalletPage.Reveal.{revealed_entry, renewed_entry}
use namecoin.Views.Life.{Name, Life, pending, revealed, renew_life, drop_from}
use namecoin.Views.Names.{IsEntry, HasLife, Shows}

pub Shows-plain : (xs : Items) (ns : List Name) → Shows xs ns → IsPlainItems xs
Shows-plain nil ns h = tt
Shows-plain (cons (obj fs) xs) (n ∷ ns) (e, h) = (e.plain, Shows-plain xs ns h)
Shows-plain (cons _ xs) ns h = absurd h

pub Shows-objects : (xs : Items) (ns : List Name) → Shows xs ns → AllObjects xs
Shows-objects nil ns h = tt
Shows-objects (cons (obj fs) xs) (n ∷ ns) (e, h) = Shows-objects xs ns h
Shows-objects (cons _ xs) ns h = absurd h

Shows-snoc :
    (xs : Items) (ns : List Name) (fs : Fields) (n : Name)
    → Shows xs ns
    → IsEntry fs n
    → Shows (snoc xs (obj fs)) (ns ++ n ∷ [])
unfolding snoc
Shows-snoc nil [] fs n h e = (e, tt)
Shows-snoc (cons (obj gs) xs) (m ∷ ns) fs n (k, h) e = (k, Shows-snoc xs ns fs n h e)
Shows-snoc _ _ fs n h e = absurd h

-- The test of the code on an entry is the test on its name.
same_domain :
    (fs : Fields) (n : Name) (d : Text)
    → IsEntry fs n
    → is_text (get_field (js "domain") fs) d ≡ text_eq n.domain d
unfolding is_text
same_domain fs n d e = rw e.named

pub Shows-Removed :
    (d : Text) {xs ys : Items} (ns : List Name)
    → Removed d xs ys
    → Shows xs ns
    → Shows ys (drop_from d ns)
unfolding drop_from
Shows-Removed d [] done h = tt
Shows-Removed d (n ∷ ns) (gone {fs = fs} same r) (e, h) =
    rw (← same_domain fs n d e, same) (Shows-Removed d ns r h)
Shows-Removed d (n ∷ ns) (kept {fs = fs} other r) (e, h) =
    rw (← same_domain fs n d e, other) (e, Shows-Removed d ns r h)
Shows-Removed d _ _ h = absurd h

pub pending_entry-IsEntry :
    (domain salt commitment txid : Text) (time : ℕ) (xs : Items) (ns : List Name)
    → Shows xs ns
    → Shows
        (snoc xs (pending_entry domain salt commitment txid time))
        (ns ++ record { domain = domain; salt = salt; txid = txid; life = pending } ∷ [])
unfolding pending_entry get_field js text_eq
pending_entry-IsEntry domain salt commitment txid time xs ns h = Shows-snoc xs ns _ _ h (record {
  named = refl;
  salted = refl;
  committed = refl;
  life = refl;
  plain = (tt, (tt, (tt, (tt, (tt, (tt, tt))))));
})

-- A change of an entry follows a change of its name.
abbrev pub Follows : (Value → Value) → (Name → Name) → Type 0
Follows f g =
    (fs : Fields) (n : Name)
    → IsEntry fs n
    → (gs : Fields) × (f (obj fs) ≡ obj gs) × IsEntry gs (g n)

pub kept_field :
    (j : Text) (v : Value) (fs : Fields) (k : Text) {w : Value}
    → text_eq j k ≡ false
    → get_field k fs ≡ w
    → get_field k (set_field j v fs) ≡ w
kept_field j v fs k other e = rw (get_field-set_field, other) e

set_ip-HasLife :
    (ip : Text) (fs : Fields) (life : Life)
    → HasLife fs life
    → HasLife (set_field (js "ip") (str ip) fs) (renew_life ip life)
unfolding text_eq js
set_ip-HasLife ip fs pending e = kept_field (js "ip") (str ip) fs (js "status") refl e
set_ip-HasLife ip fs (revealed old) (e, _) =
    (kept_field (js "ip") (str ip) fs (js "status") refl e, rw get_field-set_field refl)

pub renewed_entry-Follows :
    (ip : Text) → Follows (renewed_entry ip) (λ n. record n { life = renew_life ip n.life })
unfolding text_eq js
renewed_entry-Follows ip fs n e = (
  set_field (js "ip") (str ip) fs,
  refl,
  record {
    named = kept_field (js "ip") (str ip) fs (js "domain") refl e.named;
    salted = kept_field (js "ip") (str ip) fs (js "salt") refl e.salted;
    committed = kept_field (js "ip") (str ip) fs (js "txid") refl e.committed;
    life = set_ip-HasLife ip fs n.life e.life;
    plain = set_field-IsPlainFields (js "ip") (str ip) fs tt e.plain;
  },
)

-- As soon as the status says so, a name with an address is a revealed one.
set_status-IsEntry :
    (ip : Text) (fs : Fields) (n : Name)
    → IsEntry fs n
    → let gs = set_field (js "ip") (str ip) (set_field (js "status") (str (js "revealed")) fs) in
      IsEntry gs (record n { life = revealed ip })
unfolding text_eq js
set_status-IsEntry ip fs n e =
    let status = str (js "revealed") in
    let gs = set_field (js "status") status fs in
    record {
      named =
          kept_field (js "ip") (str ip) gs (js "domain") refl
            (kept_field (js "status") status fs (js "domain") refl e.named);
      salted =
          kept_field (js "ip") (str ip) gs (js "salt") refl
            (kept_field (js "status") status fs (js "salt") refl e.salted);
      committed =
          kept_field (js "ip") (str ip) gs (js "txid") refl
            (kept_field (js "status") status fs (js "txid") refl e.committed);
      life = (
        kept_field (js "ip") (str ip) gs (js "status") refl (rw get_field-set_field refl),
        rw get_field-set_field refl,
      );
      plain =
          set_field-IsPlainFields (js "ip") (str ip) gs tt
            (set_field-IsPlainFields (js "status") status fs tt e.plain);
    }

pub revealed_entry-Follows :
    (ip : Text) → Follows (revealed_entry ip) (λ n. record n { life = revealed ip })
revealed_entry-Follows ip fs n e = (_, refl, set_status-IsEntry ip fs n e)

-- `stored.map` on the entries is `map` on the names.
pub map_items-Shows :
    (p : Platform) (d : Text) (f : Value → Value) (g : Name → Name) (xs : Items) (ns : List Name)
    → Follows f g
    → Shows xs ns
    → (ys : List Value) × (map_items p (change_named p d f) xs ≡ ok ys)
      × Shows (array_of ys) (map (λ n. if text_eq n.domain d then g n else n) ns)
unfolding map_items change_named has_domain get_prop
map_items-Shows p d f g nil [] follow h = ([], refl, tt)
map_items-Shows p d f g (cons (obj fs) xs) (n ∷ ns) follow (e, h) =
    let (ys, mapped, k) = map_items-Shows p d f g xs ns follow h in
    elim (Bool-cases (is_text (get_field (js "domain") fs) d)) [
      | inl same ↦
          let (gs, e', m) = follow fs n e in
          (f (obj fs) ∷ ys, rw (mapped, same), rw (← same_domain fs n d e, same, e') (m, k))
      | inr other ↦ (obj fs ∷ ys, rw (mapped, other), rw (← same_domain fs n d e, other) (e, k))
    ]
map_items-Shows p d f g _ _ follow h = absurd h

-- Where the new value cannot be read, the entries stay as they are, or the code throws.
pub map_items-unread :
    (p : Platform) (d : Text) (x : Exception) (xs : Items) (ns : List Name)
    → Shows xs ns
    → ((ys : List Value) × (map_items p (unread_named p d x) xs ≡ ok ys) × Shows (array_of ys) ns)
      ⊎ ((y : Exception) × (map_items p (unread_named p d x) xs ≡ throw y))
unfolding map_items unread_named has_domain get_prop
map_items-unread p d x nil [] h = inl ([], refl, tt)
map_items-unread p d x (cons (obj fs) xs) (n ∷ ns) (e, h) =
    elim (Bool-cases (is_text (get_field (js "domain") fs) d)) [
      | inl same ↦ inr (x, rw (map_items, same) refl)
      | inr other ↦ elim (map_items-unread p d x xs ns h) [
        | inl (ys, mapped, k) ↦ inl (obj fs ∷ ys, rw (map_items, other, mapped), (e, k))
        | inr (y, thrown) ↦ inr (y, rw (map_items, other, thrown))
      ]
    ]
map_items-unread p d x _ _ h = absurd h
