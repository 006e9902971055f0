-- ===== src/Views/Names/Shown.antt =====
-- The rows of the page, and the names that the storage holds.
use namecoin.Prelude.{ℕ, suc, ◌≡◌, refl, false, List, [], ◌∷◌}
use namecoin.Js.Text.{Text, js, text_eq}
use namecoin.Js.Value.{Value, Items, Fields, str, obj, nil, cons, get_field, get_prop, truthy}
use namecoin.Js.Effect.{Result, ok, within, ◌>>=◌}
use namecoin.Js.Platform.{Platform}
use namecoin.Utils.DomainStorage.{set_field, get_pending_domains, read_list}
use namecoin.Views.WalletPage.{WalletPage, Row, in_browser, template}
use namecoin.Views.WalletPage.Names.{
  map_items, shown_entry, number_rows, show_rows, load_my_domains,
}
use namecoin.Views.Life.{Name, Life, pending, revealed}
use namecoin.Views.Names.{HasLife, IsEntry, Shows, Reads}
use namecoin.Views.Names.Changes.{kept_field}

-- The object of a row shows a name, and how far it has come.
pub record ShowsName (fs : Fields) (n : Name) : Type 0 where
  pub named : get_field (js "domain") fs ≡ str n.domain
  pub life : HasLife fs n.life

abbrev pub ShowsNames : List Row → List Name → Type 0
ShowsNames [] [] = Unit
ShowsNames (row ∷ rows) (n ∷ ns) = ShowsName row.entry n × ShowsNames rows ns
ShowsNames _ _ = ⊥

kept-HasLife :
    (j : Text) (v : Value) (fs : Fields) (l : Life)
    → text_eq j (js "status") ≡ false
    → text_eq j (js "ip") ≡ false
    → HasLife fs l
    → HasLife (set_field j v fs) l
kept-HasLife j v fs pending a b e = kept_field j v fs (js "status") a e
kept-HasLife j v fs (revealed ip) a b (e, e') =
    (kept_field j v fs (js "status") a e, kept_field j v fs (js "ip") b e')

kept-ShowsName :
    (j : Text) (v : Value) (fs : Fields) (n : Name)
    → text_eq j (js "domain") ≡ false
    → text_eq j (js "status") ≡ false
    → text_eq j (js "ip") ≡ false
    → ShowsName fs n
    → ShowsName (set_field j v fs) n
kept-ShowsName j v fs n a b c h = record {
  named = kept_field j v fs (js "domain") a h.named;
  life = kept-HasLife j v fs n.life b c h.life;
}

map_items-ok :
    {A : Type 0} (p : Platform) (f : Value → Result A) (x : Value) (xs : Items) {y : A}
    {ys : List A}
    → f x ≡ ok y
    → map_items p f xs ≡ ok ys
    → map_items p f (cons x xs) ≡ ok (y ∷ ys)
unfolding map_items
map_items-ok p f x xs first rest = rw (map_items, first, rest) refl

module _ (p : Platform) where
  shown_entry-ShowsName :
      (fs : Fields) (n : Name)
      → IsEntry fs n
      → (gs : Fields) × (shown_entry p (obj fs) ≡ ok gs) × ShowsName gs n
  unfolding shown_entry get_prop text_eq js
  shown_entry-ShowsName fs n e = (
    _,
    refl,
    kept-ShowsName _ _ _ n refl refl refl (
        kept-ShowsName _ _ _ n refl refl refl (
          kept-ShowsName _ _ _ n refl refl refl (
            kept-ShowsName _ _ _ n refl refl refl (
              kept-ShowsName _ _ _ n refl refl refl (
                kept-ShowsName _ _ fs n refl refl refl
                  (record { named = e.named; life = e.life })))))),
  )

  map_items-ShowsNames :
      (xs : Items) (ns : List Name) (k : ℕ)
      → Shows xs ns
      → (l : List Fields) × (map_items p (shown_entry p) xs ≡ ok l)
        × ShowsNames (number_rows k l) ns
  unfolding map_items
  map_items-ShowsNames nil [] k h = ([], refl, tt)
  map_items-ShowsNames (cons (obj fs) xs) (n ∷ ns) k (e, h) =
      let (gs, same, shows) = shown_entry-ShowsName fs n e in
      let (l, rest, all) = map_items-ShowsNames xs ns (suc k) h in
      (gs ∷ l, map_items-ok p (shown_entry p) (obj fs) xs same rest, (shows, all))
  map_items-ShowsNames _ _ k h = absurd h

  -- Let the storage hold entries of names for the wallet. Then `loadMyDomains` returns, the rows of the page show
  -- these names in their order, each with its status and its address, and the
  -- storage, the wallet and the transaction identifier are as they were.
  pub load_my_domains-ShowsNames :
      (c : ℕ) (m : Text) (ns : List Name) (s : WalletPage)
      → s.shared.wallet.id ≡ str (c ∷ m)
      → Reads p s.shared.browser (c ∷ m) ns
      → let out = load_my_domains p s in
        (out.0 ≡ ok tt)
        × ShowsNames out.1.my_domains ns
        × (out.1.shared ≡ s.shared)
        × (out.1.last_tx_id ≡ s.last_tx_id)
  unfolding load_my_domains in_browser within get_pending_domains read_list template truthy ◌>>=◌
      show_rows
  load_my_domains-ShowsNames c m ns s id (xs, e, h) =
      let (l, same, shows) = map_items-ShowsNames xs ns s.next_row h in
      rw (id, e, same) (refl, shows, refl, refl)
