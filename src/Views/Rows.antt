-- ===== src/Views/Rows.antt =====
-- The rows of the wallet page, which `handleFirstUpdate` and `handleUpdate` mark while they run.
use namecoin.Prelude.{
  ℕ, ◌≡◌, refl, Bool, true, false, Bool-cases, inl, inr, List, [], ◌∷◌, All, ◌==◌, ==_iff, is_empty,
  if◌then◌else◌,
}
use namecoin.Js.Text.{Text, js, text_eq_refl}
use namecoin.Js.Value.{bool, get_field}
use namecoin.Js.Effect.{Result, ok, throw, Run, pure, finally, modify, lift, ◌>>=◌}
use namecoin.Js.Platform.{Platform}
use namecoin.Composables.UseWallet.{is_wallet_loaded}
use namecoin.Utils.DomainStorage.Laws.{get_field-set_field}
use namecoin.Views.WalletPage.{WalletPage, Row, set_status}
use namecoin.Views.WalletPage.Names.{write_rows, write_row}
use namecoin.Views.WalletPage.Reveal.{entered, reveal, renew, handle_first_update, handle_update}

-- A row with the key is not marked.
abbrev RowAtRest : ℕ → Text → Row → Type 0
RowAtRest k flag row = row.key ≡ k → get_field flag row.entry ≡ bool false

abbrev pub AtRest : ℕ → Text → WalletPage → Type 0
AtRest k flag s = All (RowAtRest k flag) s.my_domains

write_rows-AtRest :
    (k : ℕ) (flag : Text) (rows : List Row)
    → All (RowAtRest k flag) (write_rows k flag (bool false) rows)
unfolding write_rows
write_rows-AtRest k flag [] = tt
write_rows-AtRest k flag (row ∷ rows) = elim (Bool-cases (row.key == k)) [
  | inl e ↦
      rw e ((λ same. rw (get_field-set_field, text_eq_refl) refl), write_rows-AtRest k flag rows)
  | inr e ↦
      rw e
        ((λ same. let yes = (==_iff row.key k).1 same in absurd cc), write_rows-AtRest k flag rows)
]

reveal-AtRest :
    (p : Platform) (row : Row) (ip : Text) (s : WalletPage)
    → AtRest row.key (js "isRevealing") (reveal p row ip s).1
unfolding reveal finally write_row ◌>>=◌ set_status modify
reveal-AtRest p row ip s = write_rows-AtRest row.key (js "isRevealing") _

renew-AtRest :
    (p : Platform) (row : Row) (ip : Text) (s : WalletPage)
    → AtRest row.key (js "isUpdating") (renew p row ip s).1
unfolding renew finally write_row ◌>>=◌ set_status modify
renew-AtRest p row ip s = write_rows-AtRest row.key (js "isUpdating") _

-- The guards of the handlers, before code that ends with the rows at rest.
guarded-AtRest :
    (k : ℕ) (flag : Text) (loaded : Bool) (ip : Result Text) (go : Text → Run WalletPage (Unit {0}))
    (s : WalletPage)
    → ((t : Text) → AtRest k flag (go t s).1)
    → AtRest k flag s
    → AtRest k flag
        ((if loaded
            then lift ip
              >>= (λ t. if is_empty t then set_status (js "Please enter an IP address") else go t)
            else pure tt)
          s).1
unfolding lift ◌>>=◌ set_status modify
guarded-AtRest k flag false ip go s done h = h
guarded-AtRest k flag true (throw e) go s done h = h
guarded-AtRest k flag true (ok t) go s done h = elim (Bool-cases (is_empty t)) [
  | inl e ↦ rw e h
  | inr e ↦ rw e (done t)
]

-- If no row with the key of this row is marked as being revealed or as being updated, then none is left
-- marked as being revealed after `handleFirstUpdate` on it, or as being updated after `handleUpdate`,
-- whether they return early, succeed, fail or throw.
pub handlers-AtRest :
    (p : Platform) (row : Row) (s : WalletPage)
    → AtRest row.key (js "isRevealing") s
    → AtRest row.key (js "isUpdating") s
    → AtRest row.key (js "isRevealing") (handle_first_update p row s).1
      × AtRest row.key (js "isUpdating") (handle_update p row s).1
unfolding handle_first_update handle_update ◌>>=◌ is_wallet_loaded
handlers-AtRest p row s h h' = (
  guarded-AtRest row.key (js "isRevealing") (is_wallet_loaded s.shared)
      (entered p (get_field (js "revealIp") row.entry)) (reveal p row) s
      (λ t. reveal-AtRest p row t s) h,
  guarded-AtRest row.key (js "isUpdating") (is_wallet_loaded s.shared)
      (entered p (get_field (js "newIp") row.entry)) (renew p row) s (λ t. renew-AtRest p row t s)
      h',
)
