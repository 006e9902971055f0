-- ===== src/Views/Commit.antt =====
-- How the handlers of the wallet page end.
use namecoin.Prelude.{[], ℕ, ◌≢◌, ◌≡◌, refl, Bool, true, false, if◌then◌else◌, is_empty, ◌∷◌}
use namecoin.Js.Text.{Text, js}
use namecoin.Js.Value.{nil, truthy, arr, str}
use namecoin.Js.Storage.{remove_item}
use namecoin.Utils.DomainStorage.{clear_all_pending_domains}
use namecoin.Utils.DomainStorage.Isolation.{
  run_call, clear_all, clear_all-names_of, run_call-names_of,
}
use namecoin.Js.Effect.{Result, ok, throw, handle, catch_with, finally, modify, ◌>>=◌}
use namecoin.Js.Platform.{Platform}
use namecoin.Utils.DomainStorage.Laws.{names_of}
use namecoin.Views.WalletPage.{WalletPage, set_status, in_browser, template}
use namecoin.Views.WalletPage.Commit.{commit_steps, stop_processing, commit, handle_submit}
use namecoin.Views.WalletPage.Sending.{show_error}
use namecoin.Views.WalletPage.Names.{clear_pending_domains}
use namecoin.Composables.UseWallet.{is_wallet_loaded}

show_error-returns : (r : Result (Unit {0})) (s : WalletPage) → (handle (r, s) show_error).0 ≡ ok tt
unfolding show_error set_status modify
show_error-returns (ok tt) s = refl
show_error-returns (throw e) s = refl

abbrev Idle : Result (Unit {0}) × WalletPage → Type 0
Idle o = (o.0 ≡ ok tt) × (o.1.is_processing ≡ false)

commit-Idle : (p : Platform) (s : WalletPage) → Idle (commit p s)
unfolding commit finally stop_processing catch_with
commit-Idle p s =
    let (r, s') =
      commit_steps p (record s { is_processing = true; status = js "Creating commitment..." }) in
    (show_error-returns r s', refl)

guarded-Idle :
    (a b : Bool) (r : Result (Unit {0}) × WalletPage) (s : WalletPage)
    → Idle r
    → s.is_processing ≡ false
    → Idle (if a then (ok tt, s) else (if b then r else (ok tt, s)))
guarded-Idle true b r s k h = (refl, h)
guarded-Idle false true r s k h = k
guarded-Idle false false r s k h = (refl, h)

-- Whatever the node, the storage and the platform do, `handleSubmit` returns, and the page that was not
-- processing is not processing after it.
handle_submit-idle :
    (p : Platform) (s : WalletPage)
    → s.is_processing ≡ false
    → ((handle_submit p s).0 ≡ ok tt) × ((handle_submit p s).1.is_processing ≡ false)
unfolding handle_submit
handle_submit-idle p s h =
    guarded-Idle (is_empty s.domain_name) (is_wallet_loaded s.shared) (commit p s) s
      (commit-Idle p s) h

-- After a confirmed `clearPendingDomains` the wallet has no names, neither on the page nor in the
-- storage, and another wallet has the names it had.
pub clear_pending_domains-forgets :
    (p : Platform) (c : ℕ) (m other : Text) (s : WalletPage)
    → p.parse (js "[]") ≡ ok (arr nil)
    → s.shared.wallet.id ≡ str (c ∷ m)
    → c ∷ m ≢ other
    → let t = (clear_pending_domains p true s).1 in
      ((clear_pending_domains p true s).0 ≡ ok tt)
      × (t.my_domains ≡ [])
      × (names_of p (c ∷ m) t.shared.browser ≡ ok (arr nil))
      × (names_of p other t.shared.browser ≡ names_of p other s.shared.browser)
unfolding clear_pending_domains in_browser template ◌>>=◌ run_call clear_all_pending_domains
    remove_item truthy
clear_pending_domains-forgets p c m other s h e ne = rw e (
  refl,
  refl,
  clear_all-names_of p (c ∷ m) s.shared.browser h,
  run_call-names_of p (c ∷ m) other clear_all s.shared.browser ne,
)
