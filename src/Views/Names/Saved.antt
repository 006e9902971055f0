-- ===== src/Views/Names/Saved.antt =====
-- What the page and the storage hold after the node has taken a transaction.
use namecoin.Prelude.{
  ℕ, ◌≡◌, refl, ap, ◌∙◌, true, ◌⊎◌, inl, inr, List, [], ◌∷◌, ◌++◌, map, if◌then◌else◌,
}
use namecoin.Js.Text.{Text, js, text_eq}
use namecoin.Js.Value.{Value, Items, str, arr}
use namecoin.Js.Effect.{Result, ok, throw, error, gets, modify, within, ◌>>=◌, ◌>>◌}
use namecoin.Js.Platform.{Platform, Browser, Io, IsJson}
use namecoin.Js.Storage.{lookup}
use namecoin.Utils.DomainStorage.{pending_key, save_pending_domain, read_list, get_pending_domains}
use namecoin.Utils.DomainStorage.Laws.{Writes, write_list-Writes, save_pending_domain-Writes}
use namecoin.Services.Transaction.{Transaction}
use namecoin.Views.WalletPage.{WalletPage, Wp, Row, in_browser, set_status, template, is_success}
use namecoin.Views.WalletPage.Names.{array_of, rewrite_names, write_row, load_my_domains}
use namecoin.Views.WalletPage.Commit.{commit_sent}
use namecoin.Views.WalletPage.Reveal.{
  name_of, revealed_entry, renewed_entry, write_address, reveal_written, reveal_saved,
  update_written, updated,
}
use namecoin.Views.Life.{Name, pending, reveal_in, renew_in}
use namecoin.Views.Names.{Shows, Reads, names_of-lookup}
use namecoin.Views.Names.Changes.{
  Follows, Shows-plain, pending_entry-IsEntry, map_items-Shows, revealed_entry-Follows,
  renewed_entry-Follows,
}
use namecoin.Views.Names.Shown.{ShowsNames, load_my_domains-ShowsNames}

module _ (p : Platform) where
  -- The list of the wallet is written, or the quota has been met and it is as before.
  abbrev Ends : Text → List Name → List Name → Result (Unit {0}) × Browser → Type 0
  Ends m ns ms out =
      (out.0 ≡ ok tt) × Reads p out.1 m ms
      ⊎ (out.0 ≡ throw (error p.quota_exceeded)) × Reads p out.1 m ns

  -- The transaction is shown, the wallet's list has changed, and the page shows it; or the quota has been met.
  abbrev pub Shown :
      Text → Transaction → List Name → List Name → Result (Unit {0}) × WalletPage → Type 0
  Shown m tx ns ms out =
      (out.0 ≡ ok tt)
        × (out.1.last_tx_id ≡ tx.transaction_id)
        × Reads p out.1.shared.browser m ms
        × ShowsNames out.1.my_domains ms
      ⊎ (out.0 ≡ throw (error p.quota_exceeded)) × Reads p out.1.shared.browser m ns

module _ (p : Platform) (json : IsJson p) where
  Writes-Ends :
      (m : Text) (xs : Items) (ns ms : List Name) (b : Browser) (out : Result (Unit {0}) × Browser)
      → Shows xs ms
      → Reads p b m ns
      → Writes p (pending_key m) (arr xs) b out
      → Ends p m ns ms out
  unfolding get_pending_domains
  Writes-Ends m xs ns ms b out shows reads (inl (e, stored)) = inl (e, (xs, stored.read, shows))
  Writes-Ends m xs ns ms b out shows (ys, e', k) (inr (e, same, quiet)) =
      inr (e, (ys, names_of-lookup p m b out.1 (ap (lookup (pending_key m)) same) ∙ e', k))

  rewrite_names-Ends :
      (m d : Text) (f : Value → Value) (g : Name → Name) (ns : List Name) (b : Browser)
      → Follows f g
      → Reads p b m ns
      → Ends p m ns (map (λ n. if text_eq n.domain d then g n else n) ns) (rewrite_names p m d f b)
  unfolding rewrite_names get_pending_domains read_list ◌>>=◌
  rewrite_names-Ends m d f g ns b follow (xs, e, k) =
      let (ys, e', n) = map_items-Shows p d f g xs ns follow k in
      rw (e, e')
        (Writes-Ends m (array_of ys) ns _ b _ n (xs, e, k)
          (write_list-Writes p json (pending_key m) (arr (array_of ys)) b
            (Shows-plain (array_of ys) _ n)))

  save-Ends :
      (m domain salt commitment txid : Text) (ns : List Name) (b : Browser)
      → Reads p b m ns
      → Ends p m ns
          (ns ++ record { domain = domain; salt = salt; txid = txid; life = pending } ∷ [])
          (save_pending_domain p m domain salt commitment txid b)
  save-Ends m domain salt commitment txid ns b (xs, e, k) =
      Writes-Ends m _ ns _ b _
        (pending_entry-IsEntry domain salt commitment txid (p.now b.asked) xs ns k) (xs, e, k)
        (save_pending_domain-Writes p json m b xs e (Shows-plain xs ns k) domain salt commitment
          txid)

  module _ (c : ℕ) (m : Text) (tx : Transaction) where
    load-Shown :
        (ns ms : List Name) (s : WalletPage)
        → s.shared.wallet.id ≡ str (c ∷ m)
        → s.last_tx_id ≡ tx.transaction_id
        → Reads p s.shared.browser (c ∷ m) ms
        → Shown p (c ∷ m) tx ns ms (load_my_domains p s)
    load-Shown ns ms s id shown reads =
        let (done, shows, same, last) = load_my_domains-ShowsNames p c m ms s id reads in
        inl (done, last ∙ shown, rw same reads, shows)

    -- What follows a write to the wallet's list, up to the list that is loaded again.
    write-Shown :
        (w : Io (Unit {0})) (k : Wp (Unit {0})) (between : WalletPage → WalletPage)
        (ns ms : List Name) (s : WalletPage)
        → ((t : WalletPage) → k t ≡ load_my_domains p (between t))
        → ((t : WalletPage) → (between t).shared ≡ t.shared)
        → ((t : WalletPage) → (between t).last_tx_id ≡ t.last_tx_id)
        → s.shared.wallet.id ≡ str (c ∷ m)
        → s.last_tx_id ≡ tx.transaction_id
        → Ends p (c ∷ m) ns ms (w s.shared.browser)
        → Shown p (c ∷ m) tx ns ms ((in_browser w >> k) s)
    unfolding in_browser within ◌>>=◌
    write-Shown w k between ns ms s loads shared last id shown (inl (e, after)) =
        let t : WalletPage = record s {
          shared = record s.shared { browser = (w s.shared.browser).1 };
        } in
        rw (e, loads t)
          (load-Shown ns ms (between t) (rw (shared t) id) (last t ∙ shown) (rw (shared t) after))
    write-Shown w k between ns ms s loads shared last id shown (inr (e, before)) =
        inr (rw e refl, rw e before)

  module _ (c : ℕ) (m : Text) (ns : List Name) (row : Row) (ip : Text) (tx : Transaction)
      (s : WalletPage) (id : s.shared.wallet.id ≡ str (c ∷ m))
      (reads : Reads p s.shared.browser (c ∷ m) ns) where
    reveal_saved-Shown :
        Shown p
          (c ∷ m)
          tx
          ns
          (map (reveal_in (name_of p row) ip) ns)
          (reveal_saved p (str (c ∷ m)) row ip tx s)
    unfolding reveal_saved reveal_written write_address template set_status modify ◌>>=◌ reveal_in
    reveal_saved-Shown =
        write-Shown c m tx _ _ (λ t. t) ns _ _ (λ t. refl) (λ t. refl) (λ t. refl) id refl
          (rewrite_names-Ends (c ∷ m) (name_of p row) (revealed_entry ip) _ ns s.shared.browser
            (revealed_entry-Follows ip) reads)

    updated-Shown :
        Shown p
          (c ∷ m)
          tx
          ns
          (map (renew_in (name_of p row) ip) ns)
          (updated p (str (c ∷ m)) row ip tx s)
    unfolding updated update_written write_address template set_status modify ◌>>=◌ renew_in
        write_row
    updated-Shown =
        write-Shown c m tx _ _ (write_row row.key (js "newIp") (str [])) ns _ _ (λ t. refl)
          (λ t. refl) (λ t. refl) id refl
          (rewrite_names-Ends (c ∷ m) (name_of p row) (renewed_entry ip) _ ns s.shared.browser
            (renewed_entry-Follows ip) reads)

  commit_sent-Shown :
      (c : ℕ) (m salt hashed : Text) (ns : List Name) (tx : Transaction) (v : Value)
      (s : WalletPage)
      → s.shared.wallet.id ≡ str (c ∷ m)
      → is_success v ≡ true
      → Reads p s.shared.browser (c ∷ m) ns
      → let named : Name = record {
        domain = s.domain_name;
        salt = salt;
        txid = template p tx.transaction_id;
        life = pending;
      } in
        Shown p (c ∷ m) tx ns (ns ++ named ∷ []) (commit_sent p (str (c ∷ m)) salt hashed tx v s)
  unfolding commit_sent template set_status modify ◌>>=◌ gets
  commit_sent-Shown c m salt hashed ns tx v s id success reads = rw success (
      write-Shown c m tx _ _ (λ t. record t { status = _; domain_name = [] }) ns _ _ (λ t. refl)
        (λ t. refl) (λ t. refl) id refl
        (save-Ends (c ∷ m) s.domain_name salt hashed (template p tx.transaction_id) ns
          s.shared.browser reads))

  -- Let `JSON.parse` read back what `JSON.stringify` wrote, let a wallet be there, with the entries of names in the
  -- storage, and let the node have taken a transaction. After a commitment, those names and the committed one as
  -- pending are in the storage, in this order; after a reveal with an address, the names of that domain are
  -- revealed with it; after an update with an address, the revealed names of that domain have it. The page
  -- shows these names, with their status and address, and the identifier of the transaction. Otherwise the
  -- quota of the storage has been met, which is thrown, and the storage holds the entries that it held.
  pub sent-Shown :
      (c : ℕ) (m salt hashed ip : Text) (ns : List Name) (row : Row) (tx : Transaction) (v : Value)
      (s : WalletPage)
      → s.shared.wallet.id ≡ str (c ∷ m)
      → is_success v ≡ true
      → Reads p s.shared.browser (c ∷ m) ns
      → let wallet = str (c ∷ m) in
        let named : Name = record {
          domain = s.domain_name;
          salt = salt;
          txid = template p tx.transaction_id;
          life = pending;
        } in
        Shown p (c ∷ m) tx ns (ns ++ named ∷ []) (commit_sent p wallet salt hashed tx v s)
        × Shown p
            (c ∷ m)
            tx
            ns
            (map (reveal_in (name_of p row) ip) ns)
            (reveal_saved p wallet row ip tx s)
        × Shown p
            (c ∷ m)
            tx
            ns
            (map (renew_in (name_of p row) ip) ns)
            (updated p wallet row ip tx s)
  sent-Shown c m salt hashed ip ns row tx v s id success reads = (
    commit_sent-Shown c m salt hashed ns tx v s id success reads,
    reveal_saved-Shown c m ns row ip tx s id reads,
    updated-Shown c m ns row ip tx s id reads,
  )
