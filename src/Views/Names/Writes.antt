-- ===== src/Views/Names/Writes.antt =====
-- The writes to the lists of names.
use namecoin.Prelude.{ap, Bool-cases, inl, inr, ◌∙◌, List, [], map, if◌then◌else◌}
use namecoin.Js.Text.{Text, text_eq}
use namecoin.Js.Value.{Value, Items, arr, nil}
use namecoin.Js.Effect.{Exception, Result, ◌>>=◌}
use namecoin.Js.Effect.Sustains.{Sustains}
use namecoin.Js.Platform.{Platform, Browser, IsJson}
use namecoin.Js.Storage.{lookup, remove_item}
use namecoin.Js.Storage.Laws.{lookup-without}
use namecoin.Utils.DomainStorage.{
  pending_key, read_list, get_pending_domains, save_pending_domain, remove_pending_domain,
  clear_all_pending_domains,
}
use namecoin.Utils.DomainStorage.Laws.{
  Writes, save_pending_domain-Writes, write_list-Writes, remove_pending_domain-Removed,
}
use namecoin.Utils.DomainStorage.Isolation.{pending_key-eq, run_call, clear_all-names_of}
use namecoin.Views.WalletPage.Names.{array_of, rewrite_names, rewrite_unread}
use namecoin.Views.WalletPage.Reveal.{revealed_entry, renewed_entry}
use namecoin.Views.Life.{
  Name, Action, committing, revealing, renewing, dropping, clearing, reveal_in, renew_in, NameStep,
  Reach, commit, reveal, renew, drop, clear, next,
}
use namecoin.Views.Names.{Frame, Shows, IsWell, names_of-lookup}
use namecoin.Views.Names.Changes.{
  Shows-plain, Shows-objects, Shows-Removed, pending_entry-IsEntry, Follows, renewed_entry-Follows,
  revealed_entry-Follows, map_items-Shows, map_items-unread,
}

module _ (p : Platform) (start : Frame) (json : IsJson p) where
  -- A wallet's list is written: the invariant needs a step there, and nothing else changes.
  Writes-IsWell :
      (m : Text) (xs : Items) (ms : List Name) (b : Browser) (out : Result (Unit {0}) × Browser)
      → Shows xs ms
      → Reach start.permits (start.names m) ms
      → Writes p (pending_key m) (arr xs) b out
      → IsWell p start b
      → IsWell p start out.1
  unfolding get_pending_domains
  Writes-IsWell m xs ms b out shows reached (inl (e, stored)) h = record {
    list = λ w. elim (Bool-cases (text_eq (pending_key m) (pending_key w))) [
      | inl same ↦ rw (← pending_key-eq m w same) (ms, (xs, stored.read, shows), reached)
      | inr other ↦
          let (ks, (ys, e', k), r) = h.list w in
          (ks, (ys, names_of-lookup p w b out.1 (stored.others (pending_key w) other) ∙ e', k), r)
    ];
  }
  Writes-IsWell m xs ms b out shows reached (inr (e, same, quiet)) h = record {
    list = λ w.
        let (ks, (ys, e', k), r) = h.list w in
        (ks, (ys, names_of-lookup p w b out.1 (ap (lookup (pending_key w)) same) ∙ e', k), r);
  }

  pub save_pending_domain-Sustains :
      (m domain salt commitment txid : Text)
      → start.permits (committing domain)
      → Sustains (IsWell p start) (save_pending_domain p m domain salt commitment txid)
  save_pending_domain-Sustains m domain salt commitment txid may = record {
    after = λ {s = b} h.
        let (ns, (xs, e, k), r) = h.list m in
        Writes-IsWell m _ _ b _
          (pending_entry-IsEntry domain salt commitment txid (p.now b.asked) xs ns k)
          (next r may (commit domain salt txid))
          (save_pending_domain-Writes p json m b xs e (Shows-plain xs ns k) domain salt commitment
            txid)
          h;
  }

  pub remove_pending_domain-Sustains :
      (m domain : Text)
      → start.permits (dropping domain)
      → Sustains (IsWell p start) (remove_pending_domain p m domain)
  remove_pending_domain-Sustains m domain may = record {
    after = λ {s = b} h.
        let (ns, (xs, e, k), r) = h.list m in
        let (ys, removed, w) =
          remove_pending_domain-Removed p json m b xs e (Shows-plain xs ns k)
            (Shows-objects xs ns k) domain in
        Writes-IsWell m ys _ b _ (Shows-Removed domain ns removed k) (next r may (drop domain)) w h;
  }

  rewrite_names-Sustains :
      {a : Action} (m d : Text) (f : Value → Value) (g : Name → Name)
      → Follows f g
      → start.permits a
      → ((ns : List Name) → NameStep ns a (map (λ n. if text_eq n.domain d then g n else n) ns))
      → Sustains (IsWell p start) (rewrite_names p m d f)
  unfolding rewrite_names get_pending_domains read_list ◌>>=◌
  rewrite_names-Sustains m d f g follow may step = record {
    after = λ {s = b} h.
        let (ns, (xs, e, k), r) = h.list m in
        let (ys, e', n) = map_items-Shows p d f g xs ns follow k in
        rw (e, e')
          (Writes-IsWell m (array_of ys) _ b _ n (next r may (step ns))
            (write_list-Writes p json (pending_key m) (arr (array_of ys)) b
              (Shows-plain (array_of ys) _ n))
            h);
  }

  pub unread-Sustains :
      (m d : Text) (x : Exception) → Sustains (IsWell p start) (rewrite_unread p m d x)
  unfolding rewrite_unread get_pending_domains read_list ◌>>=◌
  unread-Sustains m d x = record {
    after = λ {s = b} h.
        let (ns, (xs, e, k), r) = h.list m in
        elim (map_items-unread p d x xs ns k) [
          | inl (ys, e', n) ↦
              rw (e, e')
                (Writes-IsWell m (array_of ys) _ b _ n r
                  (write_list-Writes p json (pending_key m) (arr (array_of ys)) b
                    (Shows-plain (array_of ys) _ n))
                  h)
          | inr (y, e') ↦ rw (e, e') h
        ];
  }

  pub reveal-Sustains :
      (m name ip : Text)
      → start.permits (revealing name ip)
      → Sustains (IsWell p start) (rewrite_names p m name (revealed_entry ip))
  unfolding reveal_in
  reveal-Sustains m name ip may =
      rewrite_names-Sustains m name (revealed_entry ip) _ (revealed_entry-Follows ip) may
        (λ ns. reveal name ip)

  pub renew-Sustains :
      (m name ip : Text)
      → start.permits (renewing name ip)
      → Sustains (IsWell p start) (rewrite_names p m name (renewed_entry ip))
  unfolding renew_in
  renew-Sustains m name ip may =
      rewrite_names-Sustains m name (renewed_entry ip) _ (renewed_entry-Follows ip) may
        (λ ns. renew name ip)

  pub clear_all-Sustains :
      (m : Text) → start.permits clearing → Sustains (IsWell p start) (clear_all_pending_domains m)
  unfolding clear_all_pending_domains run_call remove_item
  clear_all-Sustains m may = record {
    after = λ {s = b} h. record {
      list = λ w. elim (Bool-cases (text_eq (pending_key m) (pending_key w))) [
        | inl same ↦
            let (ns, reads, r) = h.list m in
            rw (← pending_key-eq m w same)
              ([], (nil, clear_all-names_of p m b json.parse_brackets, tt), next r may clear)
        | inr other ↦
            let (ns, (ys, e, k), r) = h.list w in
            (
              ns,
              (
                ys,
                names_of-lookup p w b (clear_all_pending_domains m b).1 (rw (lookup-without, other))
                    ∙ e,
                k,
              ),
              r,
            )
      ];
    };
  }
