-- ===== src/Views/Names.antt =====
-- The invariant of the names that the wallets keep in the storage.
mod Leaves
mod Changes
mod Writes
pub mod Reachable
pub mod Shown
pub mod Saved
use namecoin.Prelude.{◌≡◌, false, is_empty, ◌∙◌, List, [], ◌∷◌}
use namecoin.Js.Text.{Text, js}
use namecoin.Js.Value.{Items, Fields, str, arr, obj, nil, cons, get_field, IsPlainFields}
use namecoin.Js.Effect.{ok}
use namecoin.Js.Effect.Sustains.{Sustains}
use namecoin.Js.Platform.{Platform, Browser, Io}
use namecoin.Js.Storage.{lookup}
use namecoin.Utils.DomainStorage.{pending_key, get_pending_domains, read_list}
use namecoin.Utils.DomainStorage.Laws.{names_of}
use namecoin.Views.Life.{Name, Action, Life, pending, revealed, Reach}

abbrev pub HasLife : Fields → Life → Type 0
HasLife fs pending = get_field (js "status") fs ≡ str (js "pending")
HasLife fs (revealed ip) =
    (get_field (js "status") fs ≡ str (js "revealed")) × (get_field (js "ip") fs ≡ str ip)

-- The entry of a name in the storage.
pub record IsEntry (fs : Fields) (n : Name) : Type 0 where
  pub named : get_field (js "domain") fs ≡ str n.domain
  pub salted : get_field (js "salt") fs ≡ str n.salt
  pub committed : get_field (js "txid") fs ≡ str n.txid
  pub life : HasLife fs n.life
  pub plain : IsPlainFields fs

-- The array holds the entries of the names, in their order.
abbrev pub Shows : Items → List Name → Type 0
Shows nil [] = Unit
Shows (cons (obj fs) xs) (n ∷ ns) = IsEntry fs n × Shows xs ns
Shows _ _ = ⊥

-- What a wallet reads are the entries of these names.
abbrev pub Reads : Platform → Browser → Text → List Name → Type 0
Reads p b m ns = (xs : Items) × (names_of p m b ≡ ok (arr xs)) × Shows xs ns

-- The names of each wallet at the start, and what may be done to them.
pub record Frame : Type 1 where
  pub names : Text → List Name
  pub permits : Action → Type 0

-- Every wallet reads the entries of names that come, by permitted actions, from those of the start.
pub record IsWell (p : Platform) (start : Frame) (b : Browser) : Type 0 where
  pub list : (m : Text) → (ns : List Name) × Reads p b m ns × Reach start.permits (start.names m) ns

pub names_of-lookup :
    (p : Platform) (m : Text) (b b' : Browser)
    → lookup (pending_key m) b'.storage ≡ lookup (pending_key m) b.storage
    → names_of p m b' ≡ names_of p m b
unfolding get_pending_domains read_list
names_of-lookup p m b b' e = rw e

-- Code that leaves these keys of the storage alone keeps the invariant.
pub IsWell-of_lookup :
    {A : Type 0} (p : Platform) (start : Frame) (m : Io A)
    → ((b : Browser) (w : Text)
        → lookup (pending_key w) (m b).1.storage ≡ lookup (pending_key w) b.storage)
    → Sustains (IsWell p start) m
IsWell-of_lookup p start m same = record {
  after = λ {s = b} h. record {
    list = λ w.
        let (ns, (xs, e, k), r) = h.list w in
        (ns, (xs, names_of-lookup p w b (m b).1 (same b w) ∙ e, k), r);
  };
}
