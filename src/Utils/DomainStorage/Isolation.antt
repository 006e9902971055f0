-- ===== src/Utils/DomainStorage/Isolation.antt =====
-- The lists of different wallets do not touch each other.
use namecoin.Prelude.{◌≡◌, ◌≢◌, refl, true, false, Bool-cases, inl, inr}
use namecoin.Js.Text.{Text, js, text_eq, text_eq_sound, text_eq_refl}
use namecoin.Js.Value.{Value, arr, nil}
use namecoin.Js.Effect.{ok, Result-cases, ◌>>=◌}
use namecoin.Js.Effect.Preserves.{Preserves, preserves_rules}
use namecoin.Js.Platform.{Platform, Browser, Io, ask}
use namecoin.Js.Storage.{lookup, remove_item}
use namecoin.Js.Storage.Laws.{lookup-set, lookup-without}
use namecoin.Utils.DomainStorage.{
  pending_key, read_list, write_list, text_or, get_pending_domains, save_pending_domain,
  update_domain_status, remove_pending_domain, clear_all_pending_domains,
}
use namecoin.Utils.DomainStorage.Laws.{names_of}

-- The calls that write to the list of a wallet.
pub data PendingCall : Type 0 where
  save : Text → Text → Text → Text → PendingCall
  update : Text → Text → PendingCall
  remove : Text → PendingCall
  clear_all : PendingCall

unfoldable pub run_call : Platform → Text → PendingCall → Io (Unit {0})
run_call p m (save domain salt commitment txid) =
    save_pending_domain p m domain salt commitment txid
run_call p m (update domain status) = update_domain_status p m domain status
run_call p m (remove domain) = remove_pending_domain p m domain
run_call p m clear_all = clear_all_pending_domains m

pub pending_key-eq : (m m' : Text) → text_eq (pending_key m) (pending_key m') ≡ true → m ≡ m'
unfolding pending_key js text_eq
pending_key-eq m m' h = text_eq_sound m m' h

ask-Preserves : (p : Platform) (j : Text) → Preserves (λ b. lookup j b.storage) (ask p.now)
unfolding ask
ask-Preserves p j = record { at = λ b. refl }

module _ (p : Platform) (key j : Text) (other : text_eq key j ≡ false) where
  write_list-Preserves : (v : Value) → Preserves (λ b. lookup j b.storage) (write_list p key v)
  unfolding write_list
  write_list-Preserves v = record {
    at = λ b. elim (Result-cases (p.stringify v)) [
      | inl (s, e) ↦ elim (Bool-cases (p.fits b.storage key s)) [
        | inl room ↦ rw (e, room, lookup-set, other)
        | inr full ↦ rw (e, full)
      ]
      | inr (x, e) ↦ rw e
    ];
  }

  read_list-Preserves : Preserves (λ b. lookup j b.storage) (read_list p key)
  unfolding read_list
  read_list-Preserves = record { at = λ b. refl }

remove-Preserves :
    (key j : Text) → text_eq key j ≡ false → Preserves (λ b. lookup j b.storage) (remove_item key)
unfolding remove_item
remove-Preserves key j other = record { at = λ b. rw (lookup-without, other) }

ruleset list_rules =
    (preserves_rules, write_list-Preserves, read_list-Preserves, ask-Preserves, remove-Preserves)

run_call-Preserves :
    (p : Platform) (m : Text) (call : PendingCall) (j : Text)
    → text_eq (pending_key m) j ≡ false
    → Preserves (λ b. lookup j b.storage) (run_call p m call)
unfolding run_call save_pending_domain update_domain_status remove_pending_domain
    clear_all_pending_domains
run_call-Preserves p m (save domain salt commitment txid) j h = search list_rules depth 9
run_call-Preserves p m (update domain status) j h = search list_rules depth 9
run_call-Preserves p m (remove domain) j h = search list_rules depth 9
run_call-Preserves p m clear_all j h = search list_rules depth 9

names_of-lookup :
    (p : Platform) (m : Text) (b b' : Browser)
    → lookup (pending_key m) b'.storage ≡ lookup (pending_key m) b.storage
    → names_of p m b' ≡ names_of p m b
unfolding get_pending_domains read_list
names_of-lookup p m b b' e = rw e

-- Whatever the storage holds, a call for one wallet does not change what `getPendingDomains` returns
-- for another, whether the call returns or throws.
pub run_call-names_of :
    (p : Platform) (m m' : Text) (call : PendingCall) (b : Browser)
    → m ≢ m'
    → names_of p m' (run_call p m call b).1 ≡ names_of p m' b
run_call-names_of p m m' call b ne = elim (Bool-cases (text_eq (pending_key m) (pending_key m'))) [
  | inl e ↦ absurd (ne (pending_key-eq m m' e))
  | inr e ↦
      names_of-lookup p m' b (run_call p m call b).1
        ((run_call-Preserves p m call (pending_key m') e).at b)
]

-- After `clearAllPendingDomains` a wallet has the empty list, whatever was stored before.
pub clear_all-names_of :
    (p : Platform) (m : Text) (b : Browser)
    → p.parse (js "[]") ≡ ok (arr nil)
    → names_of p m (run_call p m clear_all b).1 ≡ ok (arr nil)
unfolding run_call clear_all_pending_domains get_pending_domains read_list remove_item ◌>>=◌
clear_all-names_of p m b h = rw (lookup-without, text_eq_refl, text_or) h
