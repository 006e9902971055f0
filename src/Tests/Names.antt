-- ===== src/Tests/Names.antt =====
-- The lists of names and the storage at concrete inputs.
use namecoin.Prelude.{◌≡◌, ◌≢◌, refl, [], ◌∷◌}
use namecoin.Js.Text.{js, text_eq}
use namecoin.Js.Value.{Value, Items, arr, nil, cons, IsPlainItems}
use namecoin.Js.Effect.{ok}
use namecoin.Js.Platform.{Browser}
use namecoin.Js.Storage.{lookup}
use namecoin.Utils.LocalStorage.{snoc}
use namecoin.Utils.DomainStorage.{
  pending_key, pending_entry, save_pending_domain, update_domain_status, remove_pending_domain,
  get_pending_domains, text_or,
}
use namecoin.Utils.DomainStorage.Laws.{
  names_of, Writes, AllObjects, Updated, Removed, save_pending_domain-Writes,
  update_domain_status-Updated, remove_pending_domain-Removed,
}
use namecoin.Utils.DomainStorage.Isolation.{remove, run_call, run_call-names_of}
use namecoin.Tests.Codec.{to_json}
use namecoin.Tests.Node.{node, node-IsJson, fresh}

abbrev entry : Value
entry = pending_entry (js "a.bit") (js "07") (js "c0") (js "t1") 5

-- A wallet with one name.
abbrev one_name : Browser
one_name = record fresh { storage = (pending_key (js "me"), to_json (arr (cons entry nil))) ∷ [] }

one_name-read : names_of node (js "me") one_name ≡ ok (arr (cons entry nil))
unfolding node get_pending_domains pending_key js text_eq lookup text_or pending_entry
one_name-read = refl

plain_entries : IsPlainItems (cons entry nil)
unfolding pending_entry
plain_entries = ((tt, (tt, (tt, (tt, (tt, (tt, tt)))))), tt)

object_entries : AllObjects (cons entry nil)
unfolding pending_entry
object_entries = tt

save_pending_domain-Writes_example :
    Writes node
      (pending_key (js "me"))
      (arr (
        snoc
          (cons entry nil)
          (pending_entry (js "b.bit") (js "08") (js "c1") (js "t2") (node.now 7))))
      one_name
      (save_pending_domain node (js "me") (js "b.bit") (js "08") (js "c1") (js "t2") one_name)
save_pending_domain-Writes_example =
    save_pending_domain-Writes node node-IsJson (js "me") one_name (cons entry nil) one_name-read
      plain_entries (js "b.bit") (js "08") (js "c1") (js "t2")

update_domain_status-Updated_example :
    (ys : Items) × Updated (js "a.bit") (js "revealed") (cons entry nil) ys
    × Writes node
        (pending_key (js "me"))
        (arr ys)
        one_name
        (update_domain_status node (js "me") (js "a.bit") (js "revealed") one_name)
update_domain_status-Updated_example =
    update_domain_status-Updated node node-IsJson (js "me") one_name (cons entry nil) one_name-read
      plain_entries object_entries (js "a.bit") (js "revealed")

remove_pending_domain-Removed_example :
    (ys : Items) × Removed (js "a.bit") (cons entry nil) ys
    × Writes node
        (pending_key (js "me"))
        (arr ys)
        one_name
        (remove_pending_domain node (js "me") (js "a.bit") one_name)
remove_pending_domain-Removed_example =
    remove_pending_domain-Removed node node-IsJson (js "me") one_name (cons entry nil) one_name-read
      plain_entries object_entries (js "a.bit")

me_not_you : js "me" ≢ js "you"
unfolding js
me_not_you e = cc e

run_call-names_of_example :
    names_of node (js "you") (run_call node (js "me") (remove (js "a.bit")) one_name).1
    ≡ names_of node (js "you") one_name
run_call-names_of_example =
    run_call-names_of node (js "me") (js "you") (remove (js "a.bit")) one_name me_not_you
