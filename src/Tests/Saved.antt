-- ===== src/Tests/Saved.antt =====
-- What the page shows after the node has taken a transaction, at concrete inputs.
use namecoin.Prelude.{◌≡◌, refl, true, List, [], ◌∷◌, ◌++◌, map}
use namecoin.Js.Text.{js, text_eq}
use namecoin.Js.Value.{Value, str, arr, nil, cons, obj, end, field, get_field, get_prop, truthy}
use namecoin.Js.Storage.{lookup}
use namecoin.Utils.DomainStorage.{pending_key, pending_entry, get_pending_domains, text_or, is_text}
use namecoin.Views.WalletPage.{WalletPage, template, is_success}
use namecoin.Views.WalletPage.Commit.{commit_sent}
use namecoin.Views.WalletPage.Reveal.{name_of, reveal_saved, updated}
use namecoin.Views.Life.{Name, pending, reveal_in, renew_in}
use namecoin.Views.Names.{Reads}
use namecoin.Views.Names.Saved.{Shown, sent-Shown}
use namecoin.Tests.Codec.{to_json}
use namecoin.Tests.Node.{node, node-IsJson, fresh}
use namecoin.Tests.Pages.{filled}
use namecoin.Tests.Events.{committed}
use namecoin.Tests.Transactions.{sample}

abbrev committed_entry : Value
committed_entry = pending_entry (js "a.com") (js "07") (js "c0") (js "t1") 5

abbrev committed_name : Name
committed_name = record { domain = js "a.com"; salt = js "07"; txid = js "t1"; life = pending }

-- A wallet whose storage holds the commitment to a name.
abbrev waiting_page : WalletPage
waiting_page = record filled {
  shared = record filled.shared {
    browser = record fresh {
      storage = (pending_key (109 ∷ []), to_json (arr (cons committed_entry nil))) ∷ [];
    };
  };
}

waiting_page-Reads : Reads node waiting_page.shared.browser (109 ∷ []) (committed_name ∷ [])
unfolding node get_pending_domains pending_key js text_eq lookup text_or pending_entry get_field
waiting_page-Reads = (
  cons committed_entry nil,
  refl,
  (
    record {
      named = refl;
      salted = refl;
      committed = refl;
      life = refl;
      plain = (tt, (tt, (tt, (tt, (tt, (tt, tt))))));
    },
    tt,
  ),
)

abbrev success : Value
success = obj (field (js "status") (str (js "success")) end)

is_success-success : is_success success ≡ true
unfolding is_success truthy get_prop get_field js text_eq is_text
is_success-success = refl

sent-Shown_example :
    let named : Name = record {
      domain = waiting_page.domain_name;
      salt = js "09";
      txid = template node sample.transaction_id;
      life = pending;
    } in
    let wallet = str (109 ∷ []) in
    let ns : List Name = committed_name ∷ [] in
    Shown node
      (109 ∷ [])
      sample
      ns
      (ns ++ named ∷ [])
      (commit_sent node wallet (js "09") (js "c1") sample success waiting_page)
    × Shown node
        (109 ∷ [])
        sample
        ns
        (map (reveal_in (name_of node committed) (js "127.0.0.1")) ns)
        (reveal_saved node wallet committed (js "127.0.0.1") sample waiting_page)
    × Shown node
        (109 ∷ [])
        sample
        ns
        (map (renew_in (name_of node committed) (js "127.0.0.1")) ns)
        (updated node wallet committed (js "127.0.0.1") sample waiting_page)
unfolding js
sent-Shown_example =
    sent-Shown node node-IsJson 109 [] (js "09") (js "c1") (js "127.0.0.1") (committed_name ∷ [])
      committed sample success waiting_page refl is_success-success waiting_page-Reads
