-- ===== src/Tests/Events.antt =====
-- The wallet page and the forms at concrete inputs.
use namecoin.Prelude.{refl, false, none, [], ◌∷◌}
use namecoin.Js.Text.{js, text_eq}
use namecoin.Js.Value.{null, str, bool, end, field, get_field}
use namecoin.Composables.UseTransaction.{idle}
use namecoin.Components.DomainCreator.{Creator}
use namecoin.Views.Home.{Home, connect}
use namecoin.Views.Home.Laws.{ConnectEnds, connect-ends}
use namecoin.Views.WalletPage.{WalletPage, Row}
use namecoin.Views.WalletPage.Reveal.{handle_first_update, handle_update}
use namecoin.Views.Rows.{AtRest, handlers-AtRest}
use namecoin.Tests.Node.{node, fresh}
use namecoin.Tests.Pages.{filled}

abbrev pub committed : Row
committed = record {
  key = 3;
  entry = field (js "status") (str (js "pending")) (
      field (js "domain") (str (js "a.com")) (
        field (js "revealIp") (str (js "127.0.0.1"))
          (field (js "isRevealing") (bool false) (field (js "isUpdating") (bool false) end))));
}

abbrev pub creator : Creator
creator = record {
  shared = record {
    browser = fresh;
    current = none;
    is_processing = false;
    status = idle;
    error_text = none;
    history = [];
  };
  wallet_id = str (109 ∷ []);
  domain_name = 97 ∷ [];
  salt = 97 ∷ [];
  fee = null;
  hashed_value = 97 ∷ [];
  error_text = [];
  emitted = [];
  alerts = [];
}

abbrev home : Home
home = record { browser = fresh; proxy_addr = js "127.0.0.1:8080"; error_text = []; routes = [] }

connect-ends_example : ConnectEnds node home (connect node home)
connect-ends_example = connect-ends node home

abbrev pub listed : WalletPage
listed = record filled { my_domains = committed ∷ [] }

listed-AtRest : AtRest 3 (js "isRevealing") listed × AtRest 3 (js "isUpdating") listed
unfolding get_field text_eq js
listed-AtRest = (((λ e. refl), tt), ((λ e. refl), tt))

handlers-AtRest_example :
    AtRest 3 (js "isRevealing") (handle_first_update node committed listed).1
    × AtRest 3 (js "isUpdating") (handle_update node committed listed).1
handlers-AtRest_example = handlers-AtRest node committed listed listed-AtRest.0 listed-AtRest.1
