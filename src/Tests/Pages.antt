-- ===== src/Tests/Pages.antt =====
-- The pages at concrete inputs.
use namecoin.Prelude.{true, false, ◌≡◌, inl, refl, List, none, [], ◌∷◌, ◌++◌}
use namecoin.Js.Text.{js}
use namecoin.Js.Value.{nan, null, str}
use namecoin.Js.Effect.{ok, thrown, describe}
use namecoin.Js.Platform.{get, rejected}
use namecoin.Gui.Page.{Host, Page, Flash, failure, create_flash, Input, Panels, Clock}
use namecoin.Gui.Sharing.{resolve}
use namecoin.Gui.Laws.{unicast, submit, complained, submit-empty}
use namecoin.Gui.Ends.{resolve-sends}
use namecoin.Gui.Failures.{complaint, submit-fails}
use namecoin.Tests.Node.{node, fresh}
use namecoin.Views.WalletPage.{WalletPage}

abbrev noon : Clock
noon = record { hours = 12; minutes = 0; seconds = 0 }

abbrev desk : Host
desk = record {
  platform = node;
  local_time = λ t. noon;
  time_of = λ v. noon;
  render_svg = λ s. ok s;
  decode_uri = λ s. ok s;
  parse_int = λ s. nan;
  own_entries = λ v. ok [];
  show_value = λ v. js "value";
}

abbrev bare : Panels
bare = record {
  messages = [];
  table = [];
  graphviz = [];
  packets = [];
  content = [];
  upload_result = [];
  search_all_result = [];
  search_first_result = [];
  resolve_result = [];
}

abbrev opened : Page
opened = record {
  browser = fresh;
  endpoint = js "http://peer";
  socket_addr = null;
  peer_label = [];
  socket_label = [];
  flashes = [];
  panels = bare;
  saved = [];
}

abbrev hello : Input
hello = record { name = js "message"; value = js "hello" }

abbrev nobody : Input
nobody = record { name = js "destination"; value = [] }

-- A message to nobody is not sent.
submit-empty_example : submit desk (unicast hello nobody) opened ≡ (ok tt, complained nobody opened)
unfolding js
submit-empty_example = submit-empty desk (unicast hello nobody) opened nobody refl

-- Every request is rejected.
abbrev offline : Host
offline = record desk {
  platform = record node { answer = λ t q. rejected (thrown (js "TypeError: Failed to fetch")) };
}

submit-fails_example :
    ((submit offline (unicast hello hello) opened).0 ≡ ok tt)
    × ((submit offline (unicast hello hello) opened).1.flashes
        ≡ []
          ++ create_flash failure (
              complaint (unicast hello hello)
              ++ describe (thrown (js "TypeError: Failed to fetch")))
            ∷ [])
unfolding node
submit-fails_example =
    submit-fails offline (thrown (js "TypeError: Failed to fetch")) (unicast hello hello) opened
      (λ w. (_, refl)) refl (λ q. inl refl)

resolve-sends_example :
    ((resolve desk nobody opened).1.browser.sent
      ≡ record {
        method = get;
        url = js "http://peer" ++ (js "/datasharing/naming?name=" ++ []);
        content_type = none;
        body = none;
      }
        ∷ [])
    × (more : List Flash) × ((resolve desk nobody opened).1.flashes
        ≡ (complained nobody opened).flashes ++ more)
unfolding js
resolve-sends_example = resolve-sends desk nobody opened

abbrev pub filled : WalletPage
filled = record {
  shared = record {
    browser = fresh;
    wallet = record {
      public_key = str (js "0a");
      private_key = str (js "0b");
      id = str (109 ∷ []);
    };
  };
  is_connected = true;
  connection_status = [];
  domain_name = js "a.com";
  ttl = null;
  is_processing = false;
  status = [];
  last_tx_id = null;
  domains = [];
  domains_loaded = true;
  my_domains = [];
  old_rows = [];
  next_row = 0;
  backend_miner_id = null;
}
