-- ===== src/Tests/Templates.antt =====
-- The templates at concrete inputs.
use namecoin.Prelude.{
  ◌≡◌, ◌↔◌, inl, refl, true, false, List, [], ◌∷◌, ◌++◌, if◌then◌else◌, not, is_empty,
}
use namecoin.Js.Text.{Text, js}
use namecoin.Js.Value.{Value, undefined, null, str, get_field}
use namecoin.Js.Effect.{Exception, ok, message}
use namecoin.Markup.{Vue, Among, offers, node_texts, click, enter_text, enter_value}
use namecoin.Composables.UseWallet.{is_wallet_loaded, no_wallet}
use namecoin.Views.Events.{reveal_name}
use namecoin.Views.WalletPage.Template.{wallet_view}
use namecoin.Views.Offered.{May}
use namecoin.Views.Offered.Page.{wallet_view-offers_iff}
use namecoin.Components.DomainCreator.{can_submit}
use namecoin.Components.DomainCreator.Template.{
  CreatorEvent, mount, submit, regenerate, watched, type_domain, type_fee, on_creator_events,
  creator_view, accepts,
}
use namecoin.Components.DomainCreator.Laws.{on_creator_events-never_emit}
use namecoin.Components.TransactionSigner.{Signer, handle_sign}
use namecoin.Components.TransactionSigner.Template.{transaction_object, details, signer_view}
use namecoin.Components.TransactionSigner.Laws.{Signed, details-texts, handle_sign-ends}
use namecoin.Components.WalletManager.{Manager}
use namecoin.Components.WalletManager.Template.{
  ManagerEvent, press_create, press_download, press_continue, manager_view, on_manager_event,
  on_manager_events,
}
use namecoin.Components.WalletManager.Laws.{download-offered}
use namecoin.Tests.Codec.{to_json}
use namecoin.Tests.Node.{node, fresh}
use namecoin.Tests.Events.{creator, committed, listed}
use namecoin.Tests.Transactions.{sample, start}

abbrev shown : Value → Text
shown undefined = []
shown null = []
shown (str t) = t
shown v = to_json v

abbrev vue : Vue
vue = record { display = shown; class_of = shown; meets = λ attributes t. not (is_empty t) }

wallet_view-offers_iff_example :
    Among (offers (wallet_view node vue listed)) (reveal_name committed)
    ↔ May node listed (reveal_name committed)
wallet_view-offers_iff_example = wallet_view-offers_iff node vue listed (reveal_name committed)

abbrev signer : Signer
signer = record { shared = start; private_key = js "0b"; is_signing = false; emitted = [] }

details-texts_example :
    node_texts (details vue (transaction_object sample))
    ≡ js "Type:"
      ∷ vue.display sample.type
      ∷ js "Source:"
      ∷ []
      ∷ js "Fee:"
      ∷ []
      ∷ js "Nonce:"
      ∷ []
      ∷ js "Transaction ID:"
      ∷ vue.display sample.transaction_id
      ∷ []
details-texts_example = details-texts vue sample refl

handle_sign-ends_example :
    ((handle_sign node signer).0 ≡ ok tt)
    × ((handle_sign node signer).1.is_signing ≡ false)
    × Signed node sample signer (handle_sign node signer).1
    × (offers (signer_view vue (transaction_object sample) (handle_sign node signer).1) ≡ [])
handle_sign-ends_example = handle_sign-ends node vue (transaction_object sample) signer sample refl

abbrev manager : Manager
manager = record {
  shared = record { browser = fresh; wallet = no_wallet };
  loading = false;
  show_keys = false;
  downloads = [];
  alerts = [];
  loaded_events = 0;
}

abbrev created : Manager
created = on_manager_events node (press_create ∷ []) manager

download_there : Among (offers (manager_view vue created)) press_download
unfolding on_manager_events on_manager_event offers manager_view
    namecoin.Components.WalletManager.Template.wallet_info
    namecoin.Components.WalletManager.create_new_wallet namecoin.Js.Effect.finally
    namecoin.Components.WalletManager.stop_loading namecoin.Js.Effect.catch_with
    namecoin.Js.Effect.◌>>=◌ namecoin.Components.WalletManager.in_shared
    namecoin.Composables.UseWallet.create_wallet namecoin.Composables.UseWallet.in_browser
    namecoin.Services.Wallet.generate_key_pair namecoin.Js.Platform.ask
    namecoin.Services.Wallet.derive_wallet_id namecoin.Js.Value.truthy
    namecoin.Utils.Hex.bytes_to_hex node namecoin.Utils.Hash.sha256
    namecoin.Services.Wallet.value_to_bytes namecoin.Services.Wallet.save_wallet
    namecoin.Utils.LocalStorage.save_wallet_data namecoin.Utils.LocalStorage.set_item
    namecoin.Js.Storage.set_item namecoin.Composables.UseWallet.set_wallet
download_there = inl refl

download-offered_example :
    (is_wallet_loaded created.shared ≡ true)
    × (created.loading ≡ false)
    × (offers (manager_view vue created) ≡ click press_download ∷ click press_continue ∷ [])
download-offered_example = download-offered node vue (press_create ∷ []) manager refl download_there

abbrev edits : List CreatorEvent
edits = mount ∷ type_domain (js "a.com") ∷ watched ∷ submit ∷ []

on_creator_events-never_emit_example :
    ((on_creator_events node edits creator).emitted ≡ creator.emitted)
    × (offers (creator_view vue (on_creator_events node edits creator))
        ≡ (if can_submit (on_creator_events node edits creator)
            then (if accepts vue (on_creator_events node edits creator)
                then click submit ∷ []
                else [])
            else [])
          ++ enter_text type_domain ∷ click regenerate ∷ enter_value type_fee ∷ [])
on_creator_events-never_emit_example = on_creator_events-never_emit node vue edits creator
