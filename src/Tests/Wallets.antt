-- ===== src/Tests/Wallets.antt =====
-- Wallets at concrete inputs.
use namecoin.Prelude.{suc, ◌≡◌, ◌↔◌, refl, true}
use namecoin.Js.Text.{Text, js}
use namecoin.Js.Value.{Value, str, bool, obj, end, truthy}
use namecoin.Js.Effect.{ok}
use namecoin.Utils.Hex.{hex_to_bytes}
use namecoin.Utils.Hash.{sha256, bytes_input}
use namecoin.Utils.Hash.Laws.{IsHexOf}
use namecoin.Utils.Validation.{is_valid_wallet_id}
use namecoin.Services.Wallet.{
  HexKeys, generate_key_pair, derive_wallet_id, property, loaded, import_wallet_from_file,
}
use namecoin.Services.Wallet.Laws.{derive_wallet_id-generated, import_wallet_from_file_iff}
use namecoin.Composables.UseWallet.{WalletRef, WalletState, no_wallet, create_wallet, load_wallet}
use namecoin.Composables.UseWallet.Laws.{load_wallet-create}
use namecoin.Tests.Node.{node, node-IsStandard, node-IsJson, node-IsNacl, fresh}

abbrev opened : WalletState
opened = record { browser = fresh; wallet = no_wallet }

derive_wallet_id-generated_example :
    (keys : HexKeys) × (id : Text) × (generate_key_pair node fresh
      ≡ (ok keys, record fresh { asked = suc fresh.asked }))
    × (derive_wallet_id node (str keys.public_key) ≡ ok (str id))
    × (sha256 node (bytes_input (hex_to_bytes keys.public_key)) ≡ ok id)
    × IsHexOf 32 id
    × (is_valid_wallet_id (str id) ≡ bool true)
derive_wallet_id-generated_example =
    derive_wallet_id-generated node node-IsStandard node-IsNacl fresh

import_wallet_from_file_iff_example :
    (import_wallet_from_file node (loaded (js "{}")) ≡ ok (obj end)) ↔ (
      (text : Text) × (loaded (js "{}") ≡ loaded text)
      × (node.parse text ≡ ok (obj end))
      × ((k : Value) × (property node (js "publicKey") (obj end) ≡ ok k) × (truthy k ≡ true))
      × ((l : Value) × (property node (js "privateKey") (obj end) ≡ ok l) × (truthy l ≡ true)))
import_wallet_from_file_iff_example = import_wallet_from_file_iff node (loaded (js "{}")) (obj end)

load_wallet-create_example :
    (w : WalletRef) × (t : WalletState) × (create_wallet node opened ≡ (ok w, t))
    × (t.wallet ≡ w)
    × (derive_wallet_id node w.public_key ≡ ok w.id)
    × (load_wallet node (record t { wallet = no_wallet }) ≡ (ok true, t))
unfolding node
load_wallet-create_example =
    load_wallet-create node node-IsJson node-IsStandard node-IsNacl opened
      (λ keys b t made written. refl)
