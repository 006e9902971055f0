-- ===== src/Views/Turns/Quiet.antt =====
-- The turns of the wallet page that do not write to the lists of names.
use namecoin.Prelude.{◌≡◌}
use namecoin.Js.Text.{Text}
use namecoin.Js.Value.{Value}
use namecoin.Js.Effect.Sustains.{Sustains, Sustains-gets}
use namecoin.Js.Effect.Async.{finally_async}
use namecoin.Js.Effect.Async.Endures.{
  Endures, Endures-finally, Endures-bind, Endures-lift_bind, Endures-now, endures_rules,
}
use namecoin.Js.Platform.{Platform, Browser}
use namecoin.Services.Wallet.{generate_key_pair, load_wallet}
use namecoin.Services.Api.{get_miner_id, fetch_registered_domains}
use namecoin.Services.Transaction.{Transaction}
use namecoin.Views.WalletPage.{WalletPage, template}
use namecoin.Views.WalletPage.Names.{load_my_domains}
use namecoin.Views.Life.{Action}
use namecoin.Views.Kept.{IsSigned, IsKept}
use namecoin.Views.Events.Quiet.{Well, handler_rules, load_my_domains-Sustains, set_wallet-Sustains}
use namecoin.Views.Turns.Names.{
  Turns, apply_spend_plan_turns, deliver_turns, sign_turns, send_signed_turns,
}
use namecoin.Views.Turns.Start.{
  create_wallet_turns, load_found_turns, load_wallet_turns, sync_turns, wallet_id_turns,
  press_create_turns, fetch_turns, mounted_turns,
}

pub finally-Turns :
    (Inv : Browser → Type 0) {A : Type 0} (m : Turns A) (f : WalletPage → WalletPage)
    → Endures (Well Inv) m
    → ((s : WalletPage) → (f s).shared.browser ≡ s.shared.browser)
    → Endures (Well Inv) (finally_async m f)
finally-Turns Inv m f h same = Endures-finally m f h (λ s k. record { holds = rw same k.holds })

pub ruleset turn_rules = (endures_rules, finally-Turns, handler_rules)

module _ (p : Platform) (Inv : Browser → Type 0) (permits : Action → Type 0)
    (kept : IsKept p Inv permits) where
  miner_id_here : Sustains Inv (get_miner_id p)
  miner_id_here = kept.miner_id

  registered_here : Sustains Inv (fetch_registered_domains p)
  registered_here = kept.registered

  key_pair_here : Sustains Inv (generate_key_pair p)
  key_pair_here = kept.key_pair

  stored_wallet_here : Sustains Inv (load_wallet p)
  stored_wallet_here = kept.stored_wallet

  names_here : Sustains (Well Inv) (load_my_domains p)
  names_here = load_my_domains-Sustains p Inv permits kept

  apply_spend_plan-Endures : (tx : Transaction) → Endures (Well Inv) (apply_spend_plan_turns p tx)
  unfolding apply_spend_plan_turns
  apply_spend_plan-Endures tx = search (turn_rules, kept.spend_plan) depth 12

  deliver-Endures :
      (tx : Transaction) (g t : Text)
      → IsSigned p tx g
      → Endures (Well Inv) (deliver_turns p tx g t)
  unfolding deliver_turns
  deliver-Endures tx g t signed = search (turn_rules, kept.send) depth 16

  sign-Endures : (funded : Transaction) (t : Text) → Endures (Well Inv) (sign_turns p funded t)
  unfolding sign_turns
  sign-Endures funded t = Endures-lift_bind _ _ (λ tx c. Endures-lift_bind _ _ (λ h e.
      Endures-bind _ _ (Endures-now _ (Sustains-gets _)) (λ key. Endures-lift_bind _ _ (λ g s.
        deliver-Endures tx g t (record {
          funded = funded;
          hash = h;
          key = template p key;
          is_complete = c;
          is_hash = e;
          is_signature = s;
        })))))

  pub send_signed-Endures :
      (kind : Text) (sender payload : Value) (t : Text)
      → Endures (Well Inv) (send_signed_turns p kind sender payload t)
  unfolding send_signed_turns
  send_signed-Endures kind sender payload t =
      search (turn_rules, apply_spend_plan-Endures, sign-Endures) depth 16

  create_wallet-Endures : Endures (Well Inv) (create_wallet_turns p)
  unfolding create_wallet_turns
  create_wallet-Endures =
      search (turn_rules, set_wallet-Sustains, key_pair_here, kept.store_wallet) depth 16

  load_found-Endures : (v : Value) → Endures (Well Inv) (load_found_turns p v)
  unfolding load_found_turns
  load_found-Endures v = search (turn_rules, set_wallet-Sustains) depth 16

  load_wallet-Endures : Endures (Well Inv) (load_wallet_turns p)
  unfolding load_wallet_turns
  load_wallet-Endures = search (turn_rules, stored_wallet_here, load_found-Endures) depth 12

  sync-Endures : Endures (Well Inv) (sync_turns p)
  unfolding sync_turns
  sync-Endures = search (turn_rules, kept.change_miner_id) depth 12

  pub wallet_id-Endures : (v : Value) → Endures (Well Inv) (wallet_id_turns p v)
  unfolding wallet_id_turns
  wallet_id-Endures v = search (turn_rules, sync-Endures)

  pub press_create-Endures : Endures (Well Inv) (press_create_turns p)
  unfolding press_create_turns
  press_create-Endures = search (turn_rules, create_wallet-Endures) depth 12

  pub fetch-Endures : Endures (Well Inv) (fetch_turns p)
  unfolding fetch_turns
  fetch-Endures = search (turn_rules, registered_here) depth 12

  pub mounted-Endures : Endures (Well Inv) (mounted_turns p)
  unfolding mounted_turns
  mounted-Endures =
      search
        (
          turn_rules, miner_id_here, load_wallet-Endures, create_wallet-Endures, sync-Endures,
          fetch-Endures, names_here,
        )
        depth 20
