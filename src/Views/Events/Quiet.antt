-- ===== src/Views/Events/Quiet.antt =====
-- The handlers and steps of the wallet page that do not write to the lists of names.
use namecoin.Prelude.{◌≡◌}
use namecoin.Utils.Hash.{generate_salt}
use namecoin.Services.Wallet.{generate_key_pair, load_wallet as read_wallet}
use namecoin.Services.Api.{get_miner_id, fetch_registered_domains}
use namecoin.Js.Text.{Text}
use namecoin.Js.Value.{Value}
use namecoin.Js.Effect.{Run, modify, finally, Exception, within}
use namecoin.Js.Effect.Sustains.{
  Sustains, Sustains-lift_bind, Sustains-modify, Sustains-finally, sustains_rules,
}
use namecoin.Js.Platform.{Platform, Browser, Io}
use namecoin.Services.Transaction.{Transaction}
use namecoin.Composables.UseWallet.{
  WalletState, WalletRef, Wa, create_wallet, load_wallet, load_found, set_wallet,
  in_browser as in_wallet,
}
use namecoin.Views.WalletPage.{WalletPage, in_shared, in_browser, set_status}
use namecoin.Views.WalletPage.Names.{show_rows, load_my_domains, fetch_domains}
use namecoin.Views.WalletPage.Sending.{apply_spend_plan, send_signed, refused, show_error}
use namecoin.Views.WalletPage.Start.{sync_miner_id, handle_create_wallet, mounted}
use namecoin.Views.Life.{Action}
use namecoin.Views.Kept.{IsKept}

-- The invariant, of the page and of the wallet's state.
pub record Well (Inv : Browser → Type 0) (s : WalletPage) : Type 0 where
  pub holds : Inv s.shared.browser

pub record WellWallet (Inv : Browser → Type 0) (s : WalletState) : Type 0 where
  pub holds : Inv s.browser

module _ (Inv : Browser → Type 0) where
  pub in_wallet-Sustains :
      {A : Type 0} (m : Io A) → Sustains Inv m → Sustains (WellWallet Inv) (in_wallet m)
  unfolding in_wallet within
  in_wallet-Sustains m h = record { after = λ q. record { holds = h.after q.holds } }

  pub in_browser-Sustains :
      {A : Type 0} (m : Io A) → Sustains Inv m → Sustains (Well Inv) (in_browser m)
  unfolding in_browser within
  in_browser-Sustains m h = record { after = λ q. record { holds = h.after q.holds } }

  pub in_shared-Sustains :
      {A : Type 0} (m : Wa A) → Sustains (WellWallet Inv) m → Sustains (Well Inv) (in_shared m)
  unfolding in_shared within
  in_shared-Sustains m h = record {
    after = λ q. record { holds = (h.after (record { holds = q.holds })).holds };
  }

  pub set_wallet-Sustains : (w : WalletRef) → Sustains (WellWallet Inv) (set_wallet w)
  unfolding set_wallet
  set_wallet-Sustains w = Sustains-modify _ (λ s h. record { holds = h.holds })

  pub set_status-Sustains : (t : Text) → Sustains (Well Inv) (set_status t)
  unfolding set_status
  set_status-Sustains t = Sustains-modify _ (λ s h. record { holds = h.holds })

  pub show_error-Sustains : (e : Exception) → Sustains (Well Inv) (show_error e)
  unfolding show_error
  show_error-Sustains e = set_status-Sustains _

  pub refused-Sustains : (p : Platform) (t : Text) (v : Value) → Sustains (Well Inv) (refused p t v)
  unfolding refused
  refused-Sustains p t v = set_status-Sustains _

  -- Code that leaves the browser alone.
  pub modify-Well :
      (f : WalletPage → WalletPage)
      → ((s : WalletPage) → (f s).shared.browser ≡ s.shared.browser)
      → Sustains (Well Inv) (modify f)
  modify-Well f same = Sustains-modify f (λ s h. record { holds = rw same h.holds })

  pub finally-Well :
      {A : Type 0} (m : Run WalletPage A) (f : WalletPage → WalletPage)
      → Sustains (Well Inv) m
      → ((s : WalletPage) → (f s).shared.browser ≡ s.shared.browser)
      → Sustains (Well Inv) (finally m f)
  finally-Well m f h same = Sustains-finally m f h (λ s k. record { holds = rw same k.holds })

pub ruleset handler_rules = (
  sustains_rules, in_browser-Sustains, in_shared-Sustains, set_status-Sustains, show_error-Sustains,
  refused-Sustains, modify-Well, finally-Well,
)

module _ (p : Platform) (Inv : Browser → Type 0) (permits : Action → Type 0)
    (kept : IsKept p Inv permits) where
  miner_id_kept : Sustains Inv (get_miner_id p)
  miner_id_kept = kept.miner_id

  registered_kept : Sustains Inv (fetch_registered_domains p)
  registered_kept = kept.registered

  pub salt_kept : Sustains Inv (generate_salt p)
  salt_kept = kept.salt

  key_pair_kept : Sustains Inv (generate_key_pair p)
  key_pair_kept = kept.key_pair

  stored_wallet_kept : Sustains Inv (read_wallet p)
  stored_wallet_kept = kept.stored_wallet

  pub create_wallet-Sustains : Sustains (WellWallet Inv) (create_wallet p)
  unfolding create_wallet
  create_wallet-Sustains =
      search
        (sustains_rules, in_wallet-Sustains, set_wallet-Sustains, key_pair_kept, kept.store_wallet)
        depth 12

  pub load_found-Sustains : (v : Value) → Sustains (WellWallet Inv) (load_found p v)
  unfolding load_found
  load_found-Sustains v = search (sustains_rules, set_wallet-Sustains) depth 12

  pub load_wallet_ref-Sustains : Sustains (WellWallet Inv) (load_wallet p)
  unfolding load_wallet
  load_wallet_ref-Sustains =
      search (sustains_rules, in_wallet-Sustains, stored_wallet_kept, load_found-Sustains) depth 12

  pub load_my_domains-Sustains : Sustains (Well Inv) (load_my_domains p)
  unfolding load_my_domains show_rows
  load_my_domains-Sustains = search (handler_rules, kept.names) depth 12

  pub fetch_domains-Sustains : Sustains (Well Inv) (fetch_domains p)
  unfolding fetch_domains
  fetch_domains-Sustains = search (handler_rules, registered_kept) depth 12

  pub apply_spend_plan-Sustains : (tx : Transaction) → Sustains (Well Inv) (apply_spend_plan p tx)
  unfolding apply_spend_plan
  apply_spend_plan-Sustains tx = search (handler_rules, kept.spend_plan) depth 12

  pub send_signed-Sustains :
      (kind : Text) (sender payload : Value) (t : Text)
      → Sustains (Well Inv) (send_signed p kind sender payload t)
  unfolding send_signed
  send_signed-Sustains kind sender payload t =
      search (Sustains-lift_bind, handler_rules, apply_spend_plan-Sustains, kept.send) depth 16

  pub sync_miner_id-Sustains : Sustains (Well Inv) (sync_miner_id p)
  unfolding sync_miner_id
  sync_miner_id-Sustains = search (handler_rules, kept.change_miner_id) depth 12

  pub mounted-Sustains : Sustains (Well Inv) (mounted p)
  unfolding mounted
  mounted-Sustains =
      search
        (
          handler_rules, load_my_domains-Sustains, miner_id_kept, load_wallet_ref-Sustains,
          create_wallet-Sustains, sync_miner_id-Sustains, fetch_domains-Sustains,
        )
        depth 16

  pub handle_create_wallet-Sustains : Sustains (Well Inv) (handle_create_wallet p)
  unfolding handle_create_wallet
  handle_create_wallet-Sustains = search (handler_rules, create_wallet-Sustains) depth 12
