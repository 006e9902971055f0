-- ===== src/Views/Names/Leaves.antt =====
-- The calls that do not write to the lists of names.
use namecoin.Prelude.{ℕ, ◌≡◌, refl, false, Bool-cases, inl, inr}
use namecoin.Js.Text.{Text, js, text_eq}
use namecoin.Js.Value.{Value}
use namecoin.Js.Effect.{Exception}
use namecoin.Js.Effect.Sustains.{Sustains, sustains_rules}
use namecoin.Js.Platform.{Platform, Request, Response, Fetched-cases, fetch, ask}
use namecoin.Js.Storage.{get_item, set_item}
use namecoin.Js.Storage.Laws.{lookup-set}
use namecoin.Utils.Hash.{generate_salt, generate_random_salt}
use namecoin.Utils.LocalStorage.{
  wallet_key, save_wallet_data, get_wallet_data, set_item as store_item, get_item as stored_item,
}
use namecoin.Utils.DomainStorage.{pending_key, get_pending_domains, read_list}
use namecoin.Services.Transaction.{Transaction}
use namecoin.Services.Wallet.{generate_key_pair, save_wallet, load_wallet}
use namecoin.Services.Api.{
  json_or_throw, send_transaction, get_miner_id, set_miner_id, get_spend_plan,
  fetch_registered_domains,
}
use namecoin.Views.Names.{Frame, IsWell, IsWell-of_lookup}

module _ (p : Platform) (start : Frame) where
  ask-Sustains : {A : Type 0} (f : ℕ → A) → Sustains (IsWell p start) (ask f)
  unfolding ask
  ask-Sustains f = IsWell-of_lookup p start (ask f) (λ b w. refl)

  fetch-Sustains : (q : Request) → Sustains (IsWell p start) (fetch p q)
  unfolding fetch
  fetch-Sustains q = IsWell-of_lookup p start (fetch p q) (λ b w.
      elim (Fetched-cases (p.answer b.asked q)) [
        | inl (r, e) ↦ rw (fetch, e)
        | inr (x, e) ↦ rw (fetch, e)
      ])

  get-Sustains : (k : Text) → Sustains (IsWell p start) (get_item k)
  unfolding get_item
  get-Sustains k = IsWell-of_lookup p start (get_item k) (λ b w. refl)

  wallet_key-ne : (w : Text) → text_eq wallet_key (pending_key w) ≡ false
  unfolding wallet_key pending_key js text_eq
  wallet_key-ne w = refl

  set-Sustains : (v : Text) → Sustains (IsWell p start) (set_item p wallet_key v)
  unfolding set_item
  set-Sustains v = IsWell-of_lookup p start (set_item p wallet_key v) (λ b w.
      elim (Bool-cases (p.fits b.storage wallet_key v)) [
        | inl room ↦ rw (room, lookup-set, wallet_key-ne)
        | inr full ↦ rw full
      ])

  ruleset leaf_rules = (sustains_rules, ask-Sustains, fetch-Sustains, get-Sustains, set-Sustains)

  json_or_throw-Sustains :
      (bad : Response → Exception) (r : Response)
      → Sustains (IsWell p start) (json_or_throw p bad r)
  unfolding json_or_throw
  json_or_throw-Sustains bad r = search leaf_rules

  pub get_spend_plan-Sustains : (a b : Value) → Sustains (IsWell p start) (get_spend_plan p a b)
  unfolding get_spend_plan
  get_spend_plan-Sustains a b = search (leaf_rules, json_or_throw-Sustains)

  pub send_transaction-Sustains :
      (tx : Transaction) (g : Value) → Sustains (IsWell p start) (send_transaction p tx g)
  unfolding send_transaction
  send_transaction-Sustains tx g = search (leaf_rules, json_or_throw-Sustains)

  pub get_miner_id-Sustains : Sustains (IsWell p start) (get_miner_id p)
  unfolding get_miner_id
  get_miner_id-Sustains = search (leaf_rules, json_or_throw-Sustains)

  pub set_miner_id-Sustains : (v : Value) → Sustains (IsWell p start) (set_miner_id p v)
  unfolding set_miner_id
  set_miner_id-Sustains v = search (leaf_rules, json_or_throw-Sustains)

  pub fetch_registered_domains-Sustains : Sustains (IsWell p start) (fetch_registered_domains p)
  unfolding fetch_registered_domains
  fetch_registered_domains-Sustains = search (leaf_rules, json_or_throw-Sustains)

  pub generate_salt-Sustains : Sustains (IsWell p start) (generate_salt p)
  unfolding generate_salt generate_random_salt
  generate_salt-Sustains = search leaf_rules

  pub generate_key_pair-Sustains : Sustains (IsWell p start) (generate_key_pair p)
  unfolding generate_key_pair
  generate_key_pair-Sustains = search leaf_rules

  pub save_wallet-Sustains : (a b : Value) → Sustains (IsWell p start) (save_wallet p a b)
  unfolding save_wallet save_wallet_data store_item
  save_wallet-Sustains a b = search leaf_rules

  pub load_wallet-Sustains : Sustains (IsWell p start) (load_wallet p)
  unfolding load_wallet get_wallet_data stored_item
  load_wallet-Sustains = search leaf_rules

  pub get_pending_domains-Sustains :
      (m : Text) → Sustains (IsWell p start) (get_pending_domains p m)
  unfolding get_pending_domains read_list
  get_pending_domains-Sustains m = IsWell-of_lookup p start (get_pending_domains p m) (λ b w. refl)
