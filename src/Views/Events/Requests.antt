-- ===== src/Views/Events/Requests.antt =====
-- The requests that the wallet page sends.
use namecoin.Prelude.{ℕ, ◌≡◌, refl, some, List, ◌++◌, All, Bool-cases, inl, inr}
use namecoin.Js.Text.{Text, js}
use namecoin.Js.Value.{Value, str}
use namecoin.Js.Effect.{Exception, ok}
use namecoin.Js.Effect.Sustains.{Sustains, Sustains-lift_bind, sustains_rules}
use namecoin.Js.Platform.{Platform, Browser, Io, Request, Response, Fetched-cases, fetch, ask}
use namecoin.Js.Storage.{get_item, set_item, remove_item}
use namecoin.Utils.Hash.{generate_salt, generate_random_salt}
use namecoin.Utils.LocalStorage.{
  save_wallet_data, get_wallet_data, set_item as store_item, get_item as stored_item,
}
use namecoin.Utils.DomainStorage.{
  get_pending_domains, read_list, write_list, save_pending_domain, remove_pending_domain,
  clear_all_pending_domains,
}
use namecoin.Services.Transaction.{Transaction}
use namecoin.Services.Wallet.{generate_key_pair, save_wallet, load_wallet}
use namecoin.Services.Api.{
  get_base_url, body_of, get_request, post_request, send_object, json_or_throw, send_transaction,
  get_miner_id, set_miner_id, get_spend_plan, fetch_registered_domains,
}
use namecoin.Views.WalletPage.{WalletPage}
use namecoin.Views.WalletPage.Names.{rewrite_names, rewrite_unread}
use namecoin.Views.Life.{Action}
use namecoin.Views.Kept.{IsSigned, IsKept}
use namecoin.Views.Events.{Event, Caused, on_events, on_events-Well}

-- What the page may ask of the node: to read, to take a miner's identifier, to plan a payment, and to handle
-- a transaction that goes with a signature of its hash.
pub data IsRequest (p : Platform) : Request → Type 0 where
  reads : (path : Text) → IsRequest p (get_request (get_base_url p ++ path))
  sets_miner :
      (body : Text)
      → IsRequest p (post_request (get_base_url p ++ js "/namecoin/minerid") (some body))
  plans :
      (body : Text)
      → IsRequest p (post_request (get_base_url p ++ js "/namecoin/spendplan") (some body))
  sends :
      (tx : Transaction) (signature : Text) (body : Value)
      → IsSigned p tx signature
      → p.canonicalize (send_object tx (str signature)) ≡ ok body
      → IsRequest p (post_request (get_base_url p ++ js "/namecoin/handle") (body_of p body))

module _ (p : Platform) where
  pub record IsHonest (b : Browser) : Type 0 where
    pub requests : All (IsRequest p) b.sent

  same_sent :
      {A : Type 0} (m : Io A) → ((b : Browser) → (m b).1.sent ≡ b.sent) → Sustains IsHonest m
  same_sent m same = record { after = λ {s = b} h. record { requests = rw (same b) h.requests } }

  ask-IsHonest : {A : Type 0} (f : ℕ → A) → Sustains IsHonest (ask f)
  unfolding ask
  ask-IsHonest f = same_sent (ask f) (λ b. refl)

  get-IsHonest : (k : Text) → Sustains IsHonest (get_item k)
  unfolding get_item
  get-IsHonest k = same_sent (get_item k) (λ b. refl)

  set-IsHonest : (k v : Text) → Sustains IsHonest (set_item p k v)
  unfolding set_item
  set-IsHonest k v =
      same_sent (set_item p k v)
        (λ b. elim (Bool-cases (p.fits b.storage k v)) [ inl room ↦ rw room | inr full ↦ rw full ])

  remove-IsHonest : (k : Text) → Sustains IsHonest (remove_item k)
  unfolding remove_item
  remove-IsHonest k = same_sent (remove_item k) (λ b. refl)

  fetch-IsHonest : (q : Request) → IsRequest p q → Sustains IsHonest (fetch p q)
  unfolding fetch
  fetch-IsHonest q good = record {
    after = λ {s = b} h. elim (Fetched-cases (p.answer b.asked q)) [
      | inl (r, e) ↦ rw (fetch, e) (record { requests = (good, h.requests) })
      | inr (x, e) ↦ rw (fetch, e) (record { requests = (good, h.requests) })
    ];
  }

  json_or_throw-IsHonest :
      (bad : Response → Exception) (r : Response) → Sustains IsHonest (json_or_throw p bad r)
  unfolding json_or_throw
  json_or_throw-IsHonest bad r = search sustains_rules

  ruleset honest_rules = (
    Sustains-lift_bind, sustains_rules, ask-IsHonest, get-IsHonest, set-IsHonest, remove-IsHonest,
    fetch-IsHonest, json_or_throw-IsHonest, IsRequest.reads, IsRequest.sets_miner, IsRequest.plans,
    IsRequest.sends,
  )

  send_transaction-IsHonest :
      (tx : Transaction) (g : Text)
      → IsSigned p tx g
      → Sustains IsHonest (send_transaction p tx (str g))
  unfolding send_transaction
  send_transaction-IsHonest tx g signed = search honest_rules

  get_spend_plan-IsHonest : (a b : Value) → Sustains IsHonest (get_spend_plan p a b)
  unfolding get_spend_plan
  get_spend_plan-IsHonest a b = search honest_rules

  get_miner_id-IsHonest : Sustains IsHonest (get_miner_id p)
  unfolding get_miner_id
  get_miner_id-IsHonest = search honest_rules

  set_miner_id-IsHonest : (v : Value) → Sustains IsHonest (set_miner_id p v)
  unfolding set_miner_id
  set_miner_id-IsHonest v = search honest_rules

  fetch_registered_domains-IsHonest : Sustains IsHonest (fetch_registered_domains p)
  unfolding fetch_registered_domains
  fetch_registered_domains-IsHonest = search honest_rules

  generate_salt-IsHonest : Sustains IsHonest (generate_salt p)
  unfolding generate_salt generate_random_salt
  generate_salt-IsHonest = search honest_rules

  generate_key_pair-IsHonest : Sustains IsHonest (generate_key_pair p)
  unfolding generate_key_pair
  generate_key_pair-IsHonest = search honest_rules

  save_wallet-IsHonest : (a b : Value) → Sustains IsHonest (save_wallet p a b)
  unfolding save_wallet save_wallet_data store_item
  save_wallet-IsHonest a b = search honest_rules

  load_wallet-IsHonest : Sustains IsHonest (load_wallet p)
  unfolding load_wallet get_wallet_data stored_item
  load_wallet-IsHonest = search honest_rules

  read_list-IsHonest : (k : Text) → Sustains IsHonest (read_list p k)
  unfolding read_list
  read_list-IsHonest k = same_sent (read_list p k) (λ b. refl)

  write_list-IsHonest : (k : Text) (v : Value) → Sustains IsHonest (write_list p k v)
  unfolding write_list
  write_list-IsHonest k v = search honest_rules

  get_pending_domains-IsHonest : (m : Text) → Sustains IsHonest (get_pending_domains p m)
  unfolding get_pending_domains
  get_pending_domains-IsHonest m = search (honest_rules, read_list-IsHonest)

  save_pending_domain-IsHonest :
      (m d salt c t : Text) → Sustains IsHonest (save_pending_domain p m d salt c t)
  unfolding save_pending_domain
  save_pending_domain-IsHonest m d salt c t =
      search (honest_rules, read_list-IsHonest, write_list-IsHonest) depth 10

  remove_pending_domain-IsHonest : (m d : Text) → Sustains IsHonest (remove_pending_domain p m d)
  unfolding remove_pending_domain
  remove_pending_domain-IsHonest m d =
      search (honest_rules, read_list-IsHonest, write_list-IsHonest) depth 10

  clear_all-IsHonest : (m : Text) → Sustains IsHonest (clear_all_pending_domains m)
  unfolding clear_all_pending_domains
  clear_all-IsHonest m = search honest_rules

  rewrite_names-IsHonest :
      (m d : Text) (f : Value → Value) → Sustains IsHonest (rewrite_names p m d f)
  unfolding rewrite_names
  rewrite_names-IsHonest m d f =
      search (honest_rules, read_list-IsHonest, write_list-IsHonest) depth 10

  rewrite_unread-IsHonest :
      (m d : Text) (e : Exception) → Sustains IsHonest (rewrite_unread p m d e)
  unfolding rewrite_unread
  rewrite_unread-IsHonest m d e =
      search (honest_rules, read_list-IsHonest, write_list-IsHonest) depth 10

  pub IsHonest-IsKept : (permits : Action → Type 0) → IsKept p IsHonest permits
  IsHonest-IsKept permits = record {
    send = send_transaction-IsHonest;
    spend_plan = get_spend_plan-IsHonest;
    miner_id = get_miner_id-IsHonest;
    change_miner_id = set_miner_id-IsHonest;
    registered = fetch_registered_domains-IsHonest;
    salt = generate_salt-IsHonest;
    key_pair = generate_key_pair-IsHonest;
    store_wallet = save_wallet-IsHonest;
    stored_wallet = load_wallet-IsHonest;
    names = get_pending_domains-IsHonest;
    commit = λ m d salt c t may. save_pending_domain-IsHonest m d salt c t;
    reveal = λ m d ip may. rewrite_names-IsHonest m d _;
    renew = λ m d ip may. rewrite_names-IsHonest m d _;
    unread = rewrite_unread-IsHonest;
    drop = λ m d may. remove_pending_domain-IsHonest m d;
    clear = λ m may. clear_all-IsHonest m;
  }

-- Let events come in any order on the wallet page, whatever the node answers. If the requests so far only
-- read, set the miner's identifier, plan a payment or send a transaction with a signature of its hash and with
-- the identifier that was computed for it, then so do all requests after the events.
pub on_events-IsRequest :
    (p : Platform) (es : List Event) (s : WalletPage)
    → All (IsRequest p) s.shared.browser.sent
    → All (IsRequest p) (on_events p es s).shared.browser.sent
on_events-IsRequest p es s h =
    let well =
      on_events-Well p (IsHonest p) (Caused p es) (IsHonest-IsKept p (Caused p es)) es s (λ a c. c)
        (record { holds = record { requests = h } }) in
    well.holds.requests
