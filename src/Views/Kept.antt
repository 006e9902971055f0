-- ===== src/Views/Kept.antt =====
-- What an invariant of the storage and the requests has to allow for, to hold through the wallet page.
use namecoin.Prelude.{◌≡◌}
use namecoin.Js.Text.{Text}
use namecoin.Js.Value.{Value, str}
use namecoin.Js.Effect.{Exception, ok}
use namecoin.Js.Effect.Sustains.{Sustains}
use namecoin.Js.Platform.{Platform, Browser}
use namecoin.Utils.Hash.{generate_salt}
use namecoin.Utils.DomainStorage.{
  get_pending_domains, save_pending_domain, remove_pending_domain, clear_all_pending_domains,
}
use namecoin.Services.Transaction.{Transaction, compute_transaction_id}
use namecoin.Services.Crypto.{hash_transaction, generate_transaction_signature}
use namecoin.Services.Wallet.{generate_key_pair, save_wallet, load_wallet}
use namecoin.Services.Api.{
  send_transaction, get_miner_id, set_miner_id, get_spend_plan, fetch_registered_domains,
}
use namecoin.Views.WalletPage.Names.{rewrite_names, rewrite_unread}
use namecoin.Views.WalletPage.Reveal.{revealed_entry, renewed_entry}
use namecoin.Views.Life.{Action, committing, revealing, renewing, dropping, clearing}

-- The transaction has its identifier, and the text is a signature of its hash.
pub record IsSigned (p : Platform) (complete : Transaction) (signature : Text) : Type 0 where
  pub funded : Transaction
  pub hash : Text
  pub key : Text
  pub is_complete : compute_transaction_id p funded ≡ ok complete
  pub is_hash : hash_transaction p complete ≡ ok hash
  pub is_signature : generate_transaction_signature p hash key ≡ ok signature

-- The calls of the page keep the invariant: a transaction is sent only with its signature, and a list of
-- names is written only for a permitted action.
pub record IsKept (p : Platform) (Inv : Browser → Type 0) (permits : Action → Type 0) : Type 0 where
  pub send :
      (tx : Transaction) (g : Text) → IsSigned p tx g → Sustains Inv (send_transaction p tx (str g))
  pub spend_plan : (a b : Value) → Sustains Inv (get_spend_plan p a b)
  pub miner_id : Sustains Inv (get_miner_id p)
  pub change_miner_id : (v : Value) → Sustains Inv (set_miner_id p v)
  pub registered : Sustains Inv (fetch_registered_domains p)
  pub salt : Sustains Inv (generate_salt p)
  pub key_pair : Sustains Inv (generate_key_pair p)
  pub store_wallet : (a b : Value) → Sustains Inv (save_wallet p a b)
  pub stored_wallet : Sustains Inv (load_wallet p)
  pub names : (m : Text) → Sustains Inv (get_pending_domains p m)
  pub commit :
      (m domain salt commitment txid : Text)
      → permits (committing domain)
      → Sustains Inv (save_pending_domain p m domain salt commitment txid)
  pub reveal :
      (m name ip : Text)
      → permits (revealing name ip)
      → Sustains Inv (rewrite_names p m name (revealed_entry ip))
  pub renew :
      (m name ip : Text)
      → permits (renewing name ip)
      → Sustains Inv (rewrite_names p m name (renewed_entry ip))
  pub unread : (m name : Text) (e : Exception) → Sustains Inv (rewrite_unread p m name e)
  pub drop :
      (m domain : Text)
      → permits (dropping domain)
      → Sustains Inv (remove_pending_domain p m domain)
  pub clear : (m : Text) → permits clearing → Sustains Inv (clear_all_pending_domains m)
