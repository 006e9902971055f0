-- ===== src/Views/WalletPage/Reveal.antt =====
-- `handleFirstUpdate` and `handleUpdate`: a name is revealed, and its address is changed.
use namecoin.Prelude.{Bool, true, false, List, [], ◌∷◌, ◌++◌, is_empty, if◌then◌else◌}
use namecoin.Js.Text.{Text, js}
use namecoin.Js.Text.Trim.{trim, includes_any}
use namecoin.Js.Value.{Value, bool, str, obj, end, field, truthy, or_else, get_field}
use namecoin.Js.Effect.{
  Result, Exception, ok, throw, type_error, message, pure, lift, gets, modify, catch_with, finally,
  ◌>>=◌, ◌>>◌,
}
use namecoin.Js.Platform.{Platform, Io}
use namecoin.Utils.DomainStorage.{set_field, remove_pending_domain}
use namecoin.Services.Transaction.{Transaction}
use namecoin.Composables.UseWallet.{is_wallet_loaded}
use namecoin.Views.WalletPage.{
  Row, Wp, in_browser, set_status, template, message_or, is_success, zero_number,
}
use namecoin.Views.WalletPage.Names.{
  fields_of, load_my_domains, fetch_domains, rewrite_names, rewrite_unread, write_row,
}
use namecoin.Views.WalletPage.Sending.{send_signed, refused, show_error}

abbrev pub revealed_entry : Text → Value → Value
revealed_entry ip d =
    obj (set_field (js "ip") (str ip) (set_field (js "status") (str (js "revealed")) (fields_of d)))

abbrev pub renewed_entry : Text → Value → Value
renewed_entry ip d = obj (set_field (js "ip") (str ip) (fields_of d))

-- `x && x.trim()`, or the empty text for a value that counts as false
unfoldable pub entered : Platform → Value → Result Text
unfolding trim
entered p (str s) = ok (trim s)
entered p v = if truthy v then throw (type_error p.no_property) else ok []

-- `x.trim()`
unfoldable pub trimmed : Platform → Value → Result Text
unfolding trim
trimmed p (str s) = ok (trim s)
trimmed p v = throw (type_error p.no_property)

-- The name of a row: a text, as `savePendingDomain` writes it.
unfoldable pub name_of : Platform → Row → Text
name_of p row = template p (get_field (js "domain") row.entry)

unfoldable pub reveal_payload : Row → Text → Value
reveal_payload row ip = obj (
    field (js "domain") (get_field (js "domain") row.entry) (
      field (js "salt") (get_field (js "salt") row.entry) (
        field (js "ip") (str ip) (
          field (js "ttl") (or_else (get_field (js "revealTtl") row.entry) zero_number)
            (field (js "txid") (get_field (js "txid") row.entry) end)))))

unfoldable pub update_payload : Row → Text → Value
update_payload row ip = obj (
    field (js "domain") (get_field (js "domain") row.entry) (
      field (js "ip") (str ip)
        (field (js "ttl") (or_else (get_field (js "updateTtl") row.entry) zero_number) end)))

-- The messages of the node after which a name is dropped.
abbrev pub reveal_hopeless : List Text
reveal_hopeless =
    js "domain already exists"
    ∷ js "already exists"
    ∷ js "already claimed"
    ∷ js "already registered"
    ∷ js "no matching"
    ∷ js "commitment mismatch"
    ∷ js "expired"
    ∷ []

abbrev pub update_hopeless : List Text
update_hopeless =
    js "non-existent"
    ∷ js "expired"
    ∷ js "does not exist"
    ∷ js "not found"
    ∷ js "cannot update domain you do not own"
    ∷ []

module _ (p : Platform) where
  -- The name of the row is dropped from the storage.
  unfoldable pub forget_name : Row → Value → Wp (Unit {0})
  forget_name row sender = do
    in_browser (remove_pending_domain p (template p sender) (name_of p row))
    load_my_domains p

  unfoldable pub is_hopeless : List Text → Exception → Bool
  unfolding includes_any
  is_hopeless hopeless e =
      includes_any (p.lower (message_or (message e) (js "Unknown error occurred"))) hopeless

  -- The `catch` of both handlers.
  unfoldable pub name_failed : List Text → Row → Exception → Wp (Unit {0})
  name_failed hopeless row e = do
    show_error e
    sender ← gets (λ s. s.shared.wallet.id)
    let drop = do forget_name row sender; fetch_domains p
    if is_hopeless hopeless e then (if truthy sender then drop else pure tt) else pure tt

  -- The address is written to the entries of the name, or it cannot be read.
  unfoldable pub write_address : Text → Text → (Text → Value → Value) → Result Text → Io (Unit {0})
  write_address owner name change (ok ip) = rewrite_names p owner name (change ip)
  write_address owner name change (throw e) = rewrite_unread p owner name e

  unfoldable pub reveal_written : Value → Row → Result Text → Transaction → Wp (Unit {0})
  reveal_written sender row ip complete = do
    modify (λ s. record s { last_tx_id = complete.transaction_id })
    set_status (js "Domain \"" ++ name_of p row ++ js "\" revealed successfully!")
    in_browser (write_address (template p sender) (name_of p row) revealed_entry ip)
    load_my_domains p

  unfoldable pub reveal_saved : Value → Row → Text → Transaction → Wp (Unit {0})
  reveal_saved sender row ip complete = reveal_written sender row (ok ip) complete

  unfoldable pub revealed : Value → Row → Text → Transaction → Wp (Unit {0})
  revealed sender row ip complete = do reveal_saved sender row ip complete; fetch_domains p

  unfoldable pub reveal_steps : Row → Text → Wp (Unit {0})
  unfolding is_success
  reveal_steps row ip = do
    sender ← gets (λ s. s.shared.wallet.id)
    let send = do
      answered ←
          send_signed p (js "NameFirstUpdate") sender (reveal_payload row ip)
            (js "Sending reveal transaction...")
      let (complete, response) = answered
      if is_success response
          then revealed sender row ip complete
          else refused p (js "Reveal failed: ") response
    if truthy sender then send else set_status (js "Wallet ID not found. Please reload the page.")

  -- `handleFirstUpdate` after its guards
  unfoldable pub reveal : Row → Text → Wp (Unit {0})
  reveal row ip = do
    modify (write_row row.key (js "isRevealing") (bool true))
    set_status (js "Revealing domain...")
    finally (catch_with (reveal_steps row ip) (name_failed reveal_hopeless row))
        (write_row row.key (js "isRevealing") (bool false))

  -- `handleFirstUpdate`; `fetchDomains`, which it does not wait for, runs before its `finally`.
  unfoldable pub handle_first_update : Row → Wp (Unit {0})
  handle_first_update row = do
    loaded ← gets (λ s. is_wallet_loaded s.shared)
    let start = do
      ip ← lift (entered p (get_field (js "revealIp") row.entry))
      if is_empty ip then set_status (js "Please enter an IP address") else reveal row ip
    if loaded then start else pure tt

  unfoldable pub update_written : Value → Row → Result Text → Transaction → Wp (Unit {0})
  update_written sender row ip complete = do
    modify (λ s. record s { last_tx_id = complete.transaction_id })
    set_status
        (js "IP updated for \"" ++ name_of p row ++ js "\"! Wait for it to be mined in a block.")
    in_browser (write_address (template p sender) (name_of p row) renewed_entry ip)
    modify (write_row row.key (js "newIp") (str []))
    load_my_domains p

  unfoldable pub updated : Value → Row → Text → Transaction → Wp (Unit {0})
  updated sender row ip complete = update_written sender row (ok ip) complete

  unfoldable pub update_steps : Row → Text → Wp (Unit {0})
  unfolding is_success
  update_steps row ip = do
    sender ← gets (λ s. s.shared.wallet.id)
    let send = do
      answered ←
          send_signed p (js "NameUpdate") sender (update_payload row ip)
            (js "Sending update transaction...")
      let (complete, response) = answered
      if is_success response
          then updated sender row ip complete
          else refused p (js "Update failed: ") response
    if truthy sender then send else set_status (js "Wallet ID not found. Please reload the page.")

  -- `handleUpdate` after its guards
  unfoldable pub renew : Row → Text → Wp (Unit {0})
  renew row ip = do
    modify (write_row row.key (js "isUpdating") (bool true))
    set_status (js "Updating IP for " ++ name_of p row ++ js "...")
    finally (catch_with (update_steps row ip) (name_failed update_hopeless row))
        (write_row row.key (js "isUpdating") (bool false))

  -- `handleUpdate`
  unfoldable pub handle_update : Row → Wp (Unit {0})
  handle_update row = do
    loaded ← gets (λ s. is_wallet_loaded s.shared)
    let start = do
      ip ← lift (entered p (get_field (js "newIp") row.entry))
      if is_empty ip then set_status (js "Please enter an IP address") else renew row ip
    if loaded then start else pure tt
