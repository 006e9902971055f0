-- ===== src/Views/WalletPage/Names.antt =====
-- The wallet's names, on the page and in the storage, and the names of the registry.
use namecoin.Prelude.{
  ℕ, suc, Bool, true, false, none, some, List, [], ◌∷◌, ◌++◌, ◌==◌, if◌then◌else◌,
}
use namecoin.Js.Text.{Text, js}
use namecoin.Js.Value.{
  Value, Items, Fields, undefined, bool, str, arr, obj, nil, cons, end, field, truthy, or_else,
  get_prop,
}
use namecoin.Js.Effect.{
  Result, Exception, ok, throw, type_error, message, pure, lift, gets, modify, catch_with, ◌>>=◌,
  ◌>>◌,
}
use namecoin.Js.Platform.{Platform, Io}
use namecoin.Utils.DomainStorage.{
  set_field, has_domain, pending_key, read_list, write_list, get_pending_domains,
  clear_all_pending_domains,
}
use namecoin.Services.Api.{fetch_registered_domains}
use namecoin.Views.WalletPage.{WalletPage, Row, Wp, in_browser, template, zero_number}

-- `array.map(f)`, which only an array has
unfoldable pub map_items : {A : Type 0} → Platform → (Value → Result A) → Items → Result (List A)
map_items p f nil = ok []
map_items p f (cons x xs) =
    let rest = map_items p f xs in
    elim (f x) [ ok y ↦ elim rest [ ok ys ↦ ok (y ∷ ys) | throw e ↦ throw e ] | throw e ↦ throw e ]

abbrev pub map_array : {A : Type 0} → Platform → (Value → Result A) → Value → Result (List A)
map_array p f (arr xs) = map_items p f xs
map_array p f v = throw (type_error p.no_property)

abbrev pub fields_of : Value → Fields
fields_of (obj fs) = fs
fields_of v = end

-- An entry of the storage with the input fields of the page; the spread of a value that is no object
-- has no property here.
unfoldable pub shown_entry : Platform → Value → Result Fields
unfolding set_field get_prop
shown_entry p d = elim (get_prop (js "ip") d) [
  | none ↦ throw (type_error p.no_property)
  | some ip ↦ ok (
      set_field (js "isUpdating") (bool false) (
        set_field (js "isRevealing") (bool false) (
          set_field (js "updateTtl") zero_number (
            set_field (js "newIp") (or_else ip (str [])) (
              set_field (js "revealTtl") zero_number
                (set_field (js "revealIp") (or_else ip (str [])) (fields_of d)))))))
]

-- New objects for the rows.
abbrev pub number_rows : ℕ → List Fields → List Row
number_rows n [] = []
number_rows n (fs ∷ rest) = record { key = n; entry = fs } ∷ number_rows (suc n) rest

abbrev rows_after : ℕ → List Fields → ℕ
rows_after n [] = n
rows_after n (fs ∷ rest) = rows_after (suc n) rest

unfoldable pub show_rows : List Fields → WalletPage → WalletPage
show_rows entries s = record s {
  old_rows = s.my_domains ++ s.old_rows;
  my_domains = number_rows s.next_row entries;
  next_row = rows_after s.next_row entries;
}

-- A write to a property of the row with a key, also where the page has replaced the row.
unfoldable pub write_rows : ℕ → Text → Value → List Row → List Row
unfolding set_field
write_rows k name v [] = []
write_rows k name v (row ∷ rows) =
    (if row.key == k then record row { entry = set_field name v row.entry } else row)
    ∷ write_rows k name v rows

unfoldable pub write_row : ℕ → Text → Value → WalletPage → WalletPage
write_row k name v s = record s {
  my_domains = write_rows k name v s.my_domains;
  old_rows = write_rows k name v s.old_rows;
}

-- The object of a row, as it is now.
abbrev entry_in : Row → List Row → Fields
entry_in row [] = row.entry
entry_in row (r ∷ rows) = let rest = entry_in row rows in if r.key == row.key then r.entry else rest

unfoldable pub entry_now : Row → WalletPage → Fields
entry_now row s = entry_in row (s.my_domains ++ s.old_rows)

abbrev pub array_of : List Value → Items
array_of [] = nil
array_of (v ∷ vs) = cons v (array_of vs)

-- The callback of `stored.map`: an entry of the name is changed.
unfoldable pub change_named : Platform → Text → (Value → Value) → Value → Result Value
change_named p name f d = elim (has_domain p name d) [
  | ok same ↦ ok (if same then f d else d)
  | throw e ↦ throw e
]

-- The same where the new value of an entry cannot be read: it throws at the first entry of the name.
unfoldable pub unread_named : Platform → Text → Exception → Value → Result Value
unread_named p name e d = elim (has_domain p name d) [
  | ok same ↦ if same then throw e else ok d
  | throw x ↦ throw x
]

-- A record of the registry as the page shows it.
unfoldable pub shown_record : Platform → Value → Result Value
unfolding get_prop
shown_record p r = elim (get_prop (js "Domain") r) [
  | none ↦ throw (type_error p.no_property)
  | some name ↦
      let prop : Text → Value = λ k. elim (get_prop k r) [ none ↦ undefined | some v ↦ v ] in
      ok (
        obj (
          field (js "name") (or_else name (prop (js "domain"))) (
            field (js "owner") (or_else (prop (js "Owner")) (prop (js "owner")))
              (field (js "ip") (or_else (prop (js "IP")) (prop (js "ip"))) end))))
]

module _ (p : Platform) where
  -- `loadMyDomains`
  unfoldable pub load_my_domains : Wp (Unit {0})
  load_my_domains = do
    owner ← gets (λ s. s.shared.wallet.id)
    let load = do
      stored ← in_browser (get_pending_domains p (template p owner))
      shown ← lift (map_array p (shown_entry p) stored)
      modify (show_rows shown)
    if truthy owner then load else pure tt

  -- `clearPendingDomains`, given the answer of `confirm`
  unfoldable pub clear_pending_domains : Bool → Wp (Unit {0})
  clear_pending_domains confirmed = do
    owner ← gets (λ s. s.shared.wallet.id)
    let clear = do
      in_browser (clear_all_pending_domains (template p owner))
      modify (λ s. record s {
        my_domains = [];
        old_rows = s.my_domains ++ s.old_rows;
        status = js "All domains cleared.";
      })
    if confirmed then (if truthy owner then clear else pure tt) else pure tt

  -- `fetchDomains`
  unfoldable pub fetch_domains : Wp (Unit {0})
  fetch_domains =
      catch_with
        (do
          all_domains ← in_browser (fetch_registered_domains p)
          shown ← lift (map_array p (shown_record p) all_domains)
          modify (λ s. record s { domains = shown; domains_loaded = true }))
        (λ e. modify (λ s. record s {
          status = js "Error fetching domains: " ++ message e;
          domains_loaded = true;
        }))

  -- The entries of a name in the storage of a wallet are changed.
  unfoldable pub rewrite_names : Text → Text → (Value → Value) → Io (Unit {0})
  rewrite_names owner name f = do
    stored ← read_list p (pending_key owner)
    updated ← lift (map_array p (change_named p name f) stored)
    write_list p (pending_key owner) (arr (array_of updated))

  unfoldable pub rewrite_unread : Text → Text → Exception → Io (Unit {0})
  rewrite_unread owner name e = do
    stored ← read_list p (pending_key owner)
    updated ← lift (map_array p (unread_named p name e) stored)
    write_list p (pending_key owner) (arr (array_of updated))
