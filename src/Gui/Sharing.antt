-- ===== src/Gui/Sharing.antt =====
-- `Catalog`, `DataSharing`, `Search` and `Naming` of main.js.
use namecoin.Prelude.{Option, none, some, List, [], ◌∷◌, ◌++◌, map, is_empty, if◌then◌else◌}
use namecoin.Js.Text.{Text, js}
use namecoin.Js.Value.{Value, num, str, arr, obj, end, field}
use namecoin.Js.Effect.{ok, throw, lift, modify, ◌>>=◌, ◌>>◌}
use namecoin.Gui.Page.{
  Host, Gui, Input, print_error, print_success, set_panels, api_url, json_type, form_type, get_from,
  post_to, to_json, text_items, or_report, when_filled, check_inputs,
}
use namecoin.Gui.Routing.{entries}

-- `for (var k in v)`, which passes over `null` and `undefined`
unfoldable pub keys_in : Host → Value → List Text
unfolding entries
keys_in h v = elim (entries h v) [ ok pairs ↦ map (λ q. q.0) pairs | throw e ↦ [] ]

unfoldable pub flatten : List Text → Text
flatten [] = []
flatten (s ∷ ss) = s ++ flatten ss

-- What `Catalog.update` shows of a chunk: its name and the peers that have it.
unfoldable pub chunk_markup : Host → Text × Value → Text
unfolding keys_in
chunk_markup h (chunk, peers) =
    js "<div><p>"
    ++ chunk
    ++ js "</p>"
    ++ flatten (map (λ peer. js "<p>" ++ peer ++ js "</p>") (keys_in h peers))
    ++ js "</div>"

module _ (h : Host) where
  -- The body of the `try` of `Catalog.update`.
  unfoldable pub show_catalog : Text → Gui (Unit {0})
  show_catalog addr = do
    r ← get_from h addr
    answer ← lift (h.platform.parse r.body)
    set_panels (λ q. record q { content = [] })
    pairs ← lift (entries h answer)
    let nothing = (do
      set_panels (λ q. record q { content = js "<i>no elements</i>" ∷ [] })
      print_success (js "Catalog updated, nothing found"))
    let shown = (do
      set_panels (λ q. record q { content = q.content ++ map (chunk_markup h) pairs })
      print_success (js "Catalog updated"))
    if is_empty pairs then nothing else shown

  -- `Catalog.update`
  unfoldable pub update_catalog : Gui (Unit {0})
  update_catalog = do
    addr ← api_url (js "/datasharing/catalog")
    or_report (js "Failed to fetch catalog: ") (show_catalog addr)

  -- `Catalog.add`
  unfoldable pub add_catalog : Input → Input → Gui (Unit {0})
  add_catalog key value = do
    addr ← api_url (js "/datasharing/catalog")
    when_filled (key ∷ value ∷ []) (do
      body ← to_json h (arr (text_items (key.value ∷ value.value ∷ [])))
      or_report (js "failed to add catalog entry: ")
          (do post_to h addr json_type body; update_catalog))

  -- `DataSharing.upload`, for the content of the first file that was chosen, once it is read
  unfoldable pub upload : Option Text → Gui (Unit {0})
  upload none = print_error (js "No file found")
  upload (some file) = do
    addr ← api_url (js "/datasharing/upload")
    or_report (js "failed to upload data: ") (do
      r ← post_to h addr form_type file
      print_success (js "data uploaded, metahash: " ++ r.body)
      set_panels (λ q. record q { upload_result = (js "Metahash: " ++ r.body) ∷ [] }))

  -- `DataSharing.download` and `triggerDownload`
  unfoldable pub download : Input → Gui (Unit {0})
  download metahash = when_filled (metahash ∷ []) (do
    addr ← api_url (js "/datasharing/download?key=" ++ metahash.value)
    or_report (js "Failed to download data: ") (do
      r ← get_from h addr
      modify (λ s. record s { saved = s.saved ++ (metahash.value, r.body) ∷ [] })
      print_success (js "Data downloaded!")))

  -- `Search.searchAll`
  unfoldable pub search_all : Input → Input → Input → Gui (Unit {0})
  search_all pattern budget timeout = do
    addr ← api_url (js "/datasharing/searchAll")
    when_filled (pattern ∷ budget ∷ timeout ∷ []) (do
      body ← to_json h (
          obj (
            field (js "Pattern") (str pattern.value) (
              field (js "Budget") (num (h.parse_int budget.value))
                (field (js "Timeout") (str timeout.value) end))))
      or_report (js "failed to searchAll: ") (do
        set_panels (λ q. record q { search_all_result = js "<i>searching all...</i>" ∷ [] })
        r ← post_to h addr form_type body
        print_success (js "SearchAll done, result: " ++ r.body)
        set_panels (λ q. record q { search_all_result = (js "Names: " ++ r.body) ∷ [] })))

  -- `Search.searchFirst`
  unfoldable pub search_first : Input → Input → Input → Input → Input → Gui (Unit {0})
  search_first pattern initial factor retry timeout = do
    addr ← api_url (js "/datasharing/searchFirst")
    when_filled (pattern ∷ initial ∷ factor ∷ retry ∷ timeout ∷ []) (do
      body ← to_json h (
          obj (
            field (js "Pattern") (str pattern.value) (
              field (js "Initial") (num (h.parse_int initial.value)) (
                field (js "Factor") (num (h.parse_int factor.value)) (
                  field (js "Retry") (num (h.parse_int retry.value))
                    (field (js "Timeout") (str timeout.value) end))))))
      or_report (js "failed to Search first: ") (do
        set_panels (λ q. record q { search_first_result = js "<i>searching first...</i>" ∷ [] })
        r ← post_to h addr form_type body
        print_success (js "Search done, result: " ++ r.body)
        set_panels (λ q. record q {
          search_first_result =
              (if is_empty r.body then js "<i>Nothing found</i>" else js "Names: " ++ r.body) ∷ [];
        })
        print_success (js "search first done, result: " ++ r.body)))

  -- The body of the `try` of `Naming.resolve`.
  unfoldable pub show_resolved : Text → Gui (Unit {0})
  show_resolved addr = do
    r ← get_from h addr
    set_panels (λ q. record q {
      resolve_result = (if is_empty r.body then js "<i>nothing found</i>" else r.body) ∷ [];
    })
    print_success (js "filename resolved")

  -- `Naming.resolve`, which goes on whatever `checkInputs` answers
  unfoldable pub resolve : Input → Gui (Unit {0})
  resolve filename = do
    check_inputs (filename ∷ [])
    addr ← api_url (js "/datasharing/naming?name=" ++ filename.value)
    or_report (js "Failed to resolve filename: ") (show_resolved addr)

  -- `Naming.tag`
  unfoldable pub tag : Input → Input → Gui (Unit {0})
  tag filename metahash = do
    addr ← api_url (js "/datasharing/naming")
    when_filled (filename ∷ metahash ∷ []) (do
      body ← to_json h (arr (text_items (filename.value ∷ metahash.value ∷ [])))
      or_report (js "failed to tag filename: ")
          (do post_to h addr json_type body; print_success (js "tagging done")))
