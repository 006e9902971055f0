-- ===== src/Gui/Failures.antt =====
-- How the forms of the page end where a request fails.
use namecoin.Prelude.{◌≡◌, ◌⊎◌, inl, inr, refl, false, Option, none, List, [], ◌∷◌, ◌++◌, ◌==◌}
use namecoin.Js.Text.{Text, js}
use namecoin.Js.Value.{Value}
use namecoin.Js.Effect.{
  Exception, ok, throw, thrown, describe, raise, modify, within, catch_with, ◌>>=◌,
}
use namecoin.Js.Platform.{Request, Response, Fetched, responded, rejected, fetch}
use namecoin.Gui.Page.{
  Host, Page, Gui, Input, failure, create_flash, Panels, print, print_error, set_panels, api_url,
  to_json, or_report, when_filled, get_from, post_to, base_fetch, in_page, wrong_status,
}
use namecoin.Gui.Messaging.{send_unicast, send_chat, send_private}
use namecoin.Gui.Routing.{add_peer, set_entry}
use namecoin.Gui.Sharing.{add_catalog, download, search_all, search_first, tag}
use namecoin.Gui.Laws.{
  Form, unicast, private_chat, new_entry, new_tag, broadcast, new_peer, wanted_file, route_entry,
  search_every, search_one, submit, required, first_empty, check_inputs_lem,
}

-- The request fails with the exception: the network rejects it, or the status of the response is not 200.
abbrev pub Failed : Exception → Fetched → Type 0
Failed x f =
    (f ≡ rejected x)
    ⊎ ((r : Response) × (f ≡ responded r)
        × ((r.status == 200) ≡ false)
        × (x ≡ thrown (wrong_status r)))

-- What a form says before the exception.
abbrev pub complaint : Form → Text
complaint (unicast m d) = js "failed to send message: "
complaint (private_chat m r) = js "failed to send message: "
complaint (new_entry k v) = js "failed to add catalog entry: "
complaint (new_tag f m) = js "failed to tag filename: "
complaint (broadcast m) = js "failed to send message: "
complaint (new_peer q) = js "failed to add peer: "
complaint (wanted_file m) = js "Failed to download data: "
complaint (route_entry o r) = js "failed to set entry: "
complaint (search_every q b t) = js "failed to searchAll: "
complaint (search_one q i f r t) = js "failed to Search first: "

module _ (h : Host) (x : Exception) where
  -- The request that is sent next fails.
  abbrev FailsNext : Page → Type 0
  FailsNext s = (q : Request) → Failed x (h.platform.answer s.browser.asked q)

  record Fails {A : Type 0} (m : Gui A) : Type 0 where
    at : (s : Page) → FailsNext s → ((m s).0 ≡ throw x) × ((m s).1.flashes ≡ s.flashes)

  fetched :
      (f : Fetched) (s : Page) (q : Request)
      → Failed x f
      → h.platform.answer s.browser.asked q ≡ f
      → ((base_fetch h q s).0 ≡ throw x) × ((base_fetch h q s).1.flashes ≡ s.flashes)
  unfolding base_fetch in_page within fetch ◌>>=◌ raise
  fetched f s q (inl e) same = rw (fetch, same, e) (refl, refl)
  fetched f s q (inr (r, e, bad, why)) same = rw (fetch, same, e, bad, why) (refl, refl)

  base_fetch-Fails : (q : Request) → Fails (base_fetch h q)
  base_fetch-Fails q = record {
    at = λ s next. fetched (h.platform.answer s.browser.asked q) s q (next q) refl;
  }

  Fails-bind : {A B : Type 0} (m : Gui A) (f : A → Gui B) → Fails m → Fails (m >>= f)
  unfolding ◌>>=◌
  Fails-bind m f hm = record { at = λ s next. let (e, same) = hm.at s next in rw e (refl, same) }

  Fails-set_panels :
      {B : Type 0} (g : Panels → Panels) (f : Unit {0} → Gui B)
      → Fails (f tt)
      → Fails (set_panels g >>= f)
  unfolding set_panels modify ◌>>=◌
  Fails-set_panels g f hf = record { at = λ s next. hf.at _ next }

  get_from-Fails : (url : Text) → Fails (get_from h url)
  unfolding get_from
  get_from-Fails url = base_fetch-Fails _

  post_to-Fails : (url : Text) (t : Option Text) (body : Text) → Fails (post_to h url t body)
  unfolding post_to
  post_to-Fails url t body = base_fetch-Fails _

  -- The handler returns, and one message is added.
  record Reports (prefix : Text) (m : Gui (Unit {0})) : Type 0 where
    at :
        (s : Page)
        → FailsNext s
        → ((m s).0 ≡ ok tt)
          × ((m s).1.flashes ≡ s.flashes ++ create_flash failure (prefix ++ describe x) ∷ [])

  or_report-Reports :
      (prefix : Text) (m : Gui (Unit {0})) → Fails m → Reports prefix (or_report prefix m)
  unfolding or_report catch_with print_error print modify
  or_report-Reports prefix m hm = record {
    at = λ s next. let (e, same) = hm.at s next in rw (e, same) (refl, refl);
  }

  when_filled-Reports :
      (prefix : Text) (els : List Input) (m : Gui (Unit {0}))
      → first_empty els ≡ none
      → Reports prefix m
      → Reports prefix (when_filled els m)
  unfolding when_filled ◌>>=◌
  when_filled-Reports prefix els m filled hm = record {
    at = λ s next. rw (check_inputs_lem, filled) (hm.at s next);
  }

  to_json-Reports :
      (prefix : Text) (v : Value) (f : Text → Gui (Unit {0}))
      → ((w : Value) → (t : Text) × (h.platform.stringify w ≡ ok t))
      → ((t : Text) → Reports prefix (f t))
      → Reports prefix (to_json h v >>= f)
  unfolding to_json ◌>>=◌
  to_json-Reports prefix v f total k =
      let (t, e) = total v in record { at = λ s next. rw e ((k t).at s next) }

  api_url-Reports :
      (prefix suffix : Text) (f : Text → Gui (Unit {0}))
      → ((t : Text) → Reports prefix (f t))
      → Reports prefix (api_url suffix >>= f)
  unfolding api_url ◌>>=◌
  api_url-Reports prefix suffix f k = record { at = λ s next. (k (s.endpoint ++ suffix)).at s next }

  ruleset report_rules = (
    or_report-Reports, when_filled-Reports, to_json-Reports, api_url-Reports, Fails-set_panels,
    Fails-bind, get_from-Fails, post_to-Fails,
  )

  submit-Reports :
      (form : Form)
      → ((w : Value) → (t : Text) × (h.platform.stringify w ≡ ok t))
      → first_empty (required form) ≡ none
      → Reports (complaint form) (submit h form)
  unfolding submit send_unicast send_private add_catalog tag send_chat add_peer download set_entry
      search_all search_first
  submit-Reports (unicast m d) total filled = search report_rules depth 12
  submit-Reports _ total filled = search report_rules depth 12

-- Let `JSON.stringify` always return, let the inputs that a form requires be filled, and let the request that is sent
-- next fail, by the network or by its status. Then the form's handler returns, and it shows one more message, its
-- own words and the exception.
pub submit-fails :
    (h : Host) (x : Exception) (form : Form) (s : Page)
    → ((w : Value) → (t : Text) × (h.platform.stringify w ≡ ok t))
    → first_empty (required form) ≡ none
    → ((q : Request) → Failed x (h.platform.answer s.browser.asked q))
    → ((submit h form s).0 ≡ ok tt)
      × ((submit h form s).1.flashes
          ≡ s.flashes ++ create_flash failure (complaint form ++ describe x) ∷ [])
submit-fails h x form s total filled next = (submit-Reports h x form total filled).at s next
