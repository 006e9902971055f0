-- ===== src/Gui/Ends.antt =====
-- How the forms and the views of the page end.
use namecoin.Prelude.{
  ◌≡◌, inl, inr, refl, ap, sym, ◌∙◌, Bool-cases, is_empty, append_assoc, append-nil, Option, none,
  some, List, [], ◌∷◌, ◌++◌, ◌==◌, if◌then◌else◌,
}
use namecoin.Js.Text.{Text, js}
use namecoin.Js.Effect.{
  Result, ok, throw, thrown, describe, pure, modify, raise, within, continue, catch_with, handle,
  ◌>>=◌,
}
use namecoin.Js.Platform.{Fetched-cases, Request, get, fetch}
use namecoin.Gui.Page.{
  Host, Page, Gui, Input, Flash, Kind, success, Panels, print, print_error, print_success,
  set_panels, api_url, or_report, get_from, base_fetch, in_page, wrong_status,
}
use namecoin.Gui.Sharing.{show_resolved, resolve}
use namecoin.Js.Effect.Preserves.{
  Preserves, Preserves-pure, Preserves-raise, Preserves-if, Preserves-bind,
}
use namecoin.Gui.Laws.{first_empty, complained, checked, check_inputs_lem}

-- The computation sends the request and no other.
record Sends (q : Request) {A : Type 0} (m : Gui A) : Type 0 where
  at : (s : Page) → (m s).1.browser.sent ≡ q ∷ s.browser.sent

abbrev sent : Page → List Request
sent s = s.browser.sent

continue-sent :
    {A B : Type 0} (r : Result A) (f : A → Gui B) (s : Page)
    → ((a : A) → Preserves (λ t. t.browser.sent) (f a))
    → (continue r f s).1.browser.sent ≡ s.browser.sent
continue-sent (ok a) f s k = (k a).at s
continue-sent (throw e) f s k = refl

then-Sends :
    {A B : Type 0} (q : Request) (m : Gui A) (f : A → Gui B)
    → Sends q m
    → ((a : A) → Preserves (λ t. t.browser.sent) (f a))
    → Sends q (m >>= f)
unfolding ◌>>=◌
then-Sends q m f hm k = record { at = λ s. let (r, s') = m s in continue-sent r f s' k ∙ hm.at s }

in_page-Sends : (h : Host) (q : Request) → Sends q (in_page (fetch h.platform q))
unfolding in_page fetch
in_page-Sends h q = record {
  at = λ s. elim (Fetched-cases (h.platform.answer s.browser.asked q)) [
    | inl (r, e) ↦ rw (fetch, e)
    | inr (x, e) ↦ rw (fetch, e)
  ];
}

base_fetch-Sends : (h : Host) (q : Request) → Sends q (base_fetch h q)
unfolding base_fetch
base_fetch-Sends h q = then-Sends q (in_page (fetch h.platform q)) _ (in_page-Sends h q) (λ r.
    Preserves-if (r.status == 200) _ _ (Preserves-pure r)
      (Preserves-raise (thrown (wrong_status r))))

print-Preserves : (k : Kind) (t : Text) → Preserves sent (print k t)
unfolding print modify
print-Preserves k t = record { at = λ s. refl }

set_panels-Preserves : (f : Panels → Panels) → Preserves sent (set_panels f)
unfolding set_panels modify
set_panels-Preserves f = record { at = λ s. refl }

handled-sent :
    (r : Result (Unit {0})) (s : Page) (prefix : Text)
    → (handle (r, s) (λ e. print_error (prefix ++ describe e))).1.browser.sent ≡ s.browser.sent
unfolding print_error print modify
handled-sent (ok tt) s prefix = refl
handled-sent (throw e) s prefix = refl

or_report-Sends :
    (q : Request) (prefix : Text) (m : Gui (Unit {0})) → Sends q m → Sends q (or_report prefix m)
unfolding or_report catch_with
or_report-Sends q prefix m h = record {
  at = λ s. let (r, s') = m s in handled-sent r s' prefix ∙ h.at s;
}

get_from-Sends :
    (h : Host) (url : Text)
    → Sends (record { method = get; url = url; content_type = none; body = none }) (get_from h url)
unfolding get_from
get_from-Sends h url = base_fetch-Sends h _

checked-sent :
    (o : Option Input) (suffix : Text) (m : Text → Gui (Unit {0})) (s : Page)
    → ((url : Text)
        → Sends (record { method = get; url = url; content_type = none; body = none }) (m url))
    → (continue (checked o s).0 (λ b. api_url suffix >>= m) (checked o s).1).1.browser.sent
      ≡ record { method = get; url = s.endpoint ++ suffix; content_type = none; body = none }
        ∷ s.browser.sent
unfolding api_url ◌>>=◌
checked-sent none suffix m s k = (k (s.endpoint ++ suffix)).at s
checked-sent (some el) suffix m s k = (k (s.endpoint ++ suffix)).at (complained el s)

-- The computation only adds messages to those that are shown.
record Adds {A : Type 0} (m : Gui A) : Type 0 where
  at : (s : Page) → (more : List Flash) × ((m s).1.flashes ≡ s.flashes ++ more)

appended :
    (fs first more : List Flash) {mid out : List Flash}
    → mid ≡ fs ++ first
    → out ≡ mid ++ more
    → out ≡ fs ++ (first ++ more)
appended fs first more e e' = e' ∙ ap (λ l. l ++ more) e ∙ append_assoc fs first more

module _ {A : Type 0} where
  same-Adds : (m : Gui A) → ((s : Page) → (m s).1.flashes ≡ s.flashes) → Adds m
  same-Adds m same = record { at = λ s. ([], same s ∙ sym (append-nil s.flashes)) }

  continued-Adds :
      {B : Type 0} (r : Result A) (f : A → Gui B) (s : Page)
      → ((a : A) → Adds (f a))
      → (more : List Flash) × ((continue r f s).1.flashes ≡ s.flashes ++ more)
  continued-Adds (ok a) f s k = (k a).at s
  continued-Adds (throw e) f s k = ([], sym (append-nil s.flashes))

  Adds-bind :
      {B : Type 0} (m : Gui A) (f : A → Gui B) → Adds m → ((a : A) → Adds (f a)) → Adds (m >>= f)
  unfolding ◌>>=◌
  Adds-bind m f hm k = record {
    at = λ s.
        let (first, e) = hm.at s in
        let (more, e') = continued-Adds (m s).0 f (m s).1 k in
        (first ++ more, appended s.flashes first more e e');
  }

handled-Adds :
    (r : Result (Unit {0})) (s : Page) (prefix : Text)
    → (more : List Flash) × ((handle (r, s) (λ e. print_error (prefix ++ describe e))).1.flashes
        ≡ s.flashes ++ more)
unfolding print_error print modify
handled-Adds (ok tt) s prefix = ([], sym (append-nil s.flashes))
handled-Adds (throw e) s prefix = (_, refl)

or_report-Adds : (prefix : Text) (m : Gui (Unit {0})) → Adds m → Adds (or_report prefix m)
unfolding or_report catch_with
or_report-Adds prefix m h = record {
  at = λ s.
      let (first, e) = h.at s in
      let (more, e') = handled-Adds (m s).0 (m s).1 prefix in
      (first ++ more, appended s.flashes first more e e');
}

print-Adds : (k : Kind) (t : Text) → Adds (print k t)
unfolding print modify
print-Adds k t = record { at = λ s. (_, refl) }

set_panels-Adds : (f : Panels → Panels) → Adds (set_panels f)
unfolding set_panels modify
set_panels-Adds f = same-Adds (set_panels f) (λ s. refl)

get_from-Adds : (h : Host) (url : Text) → Adds (get_from h url)
unfolding get_from base_fetch in_page within
get_from-Adds h url = Adds-bind _ _ (same-Adds _ (λ s. refl)) (λ r.
    elim (Bool-cases (r.status == 200)) [
      | inl good ↦ rw good (same-Adds _ (λ s. unfold pure in refl))
      | inr bad ↦ rw bad (same-Adds _ (λ s. unfold raise in refl))
    ])

checked-flashes :
    (el : Input) (suffix : Text) (m : Text → Gui (Unit {0})) (s : Page)
    → ((url : Text) → Adds (m url))
    → (more : List Flash) × ((continue
          (checked (first_empty (el ∷ [])) s).0
          (λ b. api_url suffix >>= m)
          (checked (first_empty (el ∷ [])) s).1).1.flashes
        ≡ (if is_empty el.value then (complained el s).flashes else s.flashes) ++ more)
unfolding api_url ◌>>=◌
checked-flashes el suffix m s k = elim (Bool-cases (is_empty el.value)) [
  | inl bare ↦ rw bare ((k (s.endpoint ++ suffix)).at (complained el s))
  | inr filled ↦ rw filled ((k (s.endpoint ++ suffix)).at s)
]

show_resolved-Adds : (h : Host) (url : Text) → Adds (show_resolved h url)
unfolding show_resolved print_success
show_resolved-Adds h url =
    Adds-bind _ _ (get_from-Adds h url)
      (λ r. Adds-bind _ _ (set_panels-Adds _) (λ x. print-Adds success _))

show_resolved-Sends :
    (h : Host) (url : Text)
    → Sends
        (record { method = get; url = url; content_type = none; body = none })
        (show_resolved h url)
unfolding show_resolved print_success
show_resolved-Sends h url =
    then-Sends _ _ _ (get_from-Sends h url)
      (λ r. Preserves-bind _ _ (set_panels-Preserves _) (λ x. print-Preserves success _))

-- `Naming.resolve` sends its request whatever the name is. Before all else that it shows it complains about the
-- name, if that is empty, and it keeps the messages that were there.
pub resolve-sends :
    (h : Host) (filename : Input) (s : Page)
    → ((resolve h filename s).1.browser.sent
        ≡ record {
          method = get;
          url = s.endpoint ++ (js "/datasharing/naming?name=" ++ filename.value);
          content_type = none;
          body = none;
        }
          ∷ s.browser.sent)
      × (more : List Flash) × ((resolve h filename s).1.flashes
          ≡ (if is_empty filename.value then (complained filename s).flashes else s.flashes)
            ++ more)
unfolding resolve ◌>>=◌
resolve-sends h filename s =
    let steps : Text → Gui (Unit {0}) =
      λ url. or_report (js "Failed to resolve filename: ") (show_resolved h url) in
    let suffix = js "/datasharing/naming?name=" ++ filename.value in
    let (more, added) =
      checked-flashes filename suffix steps s
        (λ url. or_report-Adds _ _ (show_resolved-Adds h url)) in
    (
      rw check_inputs_lem (
          checked-sent (first_empty (filename ∷ [])) suffix steps s
            (λ url. or_report-Sends _ _ _ (show_resolved-Sends h url))),
      more,
      rw check_inputs_lem added,
    )
