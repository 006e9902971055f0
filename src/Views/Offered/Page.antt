-- ===== src/Views/Offered/Page.antt =====
-- What the page offers is what the user may do.
use mathlib.Core.List.{Memᴰ}
use namecoin.Prelude.{
  ◌≡◌, ◌↔◌, inl, inr, refl, arith, true, false, Bool-cases, List, [], ◌∷◌, ◌++◌, append_assoc,
  append-nil, is_empty, if◌then◌else◌,
}
use namecoin.Js.Value.{Value}
use namecoin.Js.Platform.{Platform}
use namecoin.Composables.UseWallet.{is_wallet_loaded}
use namecoin.Markup.{
  Vue, Control, Among, offers, node_offers, can_be_submitted, is_accepted, click, decide,
  enter_text, enter_value,
}
use namecoin.Markup.Laws.{Among-append, Among-left, Among-right}
use namecoin.Views.WalletPage.{WalletPage, Row}
use namecoin.Views.WalletPage.Template.Rows.{row_items}
use namecoin.Views.WalletPage.Template.{
  page_header, domain_input, ttl_input, submit_control, commitment_form, status_box, tx_info,
  transaction_section, clear_control, domains_subsection, my_domains_section, registered_item,
  registered_items, dns_section, wallet_view,
}
use namecoin.Views.Events.{Event, submit, refresh, clear_names, type_domain, type_ttl}
use namecoin.Views.Offered.{May, type_name, type_time_to_live, commit, clear, in_row, look_up}
use namecoin.Views.Offered.Rows.{row_items-RowMay, RowMay-row_items}

module _ (p : Platform) (u : Vue) (s : WalletPage) where
  abbrev form_part : List (Control Event)
  form_part =
      if s.is_processing
      then []
      else (if is_empty s.domain_name then [] else click submit ∷ [])
        ++ enter_text type_domain ∷ enter_value type_ttl ∷ []

  abbrev names_part : List (Control Event)
  names_part =
      if is_empty s.my_domains then [] else decide clear_names ∷ offers (row_items p u s.my_domains)

  transaction_section-offers : node_offers (transaction_section u s) ≡ form_part
  unfolding offers can_be_submitted is_accepted transaction_section commitment_form domain_input
      ttl_input submit_control status_box tx_info
  transaction_section-offers = ground arith

  my_domains_section-offers : node_offers (my_domains_section p u s) ≡ names_part
  unfolding offers my_domains_section domains_subsection clear_control
  my_domains_section-offers = elim (Bool-cases (is_empty s.my_domains)) [
    | inl e ↦ rw e
    | inr e ↦ rw e (simp append-nil)
  ]

  registered_items-offers : (ds : List Value) → offers (registered_items u ds) ≡ []
  unfolding offers registered_items registered_item
  registered_items-offers [] = refl
  registered_items-offers (d ∷ ds) = registered_items-offers ds

  dns_section-offers : node_offers (dns_section u s) ≡ click refresh ∷ []
  unfolding offers dns_section
  dns_section-offers = ground (arith, registered_items-offers s.domains)

  wallet_view-offers :
      offers (wallet_view p u s)
      ≡ (if is_wallet_loaded s.shared then form_part ++ names_part else []) ++ click refresh ∷ []
  unfolding offers wallet_view page_header
  wallet_view-offers = elim (Bool-cases (is_wallet_loaded s.shared)) [
    | inl e ↦ rw e (
        simp (
          transaction_section-offers, my_domains_section-offers, dns_section-offers, append_assoc,
          append-nil,
        ))
    | inr e ↦ rw e (simp (dns_section-offers, append-nil))
  ]

  form_part-May : (e : Event) → is_wallet_loaded s.shared ≡ true → Among form_part e → May p s e
  form_part-May e loaded h = elim (Bool-cases s.is_processing) [
    | inl busy ↦ absurd (rw busy at h)
    | inr idle ↦
        elim (Among-append (if is_empty s.domain_name then [] else click submit ∷ [])
          (enter_text type_domain ∷ enter_value type_ttl ∷ []) e (rw idle at h)) [
            | inl a ↦ elim (Bool-cases (is_empty s.domain_name)) [
              | inl bare ↦ absurd (rw bare at a)
              | inr named ↦ elim (rw named at a) [
                | inl same ↦ rw (← same) (commit loaded idle named)
                | inr a' ↦ absurd a'
              ]
            ]
            | inr (inl (t, same)) ↦ rw (← same) (type_name t loaded idle)
            | inr (inr (inl (v, same))) ↦ rw (← same) (type_time_to_live v loaded idle)
            | inr (inr (inr a)) ↦ absurd a
          ]
  ]

  names_part-May : (e : Event) → is_wallet_loaded s.shared ≡ true → Among names_part e → May p s e
  names_part-May e loaded h = elim (Bool-cases (is_empty s.my_domains)) [
    | inl bare ↦ absurd (rw bare at h)
    | inr some_rows ↦ elim (rw some_rows at h) [
      | inl (b, same) ↦ rw (← same) (clear b loaded some_rows)
      | inr a ↦ let (row, m, may) = row_items-RowMay p u s.my_domains e a in in_row row loaded m may
    ]
  ]

  offered-May : (e : Event) → Among (offers (wallet_view p u s)) e → May p s e
  offered-May e h =
      elim (Among-append (if is_wallet_loaded s.shared then form_part ++ names_part else [])
        (click refresh ∷ []) e (rw wallet_view-offers at h)) [
          | inl a ↦ elim (Bool-cases (is_wallet_loaded s.shared)) [
            | inl loaded ↦ elim (Among-append form_part names_part e (rw loaded at a)) [
              | inl f ↦ form_part-May e loaded f
              | inr n ↦ names_part-May e loaded n
            ]
            | inr without ↦ absurd (rw without at a)
          ]
          | inr (inl same) ↦ rw (← same) look_up
          | inr (inr a) ↦ absurd a
        ]

  in_sections :
      (e : Event)
      → is_wallet_loaded s.shared ≡ true
      → Among (form_part ++ names_part) e
      → Among (offers (wallet_view p u s)) e
  in_sections e loaded h =
      rw (wallet_view-offers, loaded)
        (Among-left (form_part ++ names_part) (click refresh ∷ []) e h)

  in_form :
      (e : Event)
      → is_wallet_loaded s.shared ≡ true
      → Among form_part e
      → Among (offers (wallet_view p u s)) e
  in_form e loaded h = in_sections e loaded (Among-left form_part names_part e h)

  in_names :
      (e : Event)
      → is_wallet_loaded s.shared ≡ true
      → Among names_part e
      → Among (offers (wallet_view p u s)) e
  in_names e loaded h = in_sections e loaded (Among-right form_part names_part e h)

  abbrev form_inputs : List (Control Event)
  form_inputs = enter_text type_domain ∷ enter_value type_ttl ∷ []

  in_inputs : (e : Event) → s.is_processing ≡ false → Among form_inputs e → Among form_part e
  in_inputs e idle h =
      rw idle
        (Among-right (if is_empty s.domain_name then [] else click submit ∷ []) form_inputs e h)

  member-is_empty : (row : Row) (rows : List Row) → Memᴰ row rows → is_empty rows ≡ false
  member-is_empty row [] m = elim m [ ]
  member-is_empty row (r ∷ rows) m = refl

  May-offered : (e : Event) → May p s e → Among (offers (wallet_view p u s)) e
  May-offered e (type_name t loaded idle) = in_form e loaded (in_inputs e idle (inl (t, refl)))
  May-offered e (type_time_to_live v loaded idle) =
      in_form e loaded (in_inputs e idle (inr (inl (v, refl))))
  May-offered e (commit loaded idle named) = in_form e loaded (rw (idle, named) (inl refl))
  May-offered e (clear b loaded some_rows) = in_names e loaded (rw some_rows (inl (b, refl)))
  May-offered e (in_row row loaded m may) = in_names e loaded (
      rw (member-is_empty row s.my_domains m) (inr (RowMay-row_items p u row s.my_domains e m may)))
  May-offered e look_up = rw wallet_view-offers (Among-right _ (click refresh ∷ []) e (inl refl))

-- What the user may do at the rendered page is just this: with a wallet loaded and nothing being processed, to
-- type in the form, and to submit it if a name is typed; with a wallet and some names, to clear them, and at
-- each shown row that no handler is at work on, to type an address and a time to live, and to reveal a
-- pending name or update a revealed one if an address is typed there; and always to refresh the registry.
pub wallet_view-offers_iff :
    (p : Platform) (u : Vue) (s : WalletPage) (e : Event)
    → Among (offers (wallet_view p u s)) e ↔ May p s e
wallet_view-offers_iff p u s e = (offered-May p u s e, May-offered p u s e)
