-- ===== src/Views/Offered/Rows.antt =====
-- What the rows offer.
use Prim.Native.String.{String}
use mathlib.Core.List.{Memᴰ}
use namecoin.Prelude.{
  ◌≡◌, ◌⊎◌, inl, inr, refl, arith, Bool, true, false, Bool-cases, List, [], ◌∷◌, ◌++◌,
  if◌then◌else◌,
}
use namecoin.Js.Text.{Text, js}
use namecoin.Js.Value.{Value, str, get_field, truthy}
use namecoin.Js.Platform.{Platform}
use namecoin.Markup.{Vue, Control, Among, offers, node_offers, click, enter_text, enter_value}
use namecoin.Markup.Laws.{Among-append, Among-left, Among-right}
use namecoin.Views.WalletPage.{Row, clamp_ttl}
use namecoin.Views.WalletPage.Template.Rows.{
  is_status, address_input, row_ttl_input, row_button, pending_controls, revealed_controls,
  row_header, current_address, row_item, row_items,
}
use namecoin.Views.Events.{Event, reveal_name, update_name, type_in_row}
use namecoin.Views.Offered.{
  IsOpen, RowMay, type_address, type_time, reveal, type_new_address, type_new_time, update,
}

-- The actions of a row with an address and a time, unless it is busy.
abbrev row_controls : Platform → Row → Bool → String → String → Event → List (Control Event)
row_controls p row busy ip time e =
    if busy
    then []
    else enter_text (λ t. type_in_row row.key (js ip) (str t))
      ∷ enter_value (λ v. type_in_row row.key (js time) (clamp_ttl p v))
      ∷ (if truthy (get_field (js ip) row.entry) then click e ∷ [] else [])

module _ (p : Platform) (u : Vue) (row : Row) where
  abbrev pending_part : List (Control Event)
  pending_part =
      if is_status "pending" row
      then row_controls p row (truthy (get_field (js "isRevealing") row.entry)) "revealIp"
          "revealTtl" (reveal_name row)
      else []

  abbrev revealed_part : List (Control Event)
  revealed_part =
      if is_status "revealed" row
      then row_controls p row (truthy (get_field (js "isUpdating") row.entry)) "newIp" "updateTtl"
          (update_name row)
      else []

  row_item-offers : node_offers (row_item p u row) ≡ pending_part ++ revealed_part
  unfolding offers row_item row_header current_address pending_controls revealed_controls
      address_input row_ttl_input row_button
  row_item-offers = ground arith

  pending_part-offered :
      (ev : Event) → Among pending_part ev → Among (node_offers (row_item p u row)) ev
  pending_part-offered ev h = rw row_item-offers (Among-left pending_part revealed_part ev h)

  revealed_part-offered :
      (ev : Event) → Among revealed_part ev → Among (node_offers (row_item p u row)) ev
  revealed_part-offered ev h = rw row_item-offers (Among-right pending_part revealed_part ev h)

  row_controls-cases :
      (busy : Bool) (ip time : String) (e ev : Event)
      → Among (row_controls p row busy ip time e) ev
      → (busy ≡ false)
        × (((t : Text) × (type_in_row row.key (js ip) (str t) ≡ ev))
            ⊎ (((v : Value) × (type_in_row row.key (js time) (clamp_ttl p v) ≡ ev))
                ⊎ ((truthy (get_field (js ip) row.entry) ≡ true) × (e ≡ ev))))
  row_controls-cases true ip time e ev h = absurd h
  row_controls-cases false ip time e ev (inl a) = (refl, inl a)
  row_controls-cases false ip time e ev (inr (inl a)) = (refl, inr (inl a))
  row_controls-cases false ip time e ev (inr (inr h)) =
      elim (Bool-cases (truthy (get_field (js ip) row.entry))) [
        | inl filled ↦ elim (rw filled at h) [
          | inl same ↦ (refl, inr (inr (filled, same)))
          | inr h' ↦ absurd h'
        ]
        | inr bare ↦ absurd (rw bare at h)
      ]

  pending-RowMay :
      (ev : Event)
      → is_status "pending" row ≡ true
      → Among
          (row_controls p row
            (truthy (get_field (js "isRevealing") row.entry))
            "revealIp"
            "revealTtl"
            (reveal_name row))
          ev
      → RowMay p row ev
  pending-RowMay ev is h =
      let (rest, which) = row_controls-cases _ "revealIp" "revealTtl" (reveal_name row) ev h in
      let free : IsOpen row "pending" "isRevealing" = record { has_status = is; at_rest = rest } in
      elim which [
        | inl (t, same) ↦ rw (← same) (type_address t free)
        | inr (inl (v, same)) ↦ rw (← same) (type_time v free)
        | inr (inr (filled, same)) ↦ rw (← same) (reveal free filled)
      ]

  revealed-RowMay :
      (ev : Event)
      → is_status "revealed" row ≡ true
      → Among
          (row_controls p row
            (truthy (get_field (js "isUpdating") row.entry))
            "newIp"
            "updateTtl"
            (update_name row))
          ev
      → RowMay p row ev
  revealed-RowMay ev is h =
      let (rest, which) = row_controls-cases _ "newIp" "updateTtl" (update_name row) ev h in
      let free : IsOpen row "revealed" "isUpdating" = record { has_status = is; at_rest = rest } in
      elim which [
        | inl (t, same) ↦ rw (← same) (type_new_address t free)
        | inr (inl (v, same)) ↦ rw (← same) (type_new_time v free)
        | inr (inr (filled, same)) ↦ rw (← same) (update free filled)
      ]

  row_item-RowMay : (ev : Event) → Among (node_offers (row_item p u row)) ev → RowMay p row ev
  row_item-RowMay ev h =
      elim (Among-append pending_part revealed_part ev (rw row_item-offers at h)) [
        | inl a ↦ elim (Bool-cases (is_status "pending" row)) [
          | inl yes_pending ↦ pending-RowMay ev yes_pending (rw yes_pending at a)
          | inr other ↦ absurd (rw other at a)
        ]
        | inr a ↦ elim (Bool-cases (is_status "revealed" row)) [
          | inl yes_revealed ↦ revealed-RowMay ev yes_revealed (rw yes_revealed at a)
          | inr other ↦ absurd (rw other at a)
        ]
      ]

  RowMay-row_item : (ev : Event) → RowMay p row ev → Among (node_offers (row_item p u row)) ev
  RowMay-row_item ev (type_address t free) =
      pending_part-offered ev (rw (free.has_status, free.at_rest) (inl (t, refl)))
  RowMay-row_item ev (type_time v free) =
      pending_part-offered ev (rw (free.has_status, free.at_rest) (inr (inl (v, refl))))
  RowMay-row_item ev (reveal free filled) =
      pending_part-offered ev (rw (free.has_status, free.at_rest, filled) (inr (inr (inl refl))))
  RowMay-row_item ev (type_new_address t free) =
      revealed_part-offered ev (rw (free.has_status, free.at_rest) (inl (t, refl)))
  RowMay-row_item ev (type_new_time v free) =
      revealed_part-offered ev (rw (free.has_status, free.at_rest) (inr (inl (v, refl))))
  RowMay-row_item ev (update free filled) =
      revealed_part-offered ev (rw (free.has_status, free.at_rest, filled) (inr (inr (inl refl))))

module _ (p : Platform) (u : Vue) where
  pub row_items-RowMay :
      (rows : List Row) (e : Event)
      → Among (offers (row_items p u rows)) e
      → (row : Row) × Memᴰ row rows × RowMay p row e
  unfolding offers row_items
  row_items-RowMay [] e h = absurd h
  row_items-RowMay (row ∷ rows) e h = elim (Among-append _ _ e h) [
    | inl a ↦ (row, Memᴰ.head refl, row_item-RowMay p u row e a)
    | inr a ↦ let (r, m, may) = row_items-RowMay rows e a in (r, Memᴰ.tail m, may)
  ]

  pub RowMay-row_items :
      (row : Row) (rows : List Row) (e : Event)
      → Memᴰ row rows
      → RowMay p row e
      → Among (offers (row_items p u rows)) e
  unfolding offers row_items
  RowMay-row_items row (r ∷ rows) e (Memᴰ.head same) may =
      Among-left _ _ e (RowMay-row_item p u r e (rw same at may))
  RowMay-row_items row (r ∷ rows) e (Memᴰ.tail m) may =
      Among-right _ _ e (RowMay-row_items row rows e m may)
  RowMay-row_items row [] e m may = elim m [ ]
