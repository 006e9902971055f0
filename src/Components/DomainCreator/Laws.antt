-- ===== src/Components/DomainCreator/Laws.antt =====
-- What `handleSubmit` of the component comes to.
use namecoin.Prelude.{
  ◌≡◌, ◌⊎◌, refl, false, [], ◌∷◌, ◌++◌, inl, inr, Bool-cases, ◌∙◌, arith, List, if◌then◌else◌,
}
use namecoin.Js.Text.{Text, js}
use namecoin.Js.Value.{truthy}
use namecoin.Js.Effect.{Exception, ok, message, catch_with, within, ◌>>=◌}
use namecoin.Js.Platform.{Platform}
use namecoin.Composables.UseTransaction.Create.{create_transaction-no_pk}
use namecoin.Components.DomainCreator.{
  Creator, asked_params, can_submit, handle_submit, inputs_changed, regenerate_salt, set_hashed,
  in_shared,
}
use namecoin.Components.DomainCreator.Template.{
  CreatorEvent, mount, submit, regenerate, watched, type_domain, type_fee, on_creator_event,
  on_creator_events, name_field, salt_field, hash_field, fee_field, creator_view, accepts,
}
use namecoin.Markup.{Vue, offers, can_be_submitted, is_accepted, click, enter_text, enter_value}

-- `handleSubmit` of the component returns and never emits `transaction-created`, whatever the node
-- answers. Where the form cannot be submitted it changes nothing, else it alerts the message of an
-- exception.
handle_submit-never_emits :
    (p : Platform) (s : Creator)
    → ((handle_submit p s).0 ≡ ok tt)
      × ((handle_submit p s).1.emitted ≡ s.emitted)
      × ((can_submit s ≡ false) × ((handle_submit p s).1 ≡ s)
          ⊎ (e : Exception) × ((handle_submit p s).1.alerts
              ≡ s.alerts ++ (js "Failed to create transaction: " ++ message e) ∷ []))
unfolding handle_submit in_shared asked_params truthy catch_with ◌>>=◌ within
handle_submit-never_emits p s =
    let (e, thrown, rest) = create_transaction-no_pk p (asked_params s) s.shared refl in
    elim (Bool-cases (can_submit s)) [
      | inl on ↦ rw (on, thrown) (refl, refl, inr (e, refl))
      | inr off ↦ rw off (refl, refl, inl (refl, refl))
    ]

-- What the form offers.
creator_view-offers :
    (u : Vue) (s : Creator)
    → offers (creator_view u s)
      ≡ (if can_submit s then (if accepts u s then click submit ∷ [] else []) else [])
        ++ enter_text type_domain ∷ click regenerate ∷ enter_value type_fee ∷ []
unfolding offers can_be_submitted is_accepted accepts creator_view name_field salt_field hash_field
    fee_field
creator_view-offers u s = ground arith

regenerate_salt-emitted : (p : Platform) (s : Creator) → (regenerate_salt p s).1.emitted ≡ s.emitted
unfolding regenerate_salt in_shared within ◌>>=◌
regenerate_salt-emitted p s = ground arith

inputs_changed-emitted :
    (p : Platform) (d t : Text) (s : Creator) → (inputs_changed p d t s).1.emitted ≡ s.emitted
unfolding inputs_changed set_hashed catch_with ◌>>=◌
inputs_changed-emitted p d t s = ground arith

on_creator_event-emitted :
    (p : Platform) (e : CreatorEvent) (s : Creator) → (on_creator_event p e s).emitted ≡ s.emitted
unfolding on_creator_event
on_creator_event-emitted p mount s = regenerate_salt-emitted p s
on_creator_event-emitted p submit s = (handle_submit-never_emits p s).1
on_creator_event-emitted p regenerate s = regenerate_salt-emitted p s
on_creator_event-emitted p watched s = inputs_changed-emitted p s.domain_name s.salt s
on_creator_event-emitted p (type_domain t) s = refl
on_creator_event-emitted p (type_fee v) s = refl

on_creator_events-emitted :
    (p : Platform) (es : List CreatorEvent) (s : Creator)
    → (on_creator_events p es s).emitted ≡ s.emitted
unfolding on_creator_events
on_creator_events-emitted p [] s = refl
on_creator_events-emitted p (e ∷ es) s =
    on_creator_events-emitted p es (on_creator_event p e s) ∙ on_creator_event-emitted p e s

-- Whatever the user does at the component, and whatever the node answers, it emits no transaction, although it
-- offers to submit the form wherever there is a name with a salt, a hash and no error, and the browser accepts
-- the name and the fee.
pub on_creator_events-never_emit :
    (p : Platform) (u : Vue) (es : List CreatorEvent) (s : Creator)
    → let t = on_creator_events p es s in
      (t.emitted ≡ s.emitted)
      × (offers (creator_view u t)
          ≡ (if can_submit t then (if accepts u t then click submit ∷ [] else []) else [])
            ++ enter_text type_domain ∷ click regenerate ∷ enter_value type_fee ∷ [])
on_creator_events-never_emit p u es s =
    (on_creator_events-emitted p es s, creator_view-offers u (on_creator_events p es s))
