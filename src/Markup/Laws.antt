-- ===== src/Markup/Laws.antt =====
-- Which events a list of actions may become.
use namecoin.Prelude.{◌⊎◌, inl, inr, List, [], ◌∷◌, ◌++◌}
use namecoin.Markup.{Control, Among}

module _ {E : Type 0} where
  pub Among-append :
      (cs ds : List (Control E)) (e : E) → Among (cs ++ ds) e → Among cs e ⊎ Among ds e
  Among-append [] ds e h = inr h
  Among-append (c ∷ cs) ds e (inl g) = inl (inl g)
  Among-append (c ∷ cs) ds e (inr h) = elim (Among-append cs ds e h) [
    | inl a ↦ inl (inr a)
    | inr a ↦ inr a
  ]

  pub Among-left : (cs ds : List (Control E)) (e : E) → Among cs e → Among (cs ++ ds) e
  Among-left (c ∷ cs) ds e (inl g) = inl g
  Among-left (c ∷ cs) ds e (inr h) = inr (Among-left cs ds e h)
  Among-left [] ds e h = absurd h

  pub Among-right : (cs ds : List (Control E)) (e : E) → Among ds e → Among (cs ++ ds) e
  Among-right [] ds e h = h
  Among-right (c ∷ cs) ds e h = inr (Among-right cs ds e h)
