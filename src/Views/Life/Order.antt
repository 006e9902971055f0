-- ===== src/Views/Life/Order.antt =====
-- The names of one domain agree, from the first on.
use namecoin.Prelude.{
  ◌≡◌, ◌⊎◌, inl, inr, refl, false, Bool-cases, List, [], ◌∷◌, ◌++◌, map, All, arith,
}
use namecoin.Js.Text.{Text, text_eq, text_eq_iff}
use namecoin.Views.Life.{
  Name, Action, pending, reveal_in, renew_in, drop_from, NameStep, commit, reveal, renew, drop,
  clear, Reach, here, next,
}

-- Of two names of one domain, the later is pending, or it is as the earlier.
abbrev pub Agrees : Name → Name → Type 0
Agrees n k = (text_eq n.domain k.domain ≡ false) ⊎ ((k.life ≡ pending) ⊎ (n.life ≡ k.life))

abbrev pub IsOrdered : List Name → Type 0
IsOrdered [] = Unit
IsOrdered (n ∷ ns) = All (Agrees n) ns × IsOrdered ns

Agrees-reveal :
    (d ip : Text) (n k : Name) → Agrees n k → Agrees (reveal_in d ip n) (reveal_in d ip k)
unfolding reveal_in
Agrees-reveal d ip n k h =
    ground (arith, text_eq_iff n.domain k.domain, text_eq_iff n.domain d, text_eq_iff k.domain d)

Agrees-renew : (d ip : Text) (n k : Name) → Agrees n k → Agrees (renew_in d ip n) (renew_in d ip k)
unfolding renew_in
Agrees-renew d ip n k h =
    ground (arith, text_eq_iff n.domain k.domain, text_eq_iff n.domain d, text_eq_iff k.domain d)

module _ (g : Name → Name) (keep : (n k : Name) → Agrees n k → Agrees (g n) (g k)) where
  All-map : (n : Name) (ns : List Name) → All (Agrees n) ns → All (Agrees (g n)) (map g ns)
  All-map n [] h = tt
  All-map n (k ∷ ns) (a, h) = (keep n k a, All-map n ns h)

  IsOrdered-map : (ns : List Name) → IsOrdered ns → IsOrdered (map g ns)
  IsOrdered-map [] h = tt
  IsOrdered-map (n ∷ ns) (a, h) = (All-map n ns a, IsOrdered-map ns h)

All-snoc :
    (n k : Name) (ns : List Name) → All (Agrees n) ns → Agrees n k → All (Agrees n) (ns ++ k ∷ [])
All-snoc n k [] h a = (a, tt)
All-snoc n k (m ∷ ns) (b, h) a = (b, All-snoc n k ns h a)

IsOrdered-snoc :
    (k : Name) (ns : List Name) → k.life ≡ pending → IsOrdered ns → IsOrdered (ns ++ k ∷ [])
IsOrdered-snoc k [] e h = (tt, tt)
IsOrdered-snoc k (n ∷ ns) e (a, h) = (All-snoc n k ns a (inr (inl e)), IsOrdered-snoc k ns e h)

All-drop_from :
    (n : Name) (d : Text) (ns : List Name) → All (Agrees n) ns → All (Agrees n) (drop_from d ns)
unfolding drop_from
All-drop_from n d [] h = tt
All-drop_from n d (k ∷ ns) (a, h) = elim (Bool-cases (text_eq k.domain d)) [
  | inl e ↦ rw e (All-drop_from n d ns h)
  | inr e ↦ rw e (a, All-drop_from n d ns h)
]

IsOrdered-drop_from : (d : Text) (ns : List Name) → IsOrdered ns → IsOrdered (drop_from d ns)
unfolding drop_from
IsOrdered-drop_from d [] h = tt
IsOrdered-drop_from d (n ∷ ns) (a, h) = elim (Bool-cases (text_eq n.domain d)) [
  | inl e ↦ rw e (IsOrdered-drop_from d ns h)
  | inr e ↦ rw e (All-drop_from n d ns a, IsOrdered-drop_from d ns h)
]

NameStep-IsOrdered :
    {a : Action} {ns ms : List Name} → NameStep ns a ms → IsOrdered ns → IsOrdered ms
NameStep-IsOrdered {ns = ns} (commit domain salt txid) h = IsOrdered-snoc _ ns refl h
NameStep-IsOrdered {ns = ns} (reveal d ip) h =
    IsOrdered-map (reveal_in d ip) (Agrees-reveal d ip) ns h
NameStep-IsOrdered {ns = ns} (renew d ip) h = IsOrdered-map (renew_in d ip) (Agrees-renew d ip) ns h
NameStep-IsOrdered {ns = ns} (drop d) h = IsOrdered-drop_from d ns h
NameStep-IsOrdered clear h = tt

pub Reach-IsOrdered :
    {permits : Action → Type 0} {ns ms : List Name}
    → Reach permits ns ms
    → IsOrdered ns
    → IsOrdered ms
Reach-IsOrdered here h = h
Reach-IsOrdered (next r _ step) h = NameStep-IsOrdered step (Reach-IsOrdered r h)
