-- ===== src/Js/Storage/Laws.antt =====
-- What is read after a write to `localStorage`.
use namecoin.Prelude.{◌≡◌, none, some, [], ◌∷◌, arith, if◌then◌else◌}
use namecoin.Js.Text.{Text, text_eq, text_eq_iff}
use namecoin.Js.Platform.{Entries}
use namecoin.Js.Storage.{lookup, without}

pub lookup-without :
    (k j : Text) (m : Entries) → lookup j (without k m) ≡ (if text_eq k j then none else lookup j m)
unfolding lookup without
lookup-without k j [] = ground arith
lookup-without k j ((i, v) ∷ m) =
    ground (arith, lookup-without k j m, text_eq_iff i k, text_eq_iff i j, text_eq_iff k j)

pub lookup-set :
    (k j : Text) (v : Text) (m : Entries)
    → lookup j ((k, v) ∷ without k m) ≡ (if text_eq k j then some v else lookup j m)
unfolding lookup
lookup-set k j v m = ground (arith, lookup-without k j m)
