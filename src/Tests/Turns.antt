-- ===== src/Tests/Turns.antt =====
-- The wallet page at concrete inputs, with handlers that take turns.
use namecoin.Prelude.{All, refl, true, List, [], ◌∷◌}
use namecoin.Js.Text.{js}
use namecoin.Js.Effect.Async.{Move, start, resume}
use namecoin.Views.Life.{Name}
use namecoin.Views.Life.Order.{IsOrdered}
use namecoin.Views.Names.{Reads}
use namecoin.Views.Events.{
  Event, open_page, submit, refresh, reveal_name, update_name, clear_names, type_domain,
}
use namecoin.Views.Events.Requests.{IsRequest}
use namecoin.Views.Turns.{on_moves}
use namecoin.Views.Turns.Interleaved.{on_moves-IsRequest, on_moves-IsOrdered}
use namecoin.Tests.Node.{node, node-IsJson}
use namecoin.Tests.Pages.{filled}
use namecoin.Tests.Events.{committed}

-- The page starts while a name is committed to, and is revealed and updated by calls that overlap.
abbrev overlapping : List (Move Event)
overlapping =
    start open_page
    ∷ start submit
    ∷ resume 0
    ∷ resume 1
    ∷ start (reveal_name committed)
    ∷ start (update_name committed)
    ∷ resume 2
    ∷ resume 1
    ∷ start (type_domain (js "b.com"))
    ∷ resume 3
    ∷ resume 1
    ∷ resume 2
    ∷ start (clear_names true)
    ∷ start refresh
    ∷ resume 1
    ∷ []

on_moves-IsOrdered_example :
    (ns : List Name) × Reads node (on_moves node overlapping filled).shared.browser (109 ∷ []) ns
    × IsOrdered ns
on_moves-IsOrdered_example = on_moves-IsOrdered node overlapping filled (109 ∷ []) node-IsJson refl

on_moves-IsRequest_example :
    All (IsRequest node) (on_moves node overlapping filled).shared.browser.sent
on_moves-IsRequest_example = on_moves-IsRequest node overlapping filled tt
