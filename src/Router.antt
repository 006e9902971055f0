-- ===== src/Router.antt =====
-- frontend/src/router/index.js: the one route, and the title of the page.
use namecoin.Prelude.{Option, none, some, [], ◌∷◌, ◌≡◌, refl}
use namecoin.Js.Text.{Text, js}

-- The fields of a route that the page reads.
pub record Route : Type 0 where
  pub path : Text
  pub name : Text
  pub title : Text

unfoldable pub wallet_route : Route
unfolding js
wallet_route = record { path = js "/"; name = js "Wallet"; title = js "Peerster Wallet" }

-- The handler of `afterEach`: the title of the page after a navigation; an empty title counts as none.
unfoldable pub page_title : Option Text → Text
unfolding js
page_title none = js "Peerster Wallet"
page_title (some []) = js "Peerster Wallet"
page_title (some (c ∷ s)) = c ∷ s

-- The page of the wallet has the title that every page without one has.
wallet_title : page_title (some wallet_route.title) ≡ page_title none
unfolding page_title wallet_route
wallet_title = refl
