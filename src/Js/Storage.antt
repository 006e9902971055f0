-- ===== src/Js/Storage.antt =====
-- `localStorage` of the page.
pub mod Laws
use namecoin.Prelude.{Bool, true, false, Option, none, some, List, [], ◌∷◌, if◌then◌else◌}
use namecoin.Js.Text.{Text, text_eq}
use namecoin.Js.Effect.{Result, ok, throw, error, Run, gets, modify, ◌>>=◌}
use namecoin.Js.Platform.{Platform, Browser, Entries, Io}

unfoldable pub lookup : Text → Entries → Option Text
lookup k [] = none
lookup k ((j, v) ∷ m) = let rest = lookup k m in if text_eq j k then some v else rest

unfoldable pub without : Text → Entries → Entries
without k [] = []
without k ((j, v) ∷ m) = let rest = without k m in if text_eq j k then rest else (j, v) ∷ rest

-- `localStorage.getItem(key)`; `none` is `null`
unfoldable pub get_item : Text → Io (Option Text)
get_item k b = (ok (lookup k b.storage), b)

-- `localStorage.setItem(key, text)` throws where the quota is exceeded, and then stores nothing.
unfoldable pub set_item : Platform → Text → Text → Io (Unit {0})
set_item p k v b =
    if p.fits b.storage k v
    then (ok tt, record b { storage = (k, v) ∷ without k b.storage })
    else (throw (error p.quota_exceeded), b)

-- `localStorage.removeItem(key)`
unfoldable pub remove_item : Text → Io (Unit {0})
remove_item k b = (ok tt, record b { storage = without k b.storage })
