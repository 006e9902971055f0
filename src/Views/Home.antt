-- ===== src/Views/Home.antt =====
-- frontend/src/views/Home.vue
pub mod Laws
pub mod Template
use namecoin.Prelude.{
  ℕ, zero, suc, Bool, true, false, Option, none, some, List, [], ◌∷◌, ◌++◌, ◌==◌, leb, is_empty,
  if◌then◌else◌,
}
use namecoin.Js.Text.{Text, js}
use namecoin.Js.Value.{Value}
use namecoin.Js.Effect.{
  Result, Exception, ok, throw, message, Run, pure, modify, catch_with, within, ◌>>=◌, ◌>>◌,
}
use namecoin.Js.Platform.{Platform, Browser, Io}
use namecoin.Js.Storage.{set_item, remove_item}
use namecoin.Utils.Regex.{Piece, test}
use namecoin.Utils.Validation.{is_alphanumeric}
use namecoin.Services.Api.{get_miner_id}
use namecoin.Views.WalletPage.{template}

pub record Home : Type 0 where
  pub browser : Browser
  pub proxy_addr : Text
  pub error_text : Text
  pub routes : List Text

abbrev pub Hm : Type 0 → Type 0
Hm A = Run Home A

unfoldable pub in_browser : {A : Type 0} → Io A → Hm A
unfolding within
in_browser m = within (λ s. s.browser) (λ b s. record s { browser = b }) m

-- `[\w\.-]` and `\d`
unfoldable pub is_host_char : ℕ → Bool
unfolding is_alphanumeric
is_host_char c =
    if c == 95 then true else if c == 46 then true else if c == 45 then true else is_alphanumeric c

unfoldable pub is_digit : ℕ → Bool
is_digit c = if leb 48 c then leb c 57 else false

abbrev pub is_colon : ℕ → Bool
is_colon c = c == 58

-- `addrPattern`, piece by piece
abbrev pub addr_pattern : List Piece
addr_pattern =
    record { class = is_host_char; least = 1; extra = none }
    ∷ record { class = is_colon; least = 1; extra = some 0 }
    ∷ record { class = is_digit; least = 1; extra = none }
    ∷ []

unfoldable pub set_error : Text → Hm (Unit {0})
set_error t = modify (λ s. record s { error_text = t })

module _ (p : Platform) where
  -- The body of the `try`.
  unfoldable pub fetch_miner : Hm (Unit {0})
  fetch_miner = do
    miner_id ← in_browser (get_miner_id p)
    in_browser (set_item p (js "minerID") (template p miner_id))
    modify (λ s. record s { routes = s.routes ++ js "/wallet" ∷ [] })

  unfoldable pub connect_failed : Exception → Hm (Unit {0})
  connect_failed e = do
    set_error (js "Failed to connect: " ++ message e)
    in_browser (remove_item (js "proxyAddr"))

  unfoldable pub connect_to : Text → Hm (Unit {0})
  connect_to addr = do
    in_browser (set_item p (js "proxyAddr") addr)
    catch_with fetch_miner connect_failed

  -- `connect`
  unfoldable pub connect : Hm (Unit {0})
  connect s =
      let cleared = record s { error_text = [] } in
      if is_empty s.proxy_addr
      then set_error (js "Please enter a proxy address") cleared
      else if test addr_pattern s.proxy_addr
      then connect_to s.proxy_addr cleared
      else set_error
          (js "Invalid address format. Expected format: host:port (e.g., 127.0.0.1:8080)") cleared
