-- ===== src/Components/WalletManager/Laws.antt =====
-- What the wallet manager offers, and that it shows keys only of a wallet.
use namecoin.Prelude.{
  ◌≡◌, inl, inr, refl, ap, arith, true, false, Bool-cases, suc, none, some, List, [], ◌∷◌, ◌++◌,
  if◌then◌else◌,
}
use namecoin.Js.Text.{Text, js}
use namecoin.Js.Value.{Value, undefined, bool, num, arr, obj, str, truthy, null}
use namecoin.Js.Effect.{Result, ok, throw, message, catch_with, finally, within, modify, ◌>>=◌}
use namecoin.Js.Effect.Sustains.{Sustains, Sustains-lift_bind, Sustains-modify, sustains_rules}
use namecoin.Js.Platform.{Platform, Io}
use namecoin.Services.Wallet.{FileRead, Download, import_wallet_from_file, property}
use namecoin.Services.Wallet.Laws.{import_wallet_from_file_iff}
use namecoin.Composables.UseWallet.{
  WalletState, WalletRef, in_browser, set_wallet, is_wallet_loaded, create_wallet, import_wallet,
  export_wallet,
}
use namecoin.Markup.{Vue, Among, offers, click, choose_file}
use namecoin.Components.WalletManager.{
  Manager, create_new_wallet, handle_import, download, continue_to_app, in_shared, alert,
  stop_loading,
}
use namecoin.Components.WalletManager.Template.{
  ManagerEvent, press_create, press_download, press_continue, import_file, options, wallet_info,
  manager_view, on_manager_event, on_manager_events,
}

-- What the component offers: to make or import a wallet, unless it is at work on one, or, where the keys are
-- shown, to save them and to go on.
manager_view-offers :
    (u : Vue) (s : Manager)
    → offers (manager_view u s) ≡ (
        if s.show_keys
        then click press_download ∷ click press_continue ∷ []
        else (if s.loading then [] else click press_create ∷ choose_file import_file ∷ []))
unfolding offers manager_view options wallet_info
manager_view-offers u s = ground arith

abbrev Loaded : WalletState → Type 0
Loaded s = is_wallet_loaded s ≡ true

in_browser-Loaded : {A : Type 0} (m : Io A) → Sustains Loaded (in_browser m)
unfolding in_browser within is_wallet_loaded
in_browser-Loaded m = record { after = λ h. h }

truthy-Loaded :
    (v k i : Value) (s : WalletState)
    → truthy v ≡ true
    → Loaded (record s { wallet = record { public_key = v; private_key = k; id = i } })
unfolding truthy is_wallet_loaded
truthy-Loaded null k i s h = cc
truthy-Loaded undefined k i s h = refl
truthy-Loaded (bool b) k i s h = refl
truthy-Loaded (num n) k i s h = refl
truthy-Loaded (str t) k i s h = refl
truthy-Loaded (arr xs) k i s h = refl
truthy-Loaded (obj fs) k i s h = refl

set_text-Loaded :
    (t : Text) (k i : Value)
    → Sustains Loaded (set_wallet (record { public_key = str t; private_key = k; id = i }))
unfolding set_wallet is_wallet_loaded
set_text-Loaded t k i = Sustains-modify _ (λ s h. refl)

create_wallet-Loaded : (p : Platform) → Sustains Loaded (create_wallet p)
unfolding create_wallet
create_wallet-Loaded p = search (sustains_rules, in_browser-Loaded, set_text-Loaded) depth 12

create_wallet-returned :
    (p : Platform) (s : WalletState) (w : WalletRef)
    → (create_wallet p s).0 ≡ ok w
    → Loaded (create_wallet p s).1
unfolding create_wallet ◌>>=◌ in_browser within set_wallet modify is_wallet_loaded
create_wallet-returned p s w e = ground arith

set_key-Loaded :
    (v k i : Value)
    → truthy v ≡ true
    → Sustains Loaded (set_wallet (record { public_key = v; private_key = k; id = i }))
unfolding set_wallet
set_key-Loaded v k i h = Sustains-modify _ (λ s l. truthy-Loaded v k i s h)

imported-truthy :
    (p : Platform) (file : FileRead) (wallet v : Value)
    → import_wallet_from_file p file ≡ ok wallet
    → property p (js "publicKey") wallet ≡ ok v
    → truthy v ≡ true
imported-truthy p file wallet v e r =
    let (text, same, parsed, (k, is, filled), other) =
      (import_wallet_from_file_iff p file wallet).0 e in
    let one : k ≡ v = cc in rw (← one) filled

import_wallet-Loaded : (p : Platform) (file : FileRead) → Sustains Loaded (import_wallet p file)
unfolding import_wallet
import_wallet-Loaded p file =
    search (Sustains-lift_bind, sustains_rules, in_browser-Loaded, set_key-Loaded, imported-truthy)
      depth 14

-- Where the keys are shown, there is a wallet, and no work on one goes on.
abbrev IsSafe : Manager → Type 0
IsSafe s = s.show_keys ≡ true → Loaded s.shared × (s.loading ≡ false)

create_after : Manager → Result WalletRef × WalletState → Manager
create_after s (ok w, t) = record s { shared = t; loading = false; show_keys = true }
create_after s (throw e, t) = record s {
  shared = t;
  loading = false;
  alerts = s.alerts ++ (js "Failed to create wallet: " ++ message e) ∷ [];
}

create_new_wallet_lem :
    (p : Platform) (s : Manager)
    → (create_new_wallet p s).1 ≡ create_after s (create_wallet p s.shared)
unfolding create_new_wallet create_after in_shared alert stop_loading catch_with finally within
    ◌>>=◌
create_new_wallet_lem p s = ground arith

create_after-IsSafe :
    (p : Platform) (s : Manager) (o : Result WalletRef × WalletState)
    → create_wallet p s.shared ≡ o
    → IsSafe s
    → IsSafe (create_after s o)
unfolding create_after
create_after-IsSafe p s (ok w, t) e safe shown = (
  rw e at
      (create_wallet-returned p s.shared w (ap (λ (x : Result WalletRef × WalletState). x.0) e)),
  refl,
)
create_after-IsSafe p s (throw x, t) e safe shown =
    (rw e at ((create_wallet-Loaded p).after {s = s.shared} (safe shown).0), refl)

import_after : Manager → Result WalletRef × WalletState → Manager
import_after s (ok w, t) = record s {
  shared = t;
  loading = false;
  loaded_events = suc s.loaded_events;
}
import_after s (throw e, t) = record s {
  shared = t;
  loading = false;
  alerts = s.alerts ++ (js "Failed to import wallet: " ++ message e) ∷ [];
}

handle_import_lem :
    (p : Platform) (file : FileRead) (s : Manager)
    → (handle_import p (some file) s).1 ≡ import_after s (import_wallet p file s.shared)
unfolding handle_import import_after in_shared alert continue_to_app stop_loading catch_with finally
    within ◌>>=◌
handle_import_lem p file s = ground arith

import_after-IsSafe :
    (s : Manager) (o : Result WalletRef × WalletState)
    → (Loaded s.shared → Loaded o.1)
    → IsSafe s
    → IsSafe (import_after s o)
unfolding import_after
import_after-IsSafe s (ok w, t) keep safe shown = (keep (safe shown).0, refl)
import_after-IsSafe s (throw x, t) keep safe shown = (keep (safe shown).0, refl)

export_wallet-Loaded : (p : Platform) → Sustains Loaded (export_wallet p)
unfolding export_wallet
export_wallet-Loaded p = search (sustains_rules, in_browser-Loaded) depth 12

download_after : Manager → Result Download × WalletState → Manager
download_after s (ok file, t) = record s { shared = t; downloads = s.downloads ++ file ∷ [] }
download_after s (throw e, t) = record s { shared = t }

download_lem :
    (p : Platform) (s : Manager) → (download p s).1 ≡ download_after s (export_wallet p s.shared)
unfolding download download_after in_shared within ◌>>=◌
download_lem p s = ground arith

download_after-IsSafe :
    (s : Manager) (o : Result Download × WalletState)
    → (Loaded s.shared → Loaded o.1)
    → IsSafe s
    → IsSafe (download_after s o)
unfolding download_after
download_after-IsSafe s (ok file, t) keep safe shown = (keep (safe shown).0, (safe shown).1)
download_after-IsSafe s (throw x, t) keep safe shown = (keep (safe shown).0, (safe shown).1)

on_manager_event-IsSafe :
    (p : Platform) (e : ManagerEvent) (s : Manager) → IsSafe s → IsSafe (on_manager_event p e s)
unfolding on_manager_event continue_to_app modify handle_import
on_manager_event-IsSafe p press_create s safe =
    rw (create_new_wallet_lem p s) (create_after-IsSafe p s _ refl safe)
on_manager_event-IsSafe p press_download s safe = rw (download_lem p s) (
    download_after-IsSafe s (export_wallet p s.shared)
      (λ h. (export_wallet-Loaded p).after {s = s.shared} h) safe)
on_manager_event-IsSafe p press_continue s safe = safe
on_manager_event-IsSafe p (import_file none) s safe = safe
on_manager_event-IsSafe p (import_file (some file)) s safe = rw (handle_import_lem p file s) (
    import_after-IsSafe s (import_wallet p file s.shared)
      (λ h. (import_wallet-Loaded p file).after {s = s.shared} h) safe)

on_manager_events-IsSafe :
    (p : Platform) (es : List ManagerEvent) (s : Manager)
    → IsSafe s
    → IsSafe (on_manager_events p es s)
unfolding on_manager_events
on_manager_events-IsSafe p [] s safe = safe
on_manager_events-IsSafe p (e ∷ es) s safe =
    on_manager_events-IsSafe p es (on_manager_event p e s) (on_manager_event-IsSafe p e s safe)

download-shown :
    (u : Vue) (s : Manager) → Among (offers (manager_view u s)) press_download → s.show_keys ≡ true
download-shown u s h = elim (Bool-cases s.show_keys) [
  | inl shown ↦ shown
  | inr hidden ↦ elim (Bool-cases s.loading) [
    | inl busy ↦ absurd (rw (manager_view-offers u s, hidden, busy) at h)
    | inr idle ↦ elim (rw (manager_view-offers u s, hidden, idle) at h) [
      | inl same ↦ absurd cc
      | inr (inl (file, same)) ↦ absurd cc
      | inr (inr none_other) ↦ absurd none_other
    ]
  ]
]

-- Let the component start without keys on the page, and let the user make and import wallets, save the keys and
-- go on, in any order and whatever fails. Wherever the component then offers to save the keys, there is a
-- wallet, no work on one goes on behind the keys, and it offers just this and to go on.
pub download-offered :
    (p : Platform) (u : Vue) (es : List ManagerEvent) (s : Manager)
    → s.show_keys ≡ false
    → Among (offers (manager_view u (on_manager_events p es s))) press_download
    → (is_wallet_loaded (on_manager_events p es s).shared ≡ true)
      × ((on_manager_events p es s).loading ≡ false)
      × (offers (manager_view u (on_manager_events p es s))
          ≡ click press_download ∷ click press_continue ∷ [])
download-offered p u es s hidden offered =
    let t = on_manager_events p es s in
    let shown = download-shown u t offered in
    let (loaded, idle) = on_manager_events-IsSafe p es s (λ e. absurd cc) shown in
    (loaded, idle, rw (manager_view-offers u t, shown))
