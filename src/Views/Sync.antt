-- ===== src/Views/Sync.antt =====
-- How the page tells the node the identifier of its wallet.
use namecoin.Prelude.{◌≡◌, ◌⊎◌, inl, inr, refl, ap, Bool, true, false, if◌then◌else◌, ◌++◌}
use namecoin.Js.Text.{Text, js, text_eq_iff}
use namecoin.Js.Value.{Value, str, truthy}
use namecoin.Js.Effect.{
  Exception, Result, ok, throw, message, handle, continue, catch_with, pure, modify, ◌>>=◌,
}
use namecoin.Js.Platform.{Platform}
use namecoin.Utils.DomainStorage.{is_text}
use namecoin.Services.Api.{set_miner_id}
use namecoin.Views.WalletPage.{WalletPage, Wp, set_status, in_browser}
use namecoin.Views.WalletPage.Start.{same_text, sync_miner_id}

-- The page has no identifier to tell, the node has it, or the page says why not.
abbrev pub Synced : Result (Unit {0}) × WalletPage → Value → Type 0
Synced o w =
    (o.0 ≡ ok tt)
    × ((truthy w ≡ false)
        ⊎ ((o.1.backend_miner_id ≡ w)
            ⊎ ((e : Exception) × (o.1.status ≡ js "Failed to sync miner ID: " ++ message e))))

is_text_sound : (v : Value) (s : Text) → is_text v s ≡ true → v ≡ str s
unfolding is_text
is_text_sound (str t) s h = ap str ((text_eq_iff t s).0 h)
is_text_sound _ s h = absurd (cc)

same_text_sound : (v w : Value) → same_text v w ≡ true → v ≡ w
unfolding same_text
same_text_sound v (str s) h = is_text_sound v s h
same_text_sound v _ h = absurd (cc)

told-Synced :
    (r : Result Value) (u : WalletPage) (w : Value)
    → Synced
        (handle
          (continue r (λ x. modify (λ s. record s { backend_miner_id = w })) u)
          (λ e. set_status (js "Failed to sync miner ID: " ++ message e)))
        w
unfolding set_status modify
told-Synced (ok v) u w = (refl, inr (inl refl))
told-Synced (throw e) u w = (refl, inr (inr (e, refl)))

guarded-Synced :
    (a b : Bool) (m : Wp (Unit {0})) (s : WalletPage) (w : Value)
    → truthy w ≡ a
    → (b ≡ true → s.backend_miner_id ≡ w)
    → Synced (m s) w
    → Synced ((if a then (if b then pure tt else m) else pure tt) s) w
unfolding pure
guarded-Synced false b m s w h k n = (refl, inl h)
guarded-Synced true true m s w h k n = (refl, inr (inl (k refl)))
guarded-Synced true false m s w h k n = n

-- `syncMinerID` never throws. After it, the wallet has no identifier, or the page takes the node to have
-- that identifier, or the status shows the message of an exception.
pub sync_miner_id-Synced :
    (p : Platform) (s : WalletPage) → Synced (sync_miner_id p s) s.shared.wallet.id
unfolding sync_miner_id catch_with in_browser ◌>>=◌
sync_miner_id-Synced p s =
    guarded-Synced (truthy s.shared.wallet.id) (same_text s.backend_miner_id s.shared.wallet.id) _ s
      _ refl (same_text_sound s.backend_miner_id s.shared.wallet.id)
      (let (r, b) = set_miner_id p s.shared.wallet.id s.shared.browser in
        told-Synced r (record s { shared = record s.shared { browser = b } }) s.shared.wallet.id)
