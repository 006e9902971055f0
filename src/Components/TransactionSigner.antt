-- ===== src/Components/TransactionSigner.antt =====
-- frontend/src/components/TransactionSigner.vue
pub mod Template
pub mod Laws
use namecoin.Prelude.{Bool, true, false, List, [], ◌∷◌, ◌++◌}
use namecoin.Js.Text.{Text}
use namecoin.Js.Value.{Value}
use namecoin.Js.Effect.{Run, pure, modify, catch_with, finally, within, ◌>>=◌}
use namecoin.Js.Platform.{Platform}
use namecoin.Composables.UseTransaction.{TxState, Tx, sign_and_send}

-- The events of the component.
pub data SignerEvent : Type 0 where
  transaction_sent : Value → SignerEvent
  cancel : SignerEvent

pub record Signer : Type 0 where
  pub shared : TxState
  pub private_key : Text
  pub is_signing : Bool
  pub emitted : List SignerEvent

abbrev pub Sg : Type 0 → Type 0
Sg A = Run Signer A

unfoldable pub in_shared : {A : Type 0} → Tx A → Sg A
unfolding within
in_shared m = within (λ s. s.shared) (λ t s. record s { shared = t }) m

unfoldable pub emit : SignerEvent → Sg (Unit {0})
emit e = modify (λ s. record s { emitted = s.emitted ++ e ∷ [] })

-- `handleSign`; its `catch` only writes to the console.
unfoldable pub handle_sign : Platform → Sg (Unit {0})
handle_sign p s =
    finally
      (catch_with
        (do result ← in_shared (sign_and_send p s.private_key); emit (transaction_sent result))
        (λ e. pure tt))
      (λ t. record t { is_signing = false }) (record s { is_signing = true })

unfoldable pub handle_cancel : Sg (Unit {0})
handle_cancel = emit cancel
