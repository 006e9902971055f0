-- ===== src/Components/TransactionSigner/Template.antt =====
-- frontend/src/components/TransactionSigner.vue: the template, and what happens at it.
use Prim.Native.String.{String}
use namecoin.Prelude.{Bool, true, false, Option, none, some, [], ◌∷◌, ◌++◌, if◌then◌else◌}
use namecoin.Js.Text.{Text, js}
use namecoin.Js.Value.{Fields, field, end, get_field}
use namecoin.Services.Transaction.{Transaction}
use namecoin.Composables.UseTransaction.{Status, idle, signing, sending, success, failed}
use namecoin.Markup.{Vue, Node, Nodes, text, button, none_left, ◌&◌, when, click, class, tag, leaf}
use namecoin.Components.TransactionSigner.{Signer}

pub data SignerAction : Type 0 where
  sign cancel_pressed : SignerAction

-- A transaction as the object that `buildTransaction` and `computeTransactionID` make.
unfoldable pub transaction_object : Transaction → Fields
transaction_object tx = field (js "type") tx.type (
    field (js "from") tx.sender (
      field (js "amount") tx.amount (
        field (js "payload") tx.payload (
          field (js "pk") tx.pk (
            field (js "inputs") tx.inputs (
              field (js "outputs") tx.outputs
                (field (js "transactionID") tx.transaction_id end)))))))

abbrev pub has_status : Status → Status → Bool
has_status idle idle = true
has_status signing signing = true
has_status sending sending = true
has_status success success = true
has_status failed failed = true
has_status _ _ = false

unfoldable pub detail : Vue → Fields → String → String → String → Node SignerAction
detail u transaction label shown name = tag "div" (class "detail") (
    leaf "span" (class "label") (js label)
    & leaf "span" (class shown) (u.display (get_field (js name) transaction))
    & none_left)

unfoldable pub details : Vue → Fields → Node SignerAction
details u transaction = tag "div" (class "tx-details") (
    detail u transaction "Type:" "value" "type"
    & detail u transaction "Source:" "value mono" "source"
    & detail u transaction "Fee:" "value" "fee"
    & detail u transaction "Nonce:" "value" "nonce"
    & detail u transaction "Transaction ID:" "value mono" "transactionID"
    & none_left)

unfoldable pub sign_actions : Signer → Node SignerAction
sign_actions s = tag "div" (class "actions") (
    button (class "btn-primary") s.is_signing (click sign)
      (text (if s.is_signing then js "Signing..." else js "Sign & Send") & none_left)
    & button (class "btn-cancel") false (click cancel_pressed) (text (js "Cancel") & none_left)
    & none_left)

-- `{{ error }}`, where `null` shows nothing
abbrev shown_error : Option Text → Text
shown_error none = []
shown_error (some t) = t

unfoldable pub signer_view : Vue → Fields → Signer → Nodes SignerAction
signer_view u transaction s =
    let status = s.shared.status in
    tag "div" (class "transaction-signer") (
      leaf "h3" [] (js "Transaction Preview")
      & details u transaction
      & when (has_status status idle) (sign_actions s) (
          when (has_status status signing)
            (leaf "div" (class "status signing") (55357 ∷ 56592 ∷ js " Signing transaction..."))
            (when (has_status status sending)
              (leaf "div" (class "status sending") (55357 ∷ 56548 ∷ js " Sending to network..."))
              (when (has_status status success)
                (leaf "div" (class "status success") (9989 ∷ js " Transaction sent successfully!"))
                (when (has_status status failed)
                  (leaf "div" (class "status error")
                    (10060 ∷ js " Error: " ++ shown_error s.shared.error_text))
                  none_left)))))
    & none_left
