-- ===== src/Tests/Transactions.antt =====
-- Transactions at concrete inputs.
use namecoin.Prelude.{◌≡◌, ◌↔◌, refl, true, false, none, some, List, [], ◌∷◌, ◌++◌, pos}
use namecoin.Js.Text.{Text, js, text_eq}
use namecoin.Js.Value.{
  Value, int, undefined, null, num, str, arr, obj, nil, end, field, truthy, is_array, get_prop,
  default_to,
}
use namecoin.Js.Effect.{Result, ok, throw}
use namecoin.Utils.Hex.{bytes_to_hex}
use namecoin.Utils.Hash.{tx_object, generate_tx_id, hash_canonical, hash_input}
use namecoin.Tests.Codec.{to_json}
use namecoin.Services.Transaction.{
  BuildParams, Transaction, compute_transaction_id, validate_transaction, below_one, hashed_part,
}
use namecoin.Services.Transaction.Laws.{IsComplete, validate_transaction_iff}
use namecoin.Services.Crypto.{hash_transaction, generate_transaction_signature}
use namecoin.Services.Crypto.Identity.{compute_transaction_id-eq-hash, send_object-agrees}
use namecoin.Services.Api.{send_object, post_request, get_base_url, body_of}
use namecoin.Services.Api.Laws.{miner_id, run_api, run_api-Ends, request_of, Ends}
use namecoin.Composables.UseTransaction.{TxState, idle, create_transaction, sign_and_send}
use namecoin.Composables.UseTransaction.Create.{CreateEnds, create_transaction-ends}
use namecoin.Composables.UseTransaction.Send.{SendEnds, sign_and_send-ends}
use namecoin.Composables.UseTransaction.Calls.{
  Call, Turn, turn, clear, create_call, send_call, identified, run_turns,
}
use namecoin.Composables.UseTransaction.Calls.Approved.{IsApproved, run_turns-IsApproved}
use namecoin.Composables.UseTransaction.Calls.Mixed.{overtaken, overtaken-sent}
use namecoin.Tests.Node.{node, fresh}

abbrev one : Value
one = num (int (pos 1))

abbrev pub sample : Transaction
sample = record {
  type = str (js "NameNew");
  sender = str (js "me");
  amount = one;
  payload = obj end;
  pk = str (js "0a");
  inputs = arr nil;
  outputs = arr nil;
  transaction_id = null;
  tx_hash = undefined;
}

abbrev params : BuildParams
params = record {
  type = str (js "NameNew");
  wallet_id = str (js "me");
  fee = one;
  payload = obj end;
  pk = undefined;
  inputs = undefined;
  outputs = undefined;
}

abbrev pub start : TxState
start = record {
  browser = fresh;
  current = some sample;
  is_processing = false;
  status = idle;
  error_text = none;
  history = [];
}

sample-IsComplete : IsComplete node sample
unfolding truthy js is_array below_one namecoin.Js.Value.less_than_one
sample-IsComplete = record {
  type_given = refl;
  sender_given = refl;
  amount_given = refl;
  amount_enough = refl;
  payload_given = refl;
  pk_given = refl;
  inputs_array = refl;
  outputs_array = refl;
}

abbrev sample_id : Text
sample_id = bytes_to_hex (node.digest (node.utf8 (to_json (tx_object (hashed_part sample)))))

sample_computed :
    compute_transaction_id node sample ≡ ok (record sample { transaction_id = str sample_id })
unfolding compute_transaction_id generate_tx_id tx_object hash_canonical node hash_input default_to
    truthy
sample_computed = refl

compute_transaction_id-eq-hash_example :
    (id : Text) × (◌≡◌ {A = Transaction}
      (record sample { transaction_id = str sample_id })
      (record sample { transaction_id = str id }))
    × (hash_transaction node (record sample { transaction_id = str sample_id }) ≡ ok id)
compute_transaction_id-eq-hash_example =
    compute_transaction_id-eq-hash node sample (record sample { transaction_id = str sample_id })
      sample_computed

validate_transaction_iff_example :
    ((validate_transaction node sample).valid ≡ true) ↔ IsComplete node sample
validate_transaction_iff_example = validate_transaction_iff node sample

send_object-agrees_example :
    get_prop (js "amount") (send_object sample (str (js "00")))
    ≡ get_prop (js "amount") (tx_object (hashed_part sample))
unfolding js text_eq
send_object-agrees_example =
    send_object-agrees node sample (str (js "00")) (js "amount") sample-IsComplete refl refl refl

run_api-Ends_example :
    Ends node miner_id fresh (request_of node miner_id) (run_api node miner_id fresh)
run_api-Ends_example = run_api-Ends node miner_id fresh

create_transaction-ends_example :
    CreateEnds node params start (create_transaction node params start)
create_transaction-ends_example = create_transaction-ends node params start

sign_and_send-ends_example :
    SendEnds node (js "0b") sample start (sign_and_send node (js "0b") start)
sign_and_send-ends_example = sign_and_send-ends node (js "0b") sample start refl

abbrev calls : List Call
calls = create_call params ∷ send_call (js "0b") ∷ []

abbrev turns : List Turn
turns = turn 0 ∷ turn 1 ∷ turn 0 ∷ clear ∷ turn 1 ∷ turn 0 ∷ turn 1 ∷ turn 0 ∷ turn 1 ∷ []

run_turns-IsApproved_example :
    IsApproved node (run_turns node turns calls (record start { current = none })).1.current
run_turns-IsApproved_example =
    run_turns-IsApproved node turns calls (record start { current = none }) (tt, (tt, tt)) tt

abbrev other : Transaction
other = record sample { sender = str (js "you") }

abbrev signature : Result Text
signature = generate_transaction_signature node sample_id (js "0b")

abbrev signed_text : Result Text → Text
signed_text (ok g) = g
signed_text (throw e) = []

other_valid : (validate_transaction node other).valid ≡ true
unfolding validate_transaction namecoin.Services.Transaction.push_if is_array truthy js below_one
    namecoin.Js.Value.less_than_one
other_valid = refl

sample_hashed : hash_transaction node sample ≡ ok sample_id
unfolding hash_transaction tx_object hash_canonical node hash_input default_to truthy
sample_hashed = refl

sample_signed : signature ≡ ok (signed_text signature)
unfolding generate_transaction_signature node
sample_signed = refl

other_body :
    node.canonicalize (send_object other (str (signed_text signature)))
    ≡ ok (str (to_json (send_object other (str (signed_text signature)))))
unfolding node
other_body = refl

overtaken-sent_example :
    (run_turns node overtaken
      (send_call (js "0b") ∷ identified (ok other) ∷ [])
      start).1.browser.sent
    ≡ post_request
        (get_base_url node ++ js "/namecoin/handle")
        (body_of node (str (to_json (send_object other (str (signed_text signature))))))
      ∷ start.browser.sent
overtaken-sent_example =
    overtaken-sent node (js "0b") sample other sample_id (signed_text signature)
      (str (to_json (send_object other (str (signed_text signature))))) start refl other_valid
      sample_hashed sample_signed other_body
