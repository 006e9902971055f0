-- ===== src/Services/Api.antt =====
-- frontend/src/services/api.service.js: the requests to the node, and what is made of its answers.
pub mod Laws
use namecoin.Prelude.{ℕ, Bool, true, false, Option, none, some, List, [], ◌∷◌, ◌++◌, if◌then◌else◌}
use namecoin.Js.Text.{Text, js, show_nat}
use namecoin.Js.Value.{
  Value, Fields, undefined, null, bool, num, str, arr, nil, obj, end, field, truthy, or_else,
  get_prop,
}
use namecoin.Js.Effect.{
  Result, Exception, ok, throw, error, type_error, Run, pure, lift, raise, ◌>>=◌, ◌>>◌,
}
use namecoin.Js.Platform.{Platform, Io, Method, get, post, Request, Response, fetch, response_ok}
use namecoin.Services.Transaction.{Transaction}
use namecoin.Services.Wallet.{property}

-- The body of a request: `fetch` sends a text, and nothing for `undefined`.
unfoldable pub body_of : Platform → Value → Option Text
body_of p undefined = none
body_of p (str s) = some s
body_of p v = some (p.to_text v)

unfoldable pub get_request : Text → Request
get_request url = record { method = get; url = url; content_type = none; body = none }

unfoldable pub post_request : Text → Option Text → Request
unfolding js
post_request url body = record {
  method = post;
  url = url;
  content_type = some (js "application/json");
  body = body;
}

-- `HTTP error! status: ${response.status}`
unfoldable pub http_error : Response → Text
unfolding show_nat js
http_error r = js "HTTP error! status: " ++ show_nat r.status

-- `new Error(v)`, whose message is a text
unfoldable pub error_of : Platform → Value → Exception
error_of p (str s) = error s
error_of p v = error (p.to_text v)

-- `errorData?.message`
unfoldable pub optional_message : Value → Value
unfolding get_prop
optional_message v = elim (get_prop (js "message") v) [ none ↦ undefined | some m ↦ m ]

-- `response.json().catch(() => null)`
abbrev json_or_null : Result Value → Value
json_or_null (ok v) = v
json_or_null (throw e) = null

-- What is thrown for an answer that is not ok, where the answer may say why.
unfoldable pub detailed_error : Platform → Response → Exception
unfolding error_of optional_message
detailed_error p r =
    error_of p (or_else (optional_message (json_or_null (p.parse r.body))) (str (http_error r)))

unfoldable pub plain_error : Response → Exception
plain_error r = error (http_error r)

-- The object that is sent for a transaction.
unfoldable pub send_object : Transaction → Value → Value
send_object tx signature = obj (
    field (js "type") tx.type (
      field (js "from") tx.sender (
        field (js "amount") tx.amount (
          field (js "payload") (or_else tx.payload (obj end)) (
            field (js "inputs") (or_else tx.inputs (arr nil)) (
              field (js "outputs") (or_else tx.outputs (arr nil)) (
                field (js "pk") tx.pk (
                  field (js "txId") (or_else tx.transaction_id (str []))
                    (field (js "signature") signature end)))))))))

module _ (p : Platform) where
  unfoldable pub get_base_url : Text
  unfolding js
  get_base_url = elim p.backend_url [
    | none ↦ js "http://localhost:8080"
    | some url ↦ elim url [ [] ↦ js "http://localhost:8080" | c ∷ s ↦ c ∷ s ]
  ]

  -- `if (!response.ok) throw …; return await response.json()`
  unfoldable pub json_or_throw : (Response → Exception) → Response → Io Value
  json_or_throw bad r = if response_ok r then lift (p.parse r.body) else raise (bad r)

  -- The `catch` of each call writes to the console and throws the same exception again.
  unfoldable pub send_transaction : Transaction → Value → Io Value
  send_transaction tx signature = do
    body ← lift (p.canonicalize (send_object tx signature))
    r ← fetch p (post_request (get_base_url ++ js "/namecoin/handle") (body_of p body))
    json_or_throw (detailed_error p) r

  unfoldable pub get_transaction_status : Text → Io Value
  get_transaction_status tx_id = do
    r ← fetch p (get_request (get_base_url ++ js "/namecoin/transaction/" ++ tx_id))
    json_or_throw plain_error r

  unfoldable pub get_miner_id : Io Value
  get_miner_id = do
    r ← fetch p (get_request (get_base_url ++ js "/namecoin/minerid"))
    answer ← json_or_throw plain_error r
    lift (property p (js "minerID") answer)

  unfoldable pub set_miner_id : Value → Io Value
  set_miner_id miner_id = do
    body ← lift (p.stringify (obj (field (js "minerID") miner_id end)))
    r ← fetch p (post_request (get_base_url ++ js "/namecoin/minerid") (some body))
    json_or_throw (detailed_error p) r

  unfoldable pub get_spend_plan : Value → Value → Io Value
  get_spend_plan sender amount = do
    body ← lift (p.stringify (obj (field (js "from") sender (field (js "amount") amount end))))
    r ← fetch p (post_request (get_base_url ++ js "/namecoin/spendplan") (some body))
    json_or_throw (detailed_error p) r

  unfoldable pub get_dns_record : Io Value
  get_dns_record = do
    r ← fetch p (get_request (get_base_url ++ js "/namecoin/dns"))
    json_or_throw plain_error r

  unfoldable pub fetch_registered_domains : Io Value
  fetch_registered_domains = do
    r ← fetch p (get_request (get_base_url ++ js "/namecoin/dns"))
    json_or_throw plain_error r
