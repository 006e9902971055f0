-- ===== src/Services/Api/Laws.antt =====
-- How the calls to the node end.
use namecoin.Prelude.{suc, ◌≡◌, inl, inr, refl, ◌∙◌, some, ◌∷◌, ◌++◌, if◌then◌else◌, Bool-cases}
use namecoin.Js.Text.{Text, js}
use namecoin.Js.Value.{Value, obj, field, end}
use namecoin.Js.Effect.{Exception, Result, Result-cases, ok, throw, raise, lift, ◌>>=◌}
use namecoin.Js.Effect.Inversion.{lift_ok-bind, lift_throw-bind}
use namecoin.Js.Platform.{
  Platform, Browser, Io, Request, Response, Fetched, responded, rejected, fetch, response_ok,
}
use namecoin.Services.Transaction.{Transaction}
use namecoin.Services.Wallet.{property}
use namecoin.Services.Api.{
  body_of, get_request, post_request, detailed_error, plain_error, send_object, get_base_url,
  json_or_throw, send_transaction, get_transaction_status, get_miner_id, set_miner_id,
  get_spend_plan, get_dns_record, fetch_registered_domains,
}

-- The calls of the service.
pub data ApiCall : Type 0 where
  send : Transaction → Value → ApiCall
  transaction_status : Text → ApiCall
  miner_id : ApiCall
  change_miner_id : Value → ApiCall
  spend_plan : Value → Value → ApiCall
  dns_record registered_domains : ApiCall

unfoldable pub run_api : Platform → ApiCall → Io Value
run_api p (send tx signature) = send_transaction p tx signature
run_api p (transaction_status id) = get_transaction_status p id
run_api p miner_id = get_miner_id p
run_api p (change_miner_id id) = set_miner_id p id
run_api p (spend_plan sender amount) = get_spend_plan p sender amount
run_api p dns_record = get_dns_record p
run_api p registered_domains = fetch_registered_domains p

abbrev map_result : {A B : Type 0} → (A → B) → Result A → Result B
map_result f (ok a) = ok (f a)
map_result f (throw e) = throw e

-- The request of a call, or the exception of its body.
abbrev pub request_of : Platform → ApiCall → Result Request
request_of p (send tx signature) =
    map_result (λ v. post_request (get_base_url p ++ js "/namecoin/handle") (body_of p v))
      (p.canonicalize (send_object tx signature))
request_of p (transaction_status id) =
    ok (get_request (get_base_url p ++ js "/namecoin/transaction/" ++ id))
request_of p miner_id = ok (get_request (get_base_url p ++ js "/namecoin/minerid"))
request_of p (change_miner_id id) =
    map_result (λ s. post_request (get_base_url p ++ js "/namecoin/minerid") (some s))
      (p.stringify (obj (field (js "minerID") id end)))
request_of p (spend_plan sender amount) =
    map_result (λ s. post_request (get_base_url p ++ js "/namecoin/spendplan") (some s))
      (p.stringify (obj (field (js "from") sender (field (js "amount") amount end))))
request_of p dns_record = ok (get_request (get_base_url p ++ js "/namecoin/dns"))
request_of p registered_domains = ok (get_request (get_base_url p ++ js "/namecoin/dns"))

-- Whether an answer that is not ok may say why it is not.
abbrev pub error_for : Platform → ApiCall → Response → Exception
error_for p (send tx signature) r = detailed_error p r
error_for p (change_miner_id id) r = detailed_error p r
error_for p (spend_plan sender amount) r = detailed_error p r
error_for p _ r = plain_error r

abbrev then_property : Platform → Result Value → Result Value
then_property p (throw e) = throw e
then_property p (ok v) = property p (js "minerID") v

-- What is returned of an answer's value.
abbrev pub pick : Platform → ApiCall → Result Value → Result Value
pick p miner_id r = then_property p r
pick p _ r = r

abbrev read_with : (Response → Result Value) → Fetched → Result Value
read_with g (responded r) = g r
read_with g (rejected e) = throw e

-- What a call makes of what the network delivers.
abbrev pub reading : Platform → ApiCall → Fetched → Result Value
reading p c =
    read_with (λ r. pick p c (if response_ok r then p.parse r.body else throw (error_for p c r)))

abbrev pub Ends : Platform → ApiCall → Browser → Result Request → Result Value × Browser → Type 0
Ends p c b (throw e) out = out ≡ (throw e, b)
Ends p c b (ok q) out =
    out ≡ (reading p c (p.answer b.asked q), record b { sent = q ∷ b.sent; asked = suc b.asked })

json_or_throw_lem :
    (p : Platform) (bad : Response → Exception) (r : Response) (b : Browser)
    → json_or_throw p bad r b ≡ (if response_ok r then p.parse r.body else throw (bad r), b)
unfolding json_or_throw lift raise
json_or_throw_lem p bad r b = elim (Bool-cases (response_ok r)) [ inl k ↦ rw k | inr k ↦ rw k ]

fetch-bind :
    (p : Platform) (q : Request) (f : Response → Io Value) (g : Response → Result Value)
    (b : Browser)
    → ((r : Response) (b' : Browser) → f r b' ≡ (g r, b'))
    → (fetch p q >>= f) b
      ≡ (read_with g (p.answer b.asked q), record b { sent = q ∷ b.sent; asked = suc b.asked })
unfolding fetch ◌>>=◌
fetch-bind p q f g b h = go (p.answer b.asked q) refl
  where
    go :
        (x : Fetched)
        → p.answer b.asked q ≡ x
        → (fetch p q >>= f) b ≡ (read_with g x, record b { sent = q ∷ b.sent; asked = suc b.asked })
    go (responded r) e = rw (e, fetch, ◌>>=◌) (h r _)
    go (rejected x) e = rw (e, fetch, ◌>>=◌)

-- Each call in turn.
module _ (p : Platform) (b : Browser) where
  get-Ends :
      (bad : Response → Exception) (q : Request)
      → (fetch p q >>= json_or_throw p bad) b ≡ (
        read_with
            (λ r. if response_ok r then p.parse r.body else throw (bad r))
            (p.answer b.asked q),
        record b { sent = q ∷ b.sent; asked = suc b.asked },
      )
  get-Ends bad q = fetch-bind p q (json_or_throw p bad) _ b (json_or_throw_lem p bad)

  miner_id_step :
      (r : Response) (b' : Browser)
      → (json_or_throw p plain_error r >>= (λ v. lift (property p (js "minerID") v))) b'
        ≡ (then_property p (if response_ok r then p.parse r.body else throw (plain_error r)), b')
  unfolding ◌>>=◌ json_or_throw
  miner_id_step r b' = elim (Bool-cases (response_ok r)) [
    | inl k ↦ rw k (elim (Result-cases (p.parse r.body)) [ inl (v, e) ↦ rw e | inr (x, e) ↦ rw e ])
    | inr k ↦ rw k
  ]

-- A call whose body cannot be written throws, and sends nothing. Any other sends its one request and
-- asks no second time: it throws the exception of the network, or that of an answer that is not ok,
-- or that of a body that is no JSON, and else returns the value. No call writes to the storage.
pub run_api-Ends :
    (p : Platform) (c : ApiCall) (b : Browser) → Ends p c b (request_of p c) (run_api p c b)
unfolding run_api send_transaction get_transaction_status get_miner_id set_miner_id get_spend_plan
    get_dns_record fetch_registered_domains
run_api-Ends p (send tx signature) b =
    elim (Result-cases (p.canonicalize (send_object tx signature))) [
      | inl (v, e) ↦ rw e (lift_ok-bind _ b v ∙ get-Ends p b (detailed_error p) _)
      | inr (x, e) ↦ rw e (lift_throw-bind _ b x)
    ]
run_api-Ends p (transaction_status id) b = get-Ends p b plain_error _
run_api-Ends p miner_id b = fetch-bind p _ _ _ b (miner_id_step p b)
run_api-Ends p (change_miner_id id) b =
    elim (Result-cases (p.stringify (obj (field (js "minerID") id end)))) [
      | inl (v, e) ↦ rw e (lift_ok-bind _ b v ∙ get-Ends p b (detailed_error p) _)
      | inr (x, e) ↦ rw e (lift_throw-bind _ b x)
    ]
run_api-Ends p (spend_plan sender amount) b =
    elim (Result-cases
      (p.stringify (obj (field (js "from") sender (field (js "amount") amount end))))) [
        | inl (v, e) ↦ rw e (lift_ok-bind _ b v ∙ get-Ends p b (detailed_error p) _)
        | inr (x, e) ↦ rw e (lift_throw-bind _ b x)
      ]
run_api-Ends p dns_record b = get-Ends p b plain_error _
run_api-Ends p registered_domains b = get-Ends p b plain_error _
