-- ===== src/Composables/UseTransaction/Send.antt =====
-- How `signAndSend` ends.
use namecoin.Prelude.{
  ◌≡◌, ◌⊎◌, inl, inr, refl, ap, sym, false, none, some, [], ◌∷◌, ◌++◌, arith, suc,
}
use namecoin.Js.Text.{Text, js}
use namecoin.Js.Value.{Value, str}
use namecoin.Js.Effect.{Exception, Result, ok, throw, message, catch_with, finally, ◌>>=◌}
use namecoin.Js.Platform.{Platform, Browser, Request, ask}
use namecoin.Services.Transaction.{Transaction}
use namecoin.Services.Api.{send_transaction, post_request, get_base_url, body_of, send_object}
use namecoin.Services.Api.Laws.{send, reading, run_api, run_api-Ends, request_of, Ends}
use namecoin.Services.Crypto.{hash_transaction, generate_transaction_signature}
use namecoin.Composables.UseTransaction.{
  TxState, HistoryEntry, success, failed, in_browser, stop_processing, send_steps, send_failed,
  sign_and_send, current_or_throw,
}

abbrev pub mark : Transaction → Text → Transaction
mark tx h = record tx { tx_hash = str h }

abbrev entry : Platform → Transaction → Text → Text → Browser → Value → HistoryEntry
entry p tx h g b v = record {
  transaction = mark tx h;
  signature = g;
  timestamp = p.iso_date b.asked;
  result = v;
}

module _ (p : Platform) (tx : Transaction) (s : TxState) where
  abbrev ended : Text → Text → Result Value → Browser → Result Value × TxState
  ended h g (ok v) b = (
    ok v,
    record s {
      browser = record b { asked = suc b.asked };
      is_processing = false;
      status = success;
      error_text = none;
      current = some (mark tx h);
      history = s.history ++ entry p tx h g b v ∷ [];
    },
  )
  ended h g (throw e) b = (
    throw e,
    record s {
      browser = b;
      is_processing = false;
      status = failed;
      error_text = some (message e);
      current = some (mark tx h);
    },
  )

  abbrev signed : Text → Result Text → Result Value × TxState
  signed h (throw e) = (
    throw e,
    record s {
      is_processing = false;
      status = failed;
      error_text = some (message e);
      current = some (mark tx h);
    },
  )
  signed h (ok g) =
      ended h g (send_transaction p (mark tx h) (str g) s.browser).0
        (send_transaction p (mark tx h) (str g) s.browser).1

  abbrev hashed : Text → Result Text → Result Value × TxState
  hashed key (throw e) =
      (throw e, record s { is_processing = false; status = failed; error_text = some (message e) })
  hashed key (ok h) = signed h (generate_transaction_signature p h key)

sign_and_send_lem :
    (p : Platform) (key : Text) (tx : Transaction) (s : TxState)
    → s.current ≡ some tx
    → sign_and_send p key s ≡ hashed p tx s key (hash_transaction p tx)
unfolding sign_and_send send_steps send_failed stop_processing in_browser ask current_or_throw
    catch_with finally ◌>>=◌
sign_and_send_lem p key tx s h = ground arith

-- `POST /namecoin/handle`
abbrev pub handle_request : Platform → Value → Request
handle_request p body = post_request (get_base_url p ++ js "/namecoin/handle") (body_of p body)

-- One signed request went out, its answer was read, and the history has one more entry.
pub record Sent (p : Platform) (key : Text) (tx : Transaction) (s t : TxState) (v : Value)
    : Type 0 where
  pub hash : Text
  pub signature : Text
  pub body : Value
  pub time : Text
  pub is_hash : hash_transaction p tx ≡ ok hash
  pub is_signature : generate_transaction_signature p hash key ≡ ok signature
  pub is_body : p.canonicalize (send_object tx (str signature)) ≡ ok body
  pub requests : t.browser.sent ≡ handle_request p body ∷ s.browser.sent
  pub is_answer :
      reading p
        (send (mark tx hash) (str signature))
        (p.answer s.browser.asked (handle_request p body))
      ≡ ok v
  pub is_time : time ≡ p.iso_date (suc s.browser.asked)
  pub storage : t.browser.storage ≡ s.browser.storage
  pub current : t.current ≡ some (mark tx hash)
  pub status : t.status ≡ success
  pub error_text : t.error_text ≡ none
  pub is_processing : t.is_processing ≡ false
  pub history :
      t.history
      ≡ s.history
        ++ record {
          transaction = mark tx hash;
          signature = signature;
          timestamp = time;
          result = v;
        }
          ∷ []

pub record NotSent (s t : TxState) (e : Exception) : Type 0 where
  pub storage : t.browser.storage ≡ s.browser.storage
  pub status : t.status ≡ failed
  pub error_text : t.error_text ≡ some (message e)
  pub is_processing : t.is_processing ≡ false
  pub history : t.history ≡ s.history

abbrev pub SendEnds : Platform → Text → Transaction → TxState → Result Value × TxState → Type 0
SendEnds p key tx s out =
    ((v : Value) × (out.0 ≡ ok v) × Sent p key tx s out.1 v)
    ⊎ ((e : Exception) × (out.0 ≡ throw e) × NotSent s out.1 e)

pub send_object-mark :
    (tx : Transaction) (h : Text) (g : Value) → send_object (mark tx h) g ≡ send_object tx g
unfolding send_object
send_object-mark tx h g = refl

module _ (p : Platform) (key : Text) (tx : Transaction) (s : TxState) where
  ended-SendEnds :
      (h g : Text) (r : Result Value) (b : Browser) (body : Value)
      → hash_transaction p tx ≡ ok h
      → generate_transaction_signature p h key ≡ ok g
      → p.canonicalize (send_object tx (str g)) ≡ ok body
      → b.sent ≡ handle_request p body ∷ s.browser.sent
      → reading p (send (mark tx h) (str g)) (p.answer s.browser.asked (handle_request p body)) ≡ r
      → b.asked ≡ suc s.browser.asked
      → b.storage ≡ s.browser.storage
      → SendEnds p key tx s (ended p tx s h g r b)
  ended-SendEnds h g (ok v) b body eh eg eb er ea et es = inl (
    v,
    refl,
    record {
      hash = h;
      signature = g;
      body = body;
      time = p.iso_date b.asked;
      is_hash = eh;
      is_signature = eg;
      is_body = eb;
      requests = er;
      is_answer = ea;
      is_time = ap p.iso_date et;
      storage = es;
      current = refl;
      status = refl;
      error_text = refl;
      is_processing = refl;
      history = refl;
    },
  )
  ended-SendEnds h g (throw e) b body eh eg eb er ea et es = inr (
    e,
    refl,
    record { storage = es; status = refl; error_text = refl; is_processing = refl; history = refl },
  )

  request-SendEnds :
      (h g : Text) (r : Result Value) (out : Result Value × Browser)
      → hash_transaction p tx ≡ ok h
      → generate_transaction_signature p h key ≡ ok g
      → p.canonicalize (send_object tx (str g)) ≡ r
      → Ends p (send (mark tx h) (str g)) s.browser (request_of p (send (mark tx h) (str g))) out
      → SendEnds p key tx s (ended p tx s h g out.0 out.1)
  request-SendEnds h g (ok body) out eh eg eb ends =
      let done = rw (send_object-mark, eb) at ends in
      ended-SendEnds h g out.0 out.1 body eh eg eb
        (ap (λ (o : Result Value × Browser). o.1.sent) done)
        (sym (ap (λ (o : Result Value × Browser). o.0) done))
        (ap (λ (o : Result Value × Browser). o.1.asked) done)
        (ap (λ (o : Result Value × Browser). o.1.storage) done)
  request-SendEnds h g (throw e) out eh eg eb ends =
      let done = rw (send_object-mark, eb) at ends in
      rw done (
        inr (
          e,
          refl,
          record {
            storage = refl;
            status = refl;
            error_text = refl;
            is_processing = refl;
            history = refl;
          },
        ))

  signed-SendEnds :
      (h : Text) (r : Result Text)
      → hash_transaction p tx ≡ ok h
      → generate_transaction_signature p h key ≡ r
      → SendEnds p key tx s (signed p tx s h r)
  signed-SendEnds h (throw e) eh eg = inr (
    e,
    refl,
    record {
      storage = refl;
      status = refl;
      error_text = refl;
      is_processing = refl;
      history = refl;
    },
  )
  signed-SendEnds h (ok g) eh eg =
      request-SendEnds h g _ (send_transaction p (mark tx h) (str g) s.browser) eh eg refl
        (unfold run_api in run_api-Ends p (send (mark tx h) (str g)) s.browser)

  hashed-SendEnds :
      (r : Result Text) → hash_transaction p tx ≡ r → SendEnds p key tx s (hashed p tx s key r)
  hashed-SendEnds (throw e) eh = inr (
    e,
    refl,
    record {
      storage = refl;
      status = refl;
      error_text = refl;
      is_processing = refl;
      history = refl;
    },
  )
  hashed-SendEnds (ok h) eh = signed-SendEnds h _ eh refl

-- `signAndSend` with a current transaction either returns what the node answered, read as JSON from a response that
-- is ok: then just one request was
-- sent, whose body is the canonical form of the transaction with a signature of its hash, the status is
-- success and the history has one more entry, with that signature and answer. Or it throws: then the
-- status is the error one, the message is kept, and the history is as before. Either way processing is
-- off at the end and the storage is untouched.
pub sign_and_send-ends :
    (p : Platform) (key : Text) (tx : Transaction) (s : TxState)
    → s.current ≡ some tx
    → SendEnds p key tx s (sign_and_send p key s)
sign_and_send-ends p key tx s h =
    rw (sign_and_send_lem p key tx s h) (hashed-SendEnds p key tx s _ refl)
