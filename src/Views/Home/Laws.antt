-- ===== src/Views/Home/Laws.antt =====
-- How `connect` ends, and which addresses it takes.
use namecoin.Prelude.{
  ◌≡◌, ◌⊎◌, ◌≤◌, refl, ◌∙◌, true, false, none, some, [], ◌∷◌, ◌++◌, inl, inr, Bool-cases, length,
  length-append, arith, append_assoc, is_empty,
}
use namecoin.Js.Text.{Text, js, text_eq, text_eq_refl}
use namecoin.Js.Effect.{
  Exception, Result, Result-cases, ok, throw, error, message, modify, catch_with, handle, within,
  ◌>>=◌,
}
use namecoin.Js.Platform.{Platform, Browser, Request}
use namecoin.Views.WalletPage.{template}
use namecoin.Js.Storage.{lookup, without, set_item, remove_item}
use namecoin.Js.Storage.Laws.{lookup-set, lookup-without}
use namecoin.Utils.Regex.{test}
use namecoin.Utils.Regex.Spec.{InClass, Splits, test_iff}
use namecoin.Utils.Regex.Pieces.{one_char, one_char_back, at_least, at_least_back, InClass-append}
use namecoin.Services.Api.{get_base_url, get_request, get_miner_id}
use namecoin.Services.Api.Laws.{reading, miner_id, run_api, run_api-Ends, Ends}
use namecoin.Js.Value.{Value}
use namecoin.Views.Home.{
  Home, in_browser, is_host_char, is_digit, addr_pattern, set_error, fetch_miner, connect_failed,
  connect_to, connect,
}

-- `host:port`, with at least a character in the host and a digit in the port.
pub record IsAddress (a : Text) : Type 0 where
  pub host : Text
  pub port : Text
  pub whole : host ++ (58 ∷ port) ≡ a
  pub host_class : InClass is_host_char host
  pub port_class : InClass is_digit port
  pub host_size : 1 ≤ length host
  pub port_size : 1 ≤ length port

IsAddress-of_test : (a : Text) → test addr_pattern a ≡ true → IsAddress a
IsAddress-of_test a h =
    let r : Splits _ _ 1 none a = (test_iff _ _ a).0 h in
    let o = r.optional in
    let (c, t, kc, wc, h1) = one_char ((test_iff _ _ o.others).0 o.accepted) in
    let (kt, long) = at_least is_digit 1 t ((test_iff _ _ t).0 h1) in
    let e : c ≡ 58 = ground arith in
    record {
      host = r.front ++ o.front;
      port = t;
      whole = cc (append_assoc r.front o.front (58 ∷ t), wc, o.whole, r.whole, e);
      host_class = InClass-append is_host_char r.front o.front r.in_class o.in_class;
      port_class = kt;
      host_size = omega (arith, length-append r.front o.front, r.counted);
      port_size = long;
    }

host_back :
    (host port : Text)
    → InClass is_host_char host
    → InClass is_digit port
    → 1 ≤ length host
    → 1 ≤ length port
    → test addr_pattern (host ++ (58 ∷ port)) ≡ true
host_back [] port kh kp sh sp = absurd (omega arith)
host_back (c ∷ host) port (kc, kh) kp sh sp = (test_iff _ _ _).1 (record {
  front = c ∷ [];
  others = host ++ (58 ∷ port);
  whole = refl;
  in_class = (kc, tt);
  counted = refl;
  optional = record {
    front = host;
    others = 58 ∷ port;
    whole = refl;
    in_class = kh;
    bounded = tt;
    accepted = (test_iff _ _ _).1 (
        one_char_back 58 port refl refl
          ((test_iff _ _ port).1 (at_least_back is_digit 1 port kp sp)));
  };
})

test-of_IsAddress : (a : Text) → IsAddress a → test addr_pattern a ≡ true
test-of_IsAddress a r =
    rw (← r.whole) (host_back r.host r.port r.host_class r.port_class r.host_size r.port_size)

host-filled : (host port : Text) → 1 ≤ length host → is_empty (host ++ (58 ∷ port)) ≡ false
host-filled [] port h = absurd (omega arith)
host-filled (c ∷ host) port h = refl

IsAddress-filled : (a : Text) → IsAddress a → is_empty a ≡ false
IsAddress-filled a r = rw (← r.whole) (host-filled r.host r.port r.host_size)

-- the key under which `connect` stores the address
abbrev pub proxy_key : Text
proxy_key = js "proxyAddr"

-- `GET /namecoin/minerid`
abbrev pub miner_request : Platform → Request
miner_request p = get_request (get_base_url p ++ js "/namecoin/minerid")

-- The miner's identifier, as the node answers it at this moment.
abbrev pub answered : Platform → Browser → Result Value
answered p b = reading p miner_id (p.answer b.asked (miner_request p))

-- Why the miner's identifier is not there: the node did not answer with one, or it did not fit into the storage.
abbrev pub Unfetched : Platform → Browser → Exception → Type 0
Unfetched p b e =
    (answered p b ≡ throw e) ⊎ ((v : Value) × (answered p b ≡ ok v) × (e ≡ error p.quota_exceeded))

-- What the body of the `try` leaves.
record MinerFetched (p : Platform) (s : Home) (out : Result (Unit {0}) × Home) : Type 0 where
  stored : lookup proxy_key out.1.browser.storage ≡ lookup proxy_key s.browser.storage
  error : out.1.error_text ≡ s.error_text
  asked : out.1.browser.sent ≡ miner_request p ∷ s.browser.sent
  routed :
      (out.0 ≡ ok tt)
        × (out.1.routes ≡ s.routes ++ js "/wallet" ∷ [])
        × ((v : Value) × (answered p s.browser ≡ ok v)
            × (lookup (js "minerID") out.1.browser.storage ≡ some (template p v)))
      ⊎ (e : Exception) × (out.0 ≡ throw e) × (out.1.routes ≡ s.routes) × Unfetched p s.browser e

fetch_miner_lem : (p : Platform) (s : Home) → MinerFetched p s (fetch_miner p s)
unfolding fetch_miner in_browser within set_item ◌>>=◌ js text_eq
fetch_miner_lem p s =
    let same : Ends p miner_id s.browser (ok (miner_request p)) (get_miner_id p s.browser) =
      unfold run_api in run_api-Ends p miner_id s.browser in
    elim (Result-cases (answered p s.browser)) [
      | inl (v, e) ↦ elim (Bool-cases (p.fits s.browser.storage (js "minerID") (template p v))) [
        | inl room ↦
            rw (same, e, room)
              (record {
                stored = rw lookup-set refl;
                error = refl;
                asked = refl;
                routed = inl (refl, refl, (v, e, rw lookup-set refl));
              })
        | inr full ↦
            rw (same, e, full)
              (record {
                stored = refl;
                error = refl;
                asked = refl;
                routed = inr (_, refl, refl, inr (v, e, refl));
              })
      ]
      | inr (x, e) ↦
          rw (same, e)
            (record {
              stored = refl;
              error = refl;
              asked = refl;
              routed = inr (x, refl, refl, inl e);
            })
    ]

thrown_injective : (x e : Exception) (r : Result (Unit {0})) → r ≡ throw e → r ≡ throw x → x ≡ e
thrown_injective x e r h k = cc

-- The ends of `connect`.
pub data ConnectEnds (p : Platform) (s : Home) (out : Result (Unit {0}) × Home) : Type 0 where
  refused :
      (IsAddress s.proxy_addr → ⊥)
      → out.0 ≡ ok tt
      → out.1.browser ≡ s.browser
      → out.1.routes ≡ s.routes
      → is_empty out.1.error_text ≡ false
      → ConnectEnds p s out
  no_room :
      IsAddress s.proxy_addr
      → out.0 ≡ throw (error p.quota_exceeded)
      → out.1.browser ≡ s.browser
      → out.1.routes ≡ s.routes
      → ConnectEnds p s out
  connected :
      IsAddress s.proxy_addr
      → out.0 ≡ ok tt
      → out.1.routes ≡ s.routes ++ js "/wallet" ∷ []
      → lookup proxy_key out.1.browser.storage ≡ some s.proxy_addr
      → (v : Value) → answered p s.browser ≡ ok v
      → lookup (js "minerID") out.1.browser.storage ≡ some (template p v)
      → out.1.browser.sent ≡ miner_request p ∷ s.browser.sent
      → out.1.error_text ≡ []
      → ConnectEnds p s out
  failed :
      (e : Exception)
      → IsAddress s.proxy_addr
      → out.0 ≡ ok tt
      → out.1.routes ≡ s.routes
      → lookup proxy_key out.1.browser.storage ≡ none
      → Unfetched p s.browser e
      → out.1.browser.sent ≡ miner_request p ∷ s.browser.sent
      → out.1.error_text ≡ js "Failed to connect: " ++ message e
      → ConnectEnds p s out

module _ (p : Platform) (s : Home) where
  -- the state in which the miner is asked for
  abbrev asking : Home
  asking = record s {
    error_text = [];
    browser = record s.browser {
      storage = (proxy_key, s.proxy_addr) ∷ without proxy_key s.browser.storage;
    };
  }

  asked-ends :
      (out : Result (Unit {0}) × Home)
      → IsAddress s.proxy_addr
      → MinerFetched p asking out
      → ConnectEnds p s (handle out (connect_failed p))
  unfolding connect_failed set_error modify in_browser within remove_item ◌>>=◌
  asked-ends (ok tt, t) a f = elim f.routed [
    | inl (o, r, (v, got, miner)) ↦
        connected a refl r (f.stored ∙ rw (lookup-set, text_eq_refl)) v got miner f.asked f.error
    | inr (e, o, r, why) ↦ absurd (cc)
  ]
  asked-ends (throw e, t) a f = elim f.routed [
    | inl (o, r, (v, got, miner)) ↦ absurd (cc)
    | inr (x, o, r, why) ↦
        failed e a refl r (rw (lookup-without, text_eq_refl))
          (rw (← thrown_injective x e (throw e) refl o) why) f.asked refl
  ]

  connect_to-ends :
      IsAddress s.proxy_addr
      → ConnectEnds p s (connect_to p s.proxy_addr (record s { error_text = [] }))
  unfolding connect_to in_browser within set_item catch_with ◌>>=◌
  connect_to-ends a = elim (Bool-cases (p.fits s.browser.storage proxy_key s.proxy_addr)) [
    | inl room ↦ rw room (asked-ends (fetch_miner p asking) a (fetch_miner_lem p asking))
    | inr full ↦ rw full (no_room a refl refl refl)
  ]

  -- `connect` refuses what is no address of the form `host:port`, and then sends and stores nothing. It
  -- throws where the storage is full. Else it stores the address and asks the node once for the miner's
  -- identifier: it stores what the node answers and goes to the wallet, or it shows why not and forgets the address.
  pub connect-ends : ConnectEnds p s (connect p s)
  unfolding connect set_error modify js
  connect-ends = elim (Bool-cases (is_empty s.proxy_addr)) [
    | inl bare ↦
        rw bare
          (refused (λ a. absurd (cc (bare, IsAddress-filled s.proxy_addr a))) refl refl refl refl)
    | inr filled ↦ elim (Bool-cases (test addr_pattern s.proxy_addr)) [
      | inl fits ↦ rw (filled, fits) (connect_to-ends (IsAddress-of_test s.proxy_addr fits))
      | inr other ↦
          rw (filled, other)
            (refused (λ a. absurd (cc (other, test-of_IsAddress s.proxy_addr a))) refl refl refl
              refl)
    ]
  ]
