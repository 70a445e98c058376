-- ===== src/Proxy.antt =====
-- crates/solvela-client-proxy/src/proxy.rs: the payment proxy. The limit on the body of a request is
-- a layer of the HTTP server. A response is built of a valid status, so its builder does not fail,
-- and an error's JSON value can always be written.
pub mod Headers
pub mod Safety
pub mod Startup
pub mod Router
pub mod Answers
use mathlib.Core.List.{foldl}
use solvela_client.Base.{
  ℕ, String, ◌<>◌, Bool, true, false, ◌&&◌, ◌||◌, Option, none, some, List, [], ◌∷◌, ◌++◌, leb, ltb,
  ◌==◌, nat_eq, string_eq, if◌then◌else◌, unwrap_or, any,
}
use solvela_client.Base.Outcome.{Result, ok, err, Outcome, done, fail, panic}
use solvela_client.Base.Dict.{Dict, insert}
use solvela_client.Text.{ascii_lowercase}
use solvela_client.Protocol.{Json, PaymentRequired}
use solvela_client.Error.{NetError, ClientError, display_client_error}
use solvela_client.Config.{ClientConfig}
use solvela_client.Wallet.{Bytes, Wallet}
use solvela_client.Net.{HttpRequest, HttpResponse, World, no_body, raw, exchange}
use solvela_client.Platform.{Platform}
use solvela_client.Handshake.{payment_signature, sign_payment_for_402}

-- The value of a caller's header: visible ASCII (`to_str` succeeds), or other bytes.
pub data HeaderValue : Type 0 where
  visible : String → HeaderValue
  opaque_bytes : Bytes → HeaderValue

-- The body of the proxy's response: the stream of a response of the gateway, or an error's JSON.
pub data ProxyBody : Type 0 where
  streamed : HttpResponse → ProxyBody
  error_json : String → String → Option Json → ProxyBody

pub record ProxyResponse : Type 0 where
  pub status : ℕ
  pub headers : List (String × String)
  pub body : ProxyBody

-- What the server hands to the handler: the method, the path and query of the URI, if any, the
-- headers and the body.
pub record CallerRequest : Type 0 where
  pub method : String
  pub path_and_query : Option String
  pub headers : List (String × HeaderValue)
  pub body : Bytes

abbrev pub stripped_request_headers : List String
stripped_request_headers = "host" ∷ "connection" ∷ "transfer-encoding" ∷ "payment-signature" ∷ []

abbrev pub stripped_response_headers : List String
stripped_response_headers = "connection" ∷ "transfer-encoding" ∷ []

unfoldable pub forward_headers : List (String × HeaderValue) → List (String × String)
unfolding string_eq ascii_lowercase
forward_headers [] = []
forward_headers ((name, value) ∷ rest) =
    let later = forward_headers rest in
    if any (λ s. ascii_lowercase name == s) stripped_request_headers
    then later
    else elim value [ visible v ↦ (name, v) ∷ later | opaque_bytes b ↦ later ]

-- One round of the loop that copies the headers of a response.
unfoldable pub copy_header : Dict String String → String × String → Dict String String
unfolding string_eq ascii_lowercase insert
copy_header copied (name, value) =
    if any (λ s. ascii_lowercase name == s) stripped_response_headers
    then copied
    else insert name value copied

unfoldable pub build_passthrough_response : HttpResponse → ProxyResponse
unfolding copy_header
build_passthrough_response resp = record {
  status = if leb 100 resp.status && ltb resp.status 1000 then resp.status else 502;
  headers = foldl copy_header [] resp.headers;
  body = streamed resp;
}

unfoldable pub proxy_error_response : ℕ → String → String → Option Json → ProxyResponse
proxy_error_response status error_type message details = record {
  status = status;
  headers = ("content-type", "application/json") ∷ [];
  body = error_json error_type message details;
}

unfoldable pub error_type_of : ClientError → String
error_type_of ClientError.no_compatible_scheme = "no_compatible_scheme"
error_type_of (ClientError.recipient_mismatch expected actual) = "recipient_mismatch"
error_type_of (ClientError.amount_exceeds_max amount max) = "amount_exceeds_max"
error_type_of (ClientError.signing e) = "signing_error"
error_type_of _ = "proxy_error"

-- `debug` prints a duration (`{:?}`).
unfoldable pub client_error_to_response : (ℕ → String) → ClientError → ProxyResponse
unfolding proxy_error_response error_type_of display_client_error
client_error_to_response debug e =
    proxy_error_response 502 (error_type_of e) (display_client_error debug e) none

abbrev known_methods : List String
known_methods = "GET" ∷ "POST" ∷ "PUT" ∷ "DELETE" ∷ "PATCH" ∷ "HEAD" ∷ "OPTIONS" ∷ []

-- `from_bytes` is `reqwest::Method::from_bytes`.
unfoldable pub reqwest_method : (String → Option String) → String → String
unfolding string_eq
reqwest_method from_bytes method =
    if any (λ m. method == m) known_methods then method else unwrap_or (from_bytes method) "GET"

abbrev pub has_body : String → Bool
has_body method = method == "POST" || (method == "PUT" || method == "PATCH")

-- The request to the gateway, with the headers that are added to the caller's.
unfoldable pub gateway_request :
    (String → Option String) → String → CallerRequest → List (String × String) → HttpRequest
unfolding string_eq reqwest_method forward_headers
gateway_request from_bytes url caller added = record {
  method = reqwest_method from_bytes caller.method;
  url = url;
  headers = forward_headers caller.headers ++ added;
  payload = if has_body caller.method then raw caller.body else no_body;
}

-- What the answer to the paid request is turned into.
unfoldable pub answer_paid : Result NetError HttpResponse → ProxyResponse
unfolding nat_eq proxy_error_response build_passthrough_response
answer_paid (err e) =
    proxy_error_response 502 "gateway_unreachable" ("failed to send paid request: " <> e.message)
      none
answer_paid (ok resp) =
    if resp.status == 402
    then proxy_error_response 502 "payment_rejected"
        ("gateway rejected payment: " <> elim resp.body [ err e ↦ "" | ok body ↦ body ]) none
    else build_passthrough_response resp

-- The fixed parts of the proxy's state, and the two functions of the crates that it uses itself.
pub record ProxyState : Type 0 where
  pub wallet : Wallet
  pub config : ClientConfig
  pub gateway_url : String
  pub from_bytes : String → Option String
  pub debug : ℕ → String

module _ (p : Platform) (state : ProxyState) where
  -- The end of `handle_402`: the paid request, if the payment could be signed.
  unfoldable pub pay_and_forward :
      String → CallerRequest → Outcome ClientError String × World → Option ProxyResponse × World
  unfolding exchange answer_paid gateway_request client_error_to_response
  pay_and_forward url caller (done payment_header, w) =
      let sent =
        exchange p.net
          (gateway_request state.from_bytes url caller ((payment_signature, payment_header) ∷ []))
          w in
      (some (answer_paid sent.0), sent.1)
  pay_and_forward url caller (fail e, w) = (some (client_error_to_response state.debug e), w)
  pay_and_forward url caller (panic, w) = (none, w)

  -- What the parsed body of a 402 is turned into.
  abbrev pub answer_402 :
      String → CallerRequest → Result String PaymentRequired → World → Option ProxyResponse × World
  answer_402 url caller (err e) w = (
    some (
        proxy_error_response 502 "invalid_402_body"
          ("failed to parse 402 body as PaymentRequired: " <> e) none),
    w,
  )
  answer_402 url caller (ok payment_required) w =
      pay_and_forward url caller
        (sign_payment_for_402 p state.wallet state.config payment_required w)

  -- The result is `none` if the handler panics.
  unfoldable pub handle_402 :
      String → CallerRequest → HttpResponse → World → Option ProxyResponse × World
  unfolding proxy_error_response
  handle_402 url caller resp_402 w = elim resp_402.body [
    | err e ↦ (
      some (
          proxy_error_response 502 "invalid_402_body"
            ("failed to read 402 response body: " <> e.message) none),
      w,
    )
    | ok resp_body ↦ answer_402 url caller (p.serde.payment_required resp_body) w
  ]

  unfoldable pub answer_gateway :
      String → CallerRequest → Result NetError HttpResponse → World → Option ProxyResponse × World
  unfolding nat_eq proxy_error_response build_passthrough_response
  answer_gateway url caller (err e) w =
      if e.is_timeout
      then (
        some (
            proxy_error_response 504 "gateway_timeout" ("gateway request timed out: " <> e.message)
              none),
        w,
      )
      else (
        some (
            proxy_error_response 502 "gateway_unreachable"
              ("failed to reach gateway: " <> e.message) none),
        w,
      )
  answer_gateway url caller (ok resp) w =
      if resp.status == 402
      then handle_402 url caller resp w
      else (some (build_passthrough_response resp), w)

  unfoldable pub proxy_handler : CallerRequest → World → Option ProxyResponse × World
  unfolding exchange gateway_request
  proxy_handler caller w =
      let url = state.gateway_url <> unwrap_or caller.path_and_query "/" in
      let sent = exchange p.net (gateway_request state.from_bytes url caller []) w in
      answer_gateway url caller sent.0 sent.1
