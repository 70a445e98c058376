-- ===== src/Tests/Proxies.antt =====
-- The theorems on the proxy, for a caller who sends a payment header of its own.
use mathlib.Core.List.{Memᴰ, foldl}
use solvela_client.Base.{
  ◌⊎◌, ◌<◌, Option, length, ℕ, String, List, [], ◌∷◌, none, some, ◌≡◌, ◌≤◌, ◌+◌, ◌↔◌, string_eq,
}
use solvela_client.Base.Outcome.{ok}
use solvela_client.Base.Dict.{lookup, NodupKeys}
use solvela_client.Net.{HttpResponse}
use solvela_client.Handshake.Safety.{IsSafe}
use solvela_client.Handshake.Budget.{spent}
use solvela_client.Proxy.{
  ProxyResponse, CallerRequest, ProxyState, HeaderValue, visible, opaque_bytes, forward_headers,
  proxy_handler, build_passthrough_response, stripped_request_headers, stripped_response_headers,
}
use solvela_client.Proxy.Headers.{
  IsKept, forward_headers-Mem, last_value, build_passthrough_response-lookup,
}
use solvela_client.Proxy.Safety.{proxy_handler-IsSafe}
use solvela_client.Proxy.Answers.{Answered, build_proxy_router-Answered}
use solvela_client.Proxy.Router.{refused, handled, build_proxy_router}
use solvela_client.Tests.Keys.{solana-IsTotal, wallet-IsValid}
use solvela_client.Tests.Fixtures.{platform, wallet, config, start}

abbrev headers : List (String × HeaderValue)
headers =
    ("accept", visible "*/*")
    ∷ ("Payment-Signature", visible "forged")
    ∷ ("x", opaque_bytes (200 ∷ []))
    ∷ []

abbrev pub caller : CallerRequest
caller = record {
  method = "POST";
  path_and_query = some "/v1/models";
  headers = headers;
  body = 1 ∷ [];
}

abbrev state : ProxyState
state = record {
  wallet = wallet;
  config = config;
  gateway_url = "http://gateway";
  from_bytes = λ m. none;
  debug = λ d. "";
}

proxy_handler-IsSafe_example :
    IsSafe platform wallet config (proxy_handler platform state caller start).1
    × ((max : ℕ)
        → some 10_000_000 ≡ some max
        → spent (proxy_handler platform state caller start).1 ≤ spent start + max)
proxy_handler-IsSafe_example =
    proxy_handler-IsSafe platform state caller start (record { signed = tt; sent = tt })

forward_headers-Mem_example :
    Memᴰ ("accept", "*/*") (forward_headers headers)
    ↔ (Memᴰ ("accept", visible "*/*") headers × IsKept stripped_request_headers "accept")
forward_headers-Mem_example = forward_headers-Mem headers "accept" "*/*"

abbrev answer : HttpResponse
answer = record {
  status = 200;
  headers = ("set-cookie", "a") ∷ ("set-cookie", "b") ∷ [];
  body = ok "";
  events = [];
}

build_passthrough_response-lookup_example :
    NodupKeys (build_passthrough_response answer).headers
    × ((name : String)
        → IsKept stripped_response_headers name
        → lookup name (build_passthrough_response answer).headers
          ≡ foldl (last_value name) none answer.headers)
build_passthrough_response-lookup_example = build_passthrough_response-lookup answer

build_proxy_router-Answered_example :
    let routed = build_proxy_router 2_097_152 platform state caller start in
    ((10_485_760 < length caller.body ⊎ 2_097_152 < length caller.body)
      × (routed ≡ (refused 413, start)))
    ⊎ ((length caller.body ≤ 10_485_760)
        × (length caller.body ≤ 2_097_152)
        × ((o : Option ProxyResponse) × (routed.0 ≡ handled o) × Answered platform o))
build_proxy_router-Answered_example =
    build_proxy_router-Answered platform state solana-IsTotal wallet-IsValid 2_097_152 caller start
