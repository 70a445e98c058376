-- ===== src/Proxy/Router.antt =====
-- crates/solvela-client-proxy/src/proxy.rs: the router, in front of the handler.
use solvela_client.Base.{ℕ, ◌*◌, Option, ◌&&◌, leb, length, if◌then◌else◌}
use solvela_client.Net.{World}
use solvela_client.Platform.{Platform}
use solvela_client.Proxy.{CallerRequest, ProxyState, ProxyResponse, proxy_handler}

abbrev pub max_body_size : ℕ
max_body_size = 10 * 1024 * 1024

-- What a caller gets: the HTTP library's own refusal, by its status, or what the handler gives.
pub data Routed : Type 0 where
  refused : ℕ → Routed
  handled : Option ProxyResponse → Routed

-- A request reaches the handler if its body is no longer than the layer's limit and than what the
-- library reads into the handler's argument `Bytes`, the number `bytes_limit`; else it is refused.
unfoldable pub build_proxy_router :
    ℕ → Platform → ProxyState → CallerRequest → World → Routed × World
unfolding proxy_handler
build_proxy_router bytes_limit p state caller w =
    let answered = proxy_handler p state caller w in
    if leb (length caller.body) max_body_size && leb (length caller.body) bytes_limit
    then (handled answered.0, answered.1)
    else (refused 413, w)
