-- ===== src/Client.antt =====
-- crates/solvela-client/src/client.rs: the client, its chat and its streaming chat. An action of the
-- client changes its memory (the balance, the cache, the sessions) and the world. The state of the
-- balance is the atomic number that the balance monitor stores.
pub mod Stream
pub mod Queries
pub mod Funds
pub mod Safety
pub mod Spending
pub mod Caching
pub mod Model
pub mod Events
pub mod Requests
pub mod Total
pub mod Unpaid
use solvela_client.Base.{
  ℕ, String, ◌<>◌, Bool, true, false, Option, none, some, List, [], ◌∷◌, ◌==◌, nat_eq,
  if◌then◌else◌,
}
use solvela_client.Base.Outcome.{Outcome, done, fail, panic}
use solvela_client.Base.Exec.{Exec, pure, ◌>>=◌}
use solvela_client.Text.Digits.{u64_max}
use solvela_client.Protocol.{ChatMessage, ChatRequest, ChatResponse}
use solvela_client.Error.{ClientError}
use solvela_client.Config.{ClientConfig}
use solvela_client.Session.{
  SessionStore, new_store, derive_session_id, get_or_create, record_request,
}
use solvela_client.Cache.{LruCache, ResponseCache, cache_key}
use solvela_client.Cache
use solvela_client.Wallet.{Wallet}
use solvela_client.Net.{World}
use solvela_client.Platform.{Platform}
use solvela_client.Handshake.{send_chat_request, retry_if_degraded}

abbrev pub chat_url : ClientConfig → String
chat_url config = config.gateway_url <> "/v1/chat/completions"

-- Step 1 of a chat: with a balance of zero the request goes to the free model.
unfoldable pub balance_guard : ClientConfig → ℕ → ChatRequest → Bool × ChatRequest
unfolding nat_eq
balance_guard config balance_atomic req = elim config.free_fallback_model [
  | none ↦ (false, req)
  | some fallback_model ↦
      if balance_atomic == u64_max
      then (false, req)
      else if balance_atomic == 0
      then (true, record req { model = fallback_model })
      else (false, req)
]

-- Step 2: the session of the conversation, and its model unless step 1 chose the free one.
unfoldable pub session_lookup :
    (List String → ℕ)
    → Option SessionStore
    → Bool
    → ChatRequest
    → ℕ
    → Option String × ChatRequest × Option SessionStore
session_lookup sip none used_fallback req now = (none, req, none)
session_lookup sip (some store) used_fallback req now =
    let sid = derive_session_id sip req.messages in
    let found = get_or_create store sid req.model now in
    (some sid, if used_fallback then req else record req { model = found.0.model }, some found.1)

abbrev contents : List ChatMessage → List String
contents [] = []
contents (msg ∷ rest) = msg.content ∷ contents rest

unfoldable pub hash_request_content : (List String → ℕ) → ChatRequest → ℕ
hash_request_content ahash req = ahash (contents req.messages)

-- The session's part of step 6.
unfoldable pub record_session :
    (List String → ℕ) → Option String → Option SessionStore → ChatRequest → Option SessionStore
record_session ahash (some sid) (some store) req =
    some (record_request store sid (hash_request_content ahash req))
record_session ahash none store req = store
record_session ahash (some sid) none req = none

-- Steps 4 and 5.
unfoldable pub fetch :
    Platform → Wallet → ClientConfig → ChatRequest → Exec World ClientError ChatResponse
fetch p wallet config req = do
  (response, paid_atomic) ← send_chat_request p wallet config (chat_url config) req
  if config.enable_quality_check
      then retry_if_degraded p wallet config (chat_url config) req response paid_atomic
      else pure response

module _ (L : LruCache) where
  pub record SolvelaClient : Type 0 where
    pub wallet : Wallet
    pub config : ClientConfig
    pub balance_state : ℕ
    pub cache : Option (ResponseCache L)
    pub session_store : Option SessionStore

  -- `http_built` is the failure of the HTTP client's builder, if any.
  unfoldable pub new : Option String → Wallet → ClientConfig → Outcome ClientError SolvelaClient
  new (some e) wallet config = fail (ClientError.config ("failed to build HTTP client: " <> e))
  new none wallet config = done (record {
    wallet = wallet;
    config = config;
    balance_state = u64_max;
    cache = if config.enable_cache then some (Cache.new L) else none;
    session_store = if config.enable_sessions then some (new_store config.session_ttl) else none;
  })

  -- Step 3: the key of the request, and the answer that the cache has for it.
  unfoldable pub cache_lookup :
      Platform
      → Option (ResponseCache L)
      → ChatRequest
      → ℕ
      → Option ℕ × Option ChatResponse × Option (ResponseCache L)
  cache_lookup p none req now = (none, none, none)
  cache_lookup p (some cache) req now =
      let key = cache_key p.ahash p.serde.role_json req.model req.messages in
      let found = Cache.get L cache key now in (some key, found.0, some found.1)

  -- The cache's part of step 6.
  unfoldable pub cache_store :
      Option ℕ → Option (ResponseCache L) → ChatResponse → ℕ → Option (ResponseCache L)
  cache_store (some key) (some cache) response now = some (Cache.put L cache key response now)
  cache_store none cache response now = cache
  cache_store (some key) none response now = none

  -- What steps 1 to 3 hand on.
  pub record Prepared : Type 0 where
    pub request : ChatRequest
    pub session_id : Option String
    pub key : Option ℕ
    pub cached : Option ChatResponse
    pub client : SolvelaClient

  unfoldable pub prepare : Platform → SolvelaClient → ChatRequest → ℕ → Prepared
  prepare p client req now =
      let guarded =
        balance_guard client.config client.balance_state (record req { stream = false }) in
      let session = session_lookup p.sip client.session_store guarded.0 guarded.1 now in
      let looked = cache_lookup p client.cache session.1 now in
      record {
        request = session.1;
        session_id = session.0;
        key = looked.0;
        cached = looked.1;
        client = record client { cache = looked.2; session_store = session.2 };
      }

  -- Step 6.
  unfoldable pub settle : Platform → Prepared → ChatResponse → ℕ → SolvelaClient
  settle p prepared response now = record prepared.client {
    cache = cache_store prepared.key prepared.client.cache response now;
    session_store =
        record_session p.ahash prepared.session_id prepared.client.session_store prepared.request;
  }

  -- Step 6 after the steps that act on the world: an error leaves the chat before it.
  unfoldable pub finish :
      Platform
      → Prepared
      → Outcome ClientError ChatResponse × World
      → Outcome ClientError ChatResponse × SolvelaClient × World
  finish p prepared (done response, w) = (done response, settle p prepared response w.clock, w)
  finish p prepared (fail e, w) = (fail e, prepared.client, w)
  finish p prepared (panic, w) = (panic, prepared.client, w)

  unfoldable pub chat :
      Platform
      → ChatRequest
      → SolvelaClient
      → World
      → Outcome ClientError ChatResponse × SolvelaClient × World
  chat p req client w =
      let prepared = prepare p client req w.clock in
      elim prepared.cached [
        | some cached ↦ (done cached, prepared.client, w)
        | none ↦ finish p prepared (fetch p client.wallet client.config prepared.request w)
      ]
