-- ===== src/Client/Caching.antt =====
-- A chat of crates/solvela-client/src/client.rs that repeats an earlier one, with the response cache
-- turned on.
use mathlib.Core.Option.{some-injective}
use solvela_client.Base.{◌≤◌, ℕ, ◌-◌, none, some, ◌≡◌, refl, arith, ltb, false, ap, ◌≤◌}
use solvela_client.Base.Outcome.{Outcome, done, fail, panic, done-injective}
use solvela_client.Error.{ClientError}
use solvela_client.Protocol.{ChatRequest, ChatResponse}
use solvela_client.Cache.{LruCache, ResponseCache, CacheEntry, get, put, is_duplicate, cache_key}
use solvela_client.Cache.Lru.{IsLawful}
use solvela_client.Net.{World}
use solvela_client.Platform.{Platform}
use solvela_client.Client.{
  SolvelaClient, Prepared, prepare, cache_lookup, cache_store, finish, settle, fetch, chat,
}

module _ (L : LruCache) (law : IsLawful L) where
  -- A response that is stored after a miss answers the key until it expires.
  get-put_missed :
      (cache : ResponseCache L) (key now stored later : ℕ) (response : ChatResponse)
      → cache.poisoned ≡ false
      → (get L cache key now).0 ≡ none
      → ltb cache.ttl (later - stored) ≡ false
      → (get L (put L (get L cache key now).1 key response stored) key later).0 ≡ some response
  unfolding get put is_duplicate
  get-put_missed cache key now stored later response healthy missed fresh =
      let entry : CacheEntry = record { response = response; inserted = stored } in
      let state = (get L cache key now).1.inner in
      let put_self = law.peek-put_self state key entry in
      let got = law.get-peek (L.put state key entry) key in
      let popped = law.peek-pop cache.inner key key in
      let old = law.get-peek cache.inner key in ground (arith, put_self, got, popped, old)

  finish-settled :
      (p : Platform) (prepared : Prepared L) (o : Outcome ClientError ChatResponse × World)
      (r : ChatResponse)
      → (finish L p prepared o).0 ≡ done r
      → finish L p prepared o ≡ (done r, settle L p prepared r o.1.clock, o.1)
  unfolding finish
  finish-settled p prepared (done response, w) r h =
      ap (λ x. (done x, settle L p prepared x w.clock, w)) (done-injective response r h)
  finish-settled p prepared (fail e, w) r h = absurd (ground arith)
  finish-settled p prepared (panic, w) r h = absurd (ground arith)

  lookup-store :
      (p : Platform) (cache : ResponseCache L) (req again : ChatRequest) (now stored later : ℕ)
      (r : ChatResponse)
      → let first = cache_lookup L p (some cache) req now in
        let second = cache_lookup L p (cache_store L first.0 first.2 r stored) again later in
        cache.poisoned ≡ false
        → first.1 ≡ none
        → second.0 ≡ first.0
        → ltb cache.ttl (later - stored) ≡ false
        → second.1 ≡ some r
  unfolding cache_lookup cache_store
  lookup-store p cache req again now stored later r healthy missed same fresh =
      let key = cache_key p.ahash p.serde.role_json req.model req.messages in
      let other = cache_key p.ahash p.serde.role_json again.model again.messages in
      let agree : other ≡ key = some-injective other key same in
      rw agree (get-put_missed cache key now stored later r healthy missed fresh)

  settled-cached :
      (p : Platform) (client : SolvelaClient L) (cache : ResponseCache L) (req : ChatRequest)
      (now stored later : ℕ) (r : ChatResponse) (again : ChatRequest)
      → client.cache ≡ some cache
      → cache.poisoned ≡ false
      → (prepare L p client req now).cached ≡ none
      → (prepare L p (settle L p (prepare L p client req now) r stored) again later).key
        ≡ (prepare L p client req now).key
      → ltb cache.ttl (later - stored) ≡ false
      → (prepare L p (settle L p (prepare L p client req now) r stored) again later).cached ≡ some r
  unfolding prepare settle
  settled-cached p client cache req now stored later r again has healthy missed same fresh =
      let request = (prepare L p client req now).request in
      let request' =
        (prepare L p (settle L p (prepare L p client req now) r stored) again later).request in
      let missed' : (cache_lookup L p (some cache) request now).1 ≡ none = rw has at missed in
      let same' : (cache_lookup L p
            (cache_store L (cache_lookup L p (some cache) request now).0
              (cache_lookup L p (some cache) request now).2 r stored)
            request' later).0
          ≡ (cache_lookup L p (some cache) request now).0 =
        rw has at same in
      rw has (lookup-store p cache request request' now stored later r healthy missed' same' fresh)

  chat-hit :
      (p : Platform) (client : SolvelaClient L) (req : ChatRequest) (w : World) (r : ChatResponse)
      → (prepare L p client req w.clock).cached ≡ some r
      → chat L p req client w ≡ (done r, (prepare L p client req w.clock).client, w)
  unfolding chat
  chat-hit p client req w r hit = rw (chat, hit) refl

  chat-missed :
      (p : Platform) (client : SolvelaClient L) (req : ChatRequest) (w : World)
      → let prepared = prepare L p client req w.clock in
        prepared.cached ≡ none
        → chat L p req client w
          ≡ finish L p prepared (fetch p client.wallet client.config prepared.request w)
  unfolding chat
  chat-missed p client req w missed = cc missed

  chat-done :
      (p : Platform) (client : SolvelaClient L) (req : ChatRequest) (w : World) (r : ChatResponse)
      → let prepared = prepare L p client req w.clock in
        let fetched = fetch p client.wallet client.config prepared.request w in
        prepared.cached ≡ none
        → (chat L p req client w).0 ≡ done r
        → chat L p req client w ≡ (done r, settle L p prepared r fetched.1.clock, fetched.1)
  chat-done p client req w r missed returned =
      let prepared = prepare L p client req w.clock in
      let fetched = fetch p client.wallet client.config prepared.request w in
      let e = chat-missed p client req w missed in
      let finished : (finish L p prepared fetched).0 ≡ done r = rw e at returned in
      rw e (finish-settled p prepared fetched r finished)

  -- If the map obeys its laws, with a healthy cache: after a chat that the cache did not answer has returned a response, another
  -- request with the same key that comes before the entry expires gets that response, and the world
  -- stays as it was: no request is sent and nothing is signed.
  pub chat-chat :
      (p : Platform) (client : SolvelaClient L) (cache : ResponseCache L) (req again : ChatRequest)
      (w later : World) (r : ChatResponse)
      → let prepared = prepare L p client req w.clock in
        let first = chat L p req client w in
        client.cache ≡ some cache
        → cache.poisoned ≡ false
        → prepared.cached ≡ none
        → first.0 ≡ done r
        → (prepare L p first.1 again later.clock).key ≡ prepared.key
        → later.clock - first.2.clock ≤ cache.ttl
        → ((chat L p again first.1 later).0 ≡ done r) × ((chat L p again first.1 later).2 ≡ later)
  chat-chat p client cache req again w later r has healthy missed returned same fresh =
      let prepared = prepare L p client req w.clock in
      let fetched = fetch p client.wallet client.config prepared.request w in
      let e = chat-done p client req w r missed returned in
      let same' : (prepare L p (settle L p prepared r fetched.1.clock) again later.clock).key
          ≡ prepared.key =
        rw e at same in
      let fresh' : later.clock - fetched.1.clock ≤ cache.ttl = rw e at fresh in
      let hit =
        settled-cached p client cache req w.clock fetched.1.clock later.clock r again has healthy
          missed same' (ground (arith, fresh')) in
      let answer = chat-hit p (settle L p prepared r fetched.1.clock) again later r hit in
      rw (e, answer) (refl, refl)
