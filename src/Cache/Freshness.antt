-- ===== src/Cache/Freshness.antt =====
-- What a caller of the response cache of crates/solvela-client/src/cache.rs sees: the answer that
-- is stored and has not expired.
use solvela_client.Base.{
  ℕ, ◌-◌, ◌≤◌, Option, none, some, ◌≡◌, ◌≢◌, ◌⊎◌, arith, ltb, if◌then◌else◌, false, nat_eq,
}
use solvela_client.Protocol.{ChatResponse}
use solvela_client.Cache.{CacheEntry, LruCache, ResponseCache, get, put, is_duplicate}
use solvela_client.Cache.Lru.{IsLawful}

module _ (L : LruCache) where
  unfoldable pub view : ResponseCache L → ℕ → ℕ → Option ChatResponse
  view cache now key = if cache.poisoned then none else elim (L.peek cache.inner key) [
    | none ↦ none
    | some entry ↦ if ltb cache.ttl (now - entry.inserted) then none else some entry.response
  ]

module _ (L : LruCache) (law : IsLawful L) (cache : ResponseCache L) (key now : ℕ) where
  -- If the map obeys its laws, `get` answers what is stored and fresh. It changes nothing that a later `get` can see, although
  -- it removes an expired entry and moves the key to the front.
  pub get-view :
      ((get L cache key now).0 ≡ view L cache now key)
      × ((j later : ℕ)
          → now ≤ later
          → view L (get L cache key now).1 later j ≡ view L cache later j)
  unfolding get view
  get-view =
      let same = law.get-peek cache.inner key in
      (
        ground (arith, same),
        λ j later le.
            ground (arith, law.peek-pop cache.inner key j, law.peek-get cache.inner key j),
      )

  -- If the map obeys its laws: after `put` on a healthy cache the key holds the response until it expires, unless an answer
  -- younger than the deduplication window was there, which stays. Another key keeps its answer or
  -- loses it to an eviction.
  pub put-view :
      (response : ChatResponse) (later : ℕ)
      → cache.poisoned ≡ false
      → (view L (put L cache key response now) later key ≡ (
          if is_duplicate L cache key now
          then view L cache later key
          else if ltb cache.ttl (later - now)
          then none
          else some response))
        × ((j : ℕ)
            → key ≢ j
            → (view L (put L cache key response now) later j ≡ view L cache later j)
              ⊎ (view L (put L cache key response now) later j ≡ none))
  unfolding put view
  put-view response later healthy =
      let entry : CacheEntry = record { response = response; inserted = now } in
      (
        ground (arith, law.peek-put_self cache.inner key entry),
        λ j other. ground (arith, law.peek-put_ne cache.inner key j entry),
      )
