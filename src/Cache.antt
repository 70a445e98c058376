-- ===== src/Cache.antt =====
-- crates/solvela-client/src/cache.rs: the response cache. The crate `lru` is not part of the
-- repository: its map is a parameter, with the laws of its documentation. A method reads the clock
-- once. A thread that panics while it holds the mutex leaves it poisoned.
pub mod Lru
pub mod Freshness
pub mod History
use solvela_client.Base.{
  ℕ, ◌-◌, String, Bool, true, false, Option, none, some, List, [], ◌∷◌, ltb, ◌==◌, nat_eq,
  if◌then◌else◌, unwrap_or,
}
use solvela_client.Protocol.{Role, ChatMessage, ChatResponse}
use solvela_client.Config.{from_secs}

abbrev pub default_max_entries : ℕ
default_max_entries = 200

abbrev pub default_ttl_secs : ℕ
default_ttl_secs = 600

abbrev pub default_dedup_window_secs : ℕ
default_dedup_window_secs = 30

-- `LruCache<u64, CacheEntry>`
pub record CacheEntry : Type 0 where
  pub response : ChatResponse
  pub inserted : ℕ

pub record LruCache : Type 1 where
  pub State : Type 0
  pub new : ℕ → State
  pub peek : State → ℕ → Option CacheEntry
  pub pop : State → ℕ → State
  pub get : State → ℕ → Option CacheEntry × State
  pub put : State → ℕ → CacheEntry → State

-- The digest of the texts hashed in turn by `AHasher`, and a role's JSON text (`to_string`), which
-- is empty if the role cannot be written.
unfoldable pub cache_key :
    (List String → ℕ) → (Role → Option String) → String → List ChatMessage → ℕ
cache_key ahash role_json model messages = ahash (model ∷ texts messages)
  where
    texts : List ChatMessage → List String
    texts [] = []
    texts (msg ∷ rest) = unwrap_or (role_json msg.role) "" ∷ msg.content ∷ texts rest

module _ (L : LruCache) where
  pub record ResponseCache : Type 0 where
    pub inner : L.State
    pub poisoned : Bool
    pub ttl : ℕ
    pub dedup_window : ℕ

  unfoldable pub with_config : ℕ → ℕ → ℕ → ResponseCache
  unfolding nat_eq
  with_config max_entries ttl dedup_window = record {
    inner = L.new (if max_entries == 0 then 1 else max_entries);
    poisoned = false;
    ttl = ttl;
    dedup_window = dedup_window;
  }

  unfoldable pub new : ResponseCache
  unfolding with_config
  new =
      with_config default_max_entries (from_secs default_ttl_secs)
        (from_secs default_dedup_window_secs)

  abbrev response_of : Option CacheEntry → Option ChatResponse
  response_of none = none
  response_of (some entry) = some entry.response

  unfoldable pub get : ResponseCache → ℕ → ℕ → Option ChatResponse × ResponseCache
  get cache key now = if cache.poisoned then (none, cache) else elim (L.peek cache.inner key) [
    | none ↦ (none, cache)
    | some entry ↦
        if ltb cache.ttl (now - entry.inserted)
        then (none, record cache { inner = L.pop cache.inner key })
        else (
          response_of (L.get cache.inner key).0,
          record cache { inner = (L.get cache.inner key).1 },
        )
  ]

  -- The entry of the key is younger than the deduplication window.
  unfoldable pub is_duplicate : ResponseCache → ℕ → ℕ → Bool
  is_duplicate cache key now = elim (L.peek cache.inner key) [
    | none ↦ false
    | some existing ↦ ltb (now - existing.inserted) cache.dedup_window
  ]

  unfoldable pub put : ResponseCache → ℕ → ChatResponse → ℕ → ResponseCache
  unfolding is_duplicate
  put cache key response now =
      if cache.poisoned then cache else if is_duplicate cache key now then cache else record cache {
        inner = L.put cache.inner key (record { response = response; inserted = now });
      }
