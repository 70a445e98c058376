-- ===== src/Session.antt =====
-- crates/solvela-client/src/session.rs: the session store. Instants and durations are numbers of
-- nanoseconds; `created.elapsed()` is the difference to the clock's reading, which Rust lets stop at
-- zero as the subtraction here does.
pub mod Strikes
pub mod Lookup
pub mod Ids
use solvela_client.Base.{
  ℕ, ◌+◌, ◌-◌, ◌%◌, String, Bool, true, false, Option, none, some, List, [], ◌∷◌, ◌++◌, leb, ltb,
  length, drop, if◌then◌else◌, nat_eq, string_eq,
}
use solvela_client.Base.Counting.{reaches}
use solvela_client.Base.Dict.{Dict, lookup, insert, retain}
use solvela_client.Text.Digits.{to_hex, u64_limit}
use solvela_client.Protocol.{ChatMessage}

abbrev pub max_recent_hashes : ℕ
max_recent_hashes = 10

abbrev pub three_strike_threshold : ℕ
three_strike_threshold = 3

pub record SessionInfo : Type 0 where
  pub model : String
  pub escalated : Bool

pub record SessionEntry : Type 0 where
  pub model : String
  pub created : ℕ
  pub request_count : ℕ
  pub recent_hashes : List ℕ
  pub escalated : Bool

pub record SessionStore : Type 0 where
  pub sessions : Dict String SessionEntry
  pub ttl : ℕ

abbrev pub new_store : ℕ → SessionStore
new_store ttl = record { sessions = []; ttl = ttl }

abbrev info_of : SessionEntry → SessionInfo
info_of entry = record { model = entry.model; escalated = entry.escalated }

abbrev live_info : ℕ → ℕ → Option SessionEntry → Option SessionInfo
live_info ttl now none = none
live_info ttl now (some entry) =
    if ltb (now - entry.created) ttl then some (info_of entry) else none

-- The check under the read lock, and again under the write lock: the session, if it has not expired.
unfoldable pub find_live : SessionStore → String → ℕ → Option SessionInfo
find_live store session_id now = live_info store.ttl now (lookup session_id store.sessions)

abbrev pub fresh_entry : String → ℕ → SessionEntry
fresh_entry model now = record {
  model = model;
  created = now;
  request_count = 0;
  recent_hashes = [];
  escalated = false;
}

-- What `get_or_create` does under the write lock.
unfoldable pub create : SessionStore → String → String → ℕ → SessionInfo × SessionStore
create store session_id default_model now = elim (find_live store session_id now) [
  | some info ↦ (info, store)
  | none ↦ (
    record { model = default_model; escalated = false },
    record store { sessions = insert session_id (fresh_entry default_model now) store.sessions },
  )
]

-- `get_or_create` with no other task between its two locks.
unfoldable pub get_or_create : SessionStore → String → String → ℕ → SessionInfo × SessionStore
unfolding find_live create
get_or_create store session_id default_model now = elim (find_live store session_id now) [
  | some info ↦ (info, store)
  | none ↦ create store session_id default_model now
]

-- `pop_front` on a full window, then `push_back`.
unfoldable pub push_hash : List ℕ → ℕ → List ℕ
push_hash hashes hash =
    (if leb max_recent_hashes (length hashes) then drop 1 hashes else hashes) ++ (hash ∷ [])

unfoldable pub record_entry : SessionEntry → ℕ → SessionEntry
unfolding push_hash reaches nat_eq
record_entry entry request_hash =
    let hashes = push_hash entry.recent_hashes request_hash in
    record entry {
      request_count = (entry.request_count + 1) % u64_limit;
      recent_hashes = hashes;
      escalated = if entry.escalated then true else reaches three_strike_threshold hashes;
    }

unfoldable pub record_request : SessionStore → String → ℕ → SessionStore
unfolding record_entry
record_request store session_id request_hash = elim (lookup session_id store.sessions) [
  | none ↦ store
  | some entry ↦ record store {
    sessions = insert session_id (record_entry entry request_hash) store.sessions;
  }
]

unfoldable pub cleanup_expired : SessionStore → ℕ → SessionStore
unfolding retain
cleanup_expired store now = record store {
  sessions = retain (λ entry. ltb (now - entry.created) store.ttl) store.sessions;
}

-- `sip` is the standard library's `DefaultHasher`: the digest of the texts that are hashed in turn.
unfoldable pub derive_session_id : (List String → ℕ) → List ChatMessage → String
unfolding to_hex
derive_session_id sip [] = to_hex (sip [])
derive_session_id sip (first ∷ rest) = to_hex (sip (first.content ∷ []))
