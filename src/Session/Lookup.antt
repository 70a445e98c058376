-- ===== src/Session/Lookup.antt =====
-- What a caller of crates/solvela-client/src/session.rs can tell of the sessions after each method.
use mathlib.Core.List.{foldl}
use solvela_client.Base.{
  ℕ, ◌-◌, ◌%◌, ◌≤◌, ◌<◌, String, true, none, some, List, [], ◌∷◌, ◌≡◌, ◌≢◌, refl, ◌↔◌, inl, inr,
  arith, length, ltb, string_eq, nat_eq, Option-cases, Bool-cases, ◌∙◌,
}
use solvela_client.Base.Dict.{
  lookup, insert, lookup-insert_self, lookup-insert_ne, NodupKeys, insert-NodupKeys, keep_if,
  retain-NodupKeys, lookup-retain,
}
use solvela_client.Text.Digits.{u64_limit}
use solvela_client.Session.{
  SessionInfo, SessionEntry, SessionStore, find_live, fresh_entry, create, get_or_create,
  record_entry, record_request, cleanup_expired,
}
use solvela_client.Session.Strikes.{window, Struck, Tracks, record_all-Tracks}

module _ (store : SessionStore) (sid model : String) (now : ℕ) where
  -- Under the write lock the answer is the session that is stored, and it is alive.
  pub create-find_live :
      0 < store.ttl
      → find_live (create store sid model now).1 sid now ≡ some (create store sid model now).0
  unfolding create find_live
  create-find_live pos =
      ground (arith, lookup-insert_self sid (fresh_entry model now) store.sessions)

  -- No other session is touched.
  pub create-other :
      (other : String)
      → sid ≢ other
      → lookup other (create store sid model now).1.sessions ≡ lookup other store.sessions
  unfolding create
  create-other other h =
      ground (arith, lookup-insert_ne sid other (fresh_entry model now) store.sessions h)

  -- `get_or_create` leaves a session in the store that holds the model which it answers.
  pub get_or_create-lookup :
      (e : SessionEntry) × (lookup sid (get_or_create store sid model now).1.sessions ≡ some e)
      × (e.model ≡ (get_or_create store sid model now).0.model)
  unfolding get_or_create
  get_or_create-lookup = elim (Option-cases (lookup sid store.sessions)) [
    | inl missing ↦ (fresh_entry model now, ground (arith, stored), ground arith)
    | inr (e, found) ↦ elim (Bool-cases (ltb (now - e.created) store.ttl)) [
      | inl live ↦ (e, ground arith, ground arith)
      | inr expired ↦ (fresh_entry model now, ground (arith, stored), ground arith)
    ]
  ]
    where
      stored :
          lookup sid (insert sid (fresh_entry model now) store.sessions)
          ≡ some (fresh_entry model now)
      stored = lookup-insert_self sid (fresh_entry model now) store.sessions

  -- Two tasks that both found no session: the one that writes second, within the time to live, takes
  -- the first one's model.
  pub create_race :
      (later_model : String) (later : ℕ)
      → find_live store sid now ≡ none
      → later - now < store.ttl
      → (create (create store sid model now).1 sid later_model later).0.model ≡ model
  unfolding create find_live
  create_race later_model later missed young =
      ground (arith, lookup-insert_self sid (fresh_entry model now) store.sessions)

-- A request that is recorded changes its own session as `record_entry` does.
lookup-record_request :
    (store : SessionStore) (sid : String) (h : ℕ) (e : SessionEntry)
    → lookup sid store.sessions ≡ some e
    → lookup sid (record_request store sid h).sessions ≡ some (record_entry e h)
unfolding record_request
lookup-record_request store sid h e found =
    ground (arith, lookup-insert_self sid (record_entry e h) store.sessions)

-- The requests of a session, recorded in turn.
abbrev pub record_all : SessionStore → String → List ℕ → SessionStore
record_all store sid hs = foldl (λ s h. record_request s sid h) store hs

pub lookup-record_all :
    (store : SessionStore) (sid : String) (hs : List ℕ) (e : SessionEntry)
    → lookup sid store.sessions ≡ some e
    → lookup sid (record_all store sid hs).sessions ≡ some (foldl record_entry e hs)
lookup-record_all store sid [] e found = found
lookup-record_all store sid (h ∷ hs) e found =
    lookup-record_all (record_request store sid h) sid hs (record_entry e h)
      (lookup-record_request store sid h e found)

-- For a session that starts fresh, after any requests: the window holds the last ten hashes, the
-- counter their number as a `u64`, and the session is escalated exactly if at some time one hash
-- stood three times in the window.
pub record_all-history :
    (store : SessionStore) (sid model : String) (created : ℕ) (hs : List ℕ)
    → lookup sid store.sessions ≡ some (fresh_entry model created)
    → (e : SessionEntry) × (lookup sid (record_all store sid hs).sessions ≡ some e)
      × (e.recent_hashes ≡ window hs)
      × (e.request_count ≡ length hs % u64_limit)
      × ((e.escalated ≡ true) ↔ Struck [] hs)
record_all-history store sid model created hs found =
    let start : Tracks [] (fresh_entry model created) = record {
      hashes = unfold window in refl;
      counted = refl;
    } in
    let (tracks, (sound, complete)) = record_all-Tracks [] hs (fresh_entry model created) start in
    (
      foldl record_entry (fresh_entry model created) hs,
      lookup-record_all store sid hs (fresh_entry model created) found,
      tracks.hashes,
      tracks.counted,
      (
        λ up. elim (sound up) [ inl old ↦ absurd (ground arith) | inr struck ↦ struck ],
        λ struck. complete (inr struck),
      ),
    )

record_entry-model :
    (e : SessionEntry) (h : ℕ)
    → ((record_entry e h).model ≡ e.model) × ((record_entry e h).created ≡ e.created)
unfolding record_entry
record_entry-model e h = (refl, refl)

foldl-record_entry-model :
    (e : SessionEntry) (hs : List ℕ)
    → ((foldl record_entry e hs).model ≡ e.model) × ((foldl record_entry e hs).created ≡ e.created)
foldl-record_entry-model e [] = (refl, refl)
foldl-record_entry-model e (h ∷ hs) =
    ground (arith, foldl-record_entry-model (record_entry e h) hs, record_entry-model e h)

get_or_create_live :
    (store : SessionStore) (sid model : String) (now : ℕ) (e : SessionEntry)
    → lookup sid store.sessions ≡ some e
    → now - e.created < store.ttl
    → (get_or_create store sid model now).0.model ≡ e.model
unfolding get_or_create
get_or_create_live store sid model now e found young = ground arith

record_all-ttl :
    (store : SessionStore) (sid : String) (hs : List ℕ) → (record_all store sid hs).ttl ≡ store.ttl
record_all-ttl store sid [] = refl
record_all-ttl store sid (h ∷ hs) = rw (record_all-ttl (record_request store sid h) sid hs) one
  where
    one : (record_request store sid h).ttl ≡ store.ttl
    one = unfold record_request in ground arith

get_or_create-ttl :
    (store : SessionStore) (sid model : String) (now : ℕ)
    → (get_or_create store sid model now).1.ttl ≡ store.ttl
unfolding get_or_create
get_or_create-ttl store sid model now = ground arith

-- A session keeps its model: whatever model later calls ask for, and whatever requests are
-- recorded, `get_or_create` answers the model of the first call while the session is younger than
-- the time to live.
pub session_affinity :
    (store : SessionStore) (sid model later_model : String) (now : ℕ) (hs : List ℕ)
    → let first = get_or_create store sid model now in
      (e : SessionEntry) × (lookup sid first.1.sessions ≡ some e)
      × ((later : ℕ)
          → later - e.created < store.ttl
          → (get_or_create (record_all first.1 sid hs) sid later_model later).0.model
            ≡ first.0.model)
session_affinity store sid model later_model now hs =
    let first : SessionInfo × SessionStore = get_or_create store sid model now in
    let (e, found, same) = get_or_create-lookup store sid model now in
    let (kept_model, kept_created) = foldl-record_entry-model e hs in
    (
      e,
      found,
      λ later young.
          get_or_create_live (record_all first.1 sid hs) sid later_model later
            (foldl record_entry e hs) (lookup-record_all first.1 sid hs e found)
            (omega (
              arith,
              kept_created,
              record_all-ttl first.1 sid hs,
              get_or_create-ttl store sid model now,
            ))
          ∙ kept_model
          ∙ same,
    )

-- Every key has one entry.
abbrev pub IsValid : SessionStore → Type 0
IsValid store = NodupKeys store.sessions

-- The three methods keep the store well formed: every key has one entry.
pub methods-IsValid :
    (store : SessionStore) (sid model : String) (now h : ℕ)
    → IsValid store
    → IsValid (get_or_create store sid model now).1
      × IsValid (record_request store sid h)
      × IsValid (cleanup_expired store now)
unfolding get_or_create record_request cleanup_expired
methods-IsValid store sid model now h v = (
  ground (arith, insert-NodupKeys sid (fresh_entry model now) store.sessions v),
  elim (Option-cases (lookup sid store.sessions)) [
    | inl missing ↦ ground arith
    | inr (e, found) ↦ ground (arith, insert-NodupKeys sid (record_entry e h) store.sessions v)
  ],
  retain-NodupKeys _ store.sessions v,
)

-- In a store in which every key has one entry, `cleanup_expired` removes exactly the sessions that
-- have expired, so that no later `get_or_create` answers otherwise for it.
pub cleanup_expired_invisible :
    (store : SessionStore) (sid model : String) (now later : ℕ)
    → IsValid store
    → now ≤ later
    → (lookup sid (cleanup_expired store now).sessions
        ≡ keep_if (λ e. ltb (now - e.created) store.ttl) (lookup sid store.sessions))
      × ((get_or_create (cleanup_expired store now) sid model later).0
          ≡ (get_or_create store sid model later).0)
unfolding cleanup_expired get_or_create
cleanup_expired_invisible store sid model now later v le =
    let kept = lookup-retain (λ e. ltb (now - e.created) store.ttl) sid store.sessions v in
    (kept, ground (arith, kept))
