-- ===== src/Tests/Sessions.antt =====
-- The theorems on the session store, on a store with one conversation.
use solvela_client.Base.{
  ℕ, List, [], ◌∷◌, some, ◌≡◌, ◌↔◌, ◌<◌, ◌-◌, ◌%◌, refl, arith, true, length, string_eq, nat_eq,
  ltb,
}
use solvela_client.Base.Dict.{lookup, keep_if}
use solvela_client.Text.Digits.{u64_limit}
use solvela_client.Protocol.{ChatMessage}
use solvela_client.Session.{
  SessionStore, SessionEntry, fresh_entry, get_or_create, cleanup_expired, derive_session_id,
}
use solvela_client.Session.Strikes.{window, Struck}
use solvela_client.Session.Lookup.{
  record_all, record_all-history, session_affinity, IsValid, cleanup_expired_invisible,
}
use solvela_client.Session.Ids.{derive_session_id_iff}
use solvela_client.Tests.Fixtures.{message}

abbrev store : SessionStore
store = record { sessions = ("s", fresh_entry "gpt" 10) ∷ []; ttl = 60 }

store-IsValid : IsValid store
unfolding lookup string_eq
store-IsValid = (refl, tt)

abbrev hashes : List ℕ
hashes = 4 ∷ 5 ∷ 4 ∷ 4 ∷ []

record_all-history_example :
    (e : SessionEntry) × (lookup "s" (record_all store "s" hashes).sessions ≡ some e)
    × (e.recent_hashes ≡ window hashes)
    × (e.request_count ≡ length hashes % u64_limit)
    × ((e.escalated ≡ true) ↔ Struck [] hashes)
unfolding lookup string_eq
record_all-history_example = record_all-history store "s" "gpt" 10 hashes refl

session_affinity_example :
    (e : SessionEntry) × (lookup "s" (get_or_create store "s" "other" 20).1.sessions ≡ some e)
    × ((later : ℕ)
        → later - e.created < 60
        → (get_or_create
            (record_all (get_or_create store "s" "other" 20).1 "s" (4 ∷ []))
            "s"
            "third"
            later).0.model
          ≡ (get_or_create store "s" "other" 20).0.model)
session_affinity_example = session_affinity store "s" "other" "third" 20 (4 ∷ [])

cleanup_expired_invisible_example :
    (lookup "s" (cleanup_expired store 75).sessions
      ≡ keep_if (λ e. ltb (75 - e.created) store.ttl) (lookup "s" store.sessions))
    × ((get_or_create (cleanup_expired store 75) "s" "one" 80).0
        ≡ (get_or_create store "s" "one" 80).0)
cleanup_expired_invisible_example =
    cleanup_expired_invisible store "s" "one" 75 80 store-IsValid (omega arith)

abbrev digest : ChatMessage → ℕ
digest m = 12

derive_session_id_iff_example :
    (derive_session_id (λ texts. 12) (message "a" ∷ [])
      ≡ derive_session_id (λ texts. 12) (message "b" ∷ message "c" ∷ []))
    ↔ (digest (message "a") ≡ digest (message "b"))
derive_session_id_iff_example =
    derive_session_id_iff (λ texts. 12) (λ texts. omega arith) (message "a") (message "b") []
      (message "c" ∷ [])
