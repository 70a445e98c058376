-- ===== src/Tests/Caches.antt =====
-- The theorems on the response cache, with a list for the map.
use mathlib.Core.List.{Memᴰ}
use solvela_client.Base.{
  ℕ, [], ◌∷◌, none, some, ◌≡◌, ◌≢◌, ◌≤◌, ◌-◌, ◌⊎◌, refl, ltb, if◌then◌else◌, nat_eq, false,
}
use solvela_client.Base.Dict.{lookup}
use solvela_client.Cache.{ResponseCache, with_config, get, put, is_duplicate}
use solvela_client.Cache.Lru.{list_lru, list_lru-IsLawful, without}
use solvela_client.Cache.Freshness.{view, put-view}
use solvela_client.Cache.History.{load, store, stores, run, get-stored}
use solvela_client.Tests.Fixtures.{response}

abbrev cache : ResponseCache list_lru
cache = record {
  inner = record { room = 1; items = (5, record { response = response; inserted = 10 }) ∷ [] };
  poisoned = false;
  ttl = 50;
  dedup_window = 5;
}

put-view_example :
    (view list_lru (put list_lru cache 5 response 30) 70 5 ≡ (
      if is_duplicate list_lru cache 5 30
      then view list_lru cache 70 5
      else if ltb 50 (70 - 30)
      then none
      else some response))
    × ((j : ℕ)
        → 5 ≢ j
        → (view list_lru (put list_lru cache 5 response 30) 70 j ≡ view list_lru cache 70 j)
          ⊎ (view list_lru (put list_lru cache 5 response 30) 70 j ≡ none))
put-view_example = put-view list_lru list_lru-IsLawful cache 5 30 response 70 refl

get-stored_example :
    (time : ℕ) × Memᴰ
      (record { key = 5; response = response; time = time })
      (stores (load 6 12 ∷ store 5 response 10 ∷ []))
    × (40 - time ≤ 50)
unfolding get put run with_config lookup nat_eq is_duplicate without
get-stored_example =
    get-stored list_lru list_lru-IsLawful 2 50 5 (load 6 12 ∷ store 5 response 10 ∷ []) 5 40
      response refl
