-- ===== src/Cache/History.antt =====
-- Any sequence of calls on a response cache: what `get` answers was stored under the same key, and
-- not too long ago.
use mathlib.Core.List.{Memᴰ}
use solvela_client.Base.{
  ℕ, ◌-◌, ◌≤◌, none, some, List, [], ◌∷◌, ◌≡◌, ◌⊎◌, inl, inr, refl, arith, if◌then◌else◌,
  Option-cases, nat_eq, ◌∙◌, sym, ◌==◌,
}
use solvela_client.Protocol.{ChatResponse}
use solvela_client.Cache.{CacheEntry, LruCache, ResponseCache, with_config, get, put}
use native.Mathlib.Decide.{ℕ_discrete}
use solvela_client.Cache.Lru.{IsLawful}
use solvela_client.Cache.Freshness.{view, get-view}

-- A call with the clock's reading. `store` is `put`, and `load` is `get`.
pub data Call : Type 0 where
  load : ℕ → ℕ → Call
  store : ℕ → ChatResponse → ℕ → Call

-- What the calls stored, the last call first.
pub record Stored : Type 0 where
  pub key : ℕ
  pub response : ChatResponse
  pub time : ℕ

unfoldable pub stores : List Call → List Stored
stores [] = []
stores (load k t ∷ calls) = stores calls
stores (store k r t ∷ calls) = record { key = k; response = r; time = t } ∷ stores calls

module _ (L : LruCache) where
  -- The cache after the calls, of which the last stands first.
  unfoldable pub run : ResponseCache L → List Call → ResponseCache L
  run cache [] = cache
  run cache (load k t ∷ calls) = (get L (run cache calls) k t).1
  run cache (store k r t ∷ calls) = put L (run cache calls) k r t

module _ (L : LruCache) (law : IsLawful L) (cache : ResponseCache L) (k j t : ℕ) where
  peek-get :
      (L.peek (get L cache k t).1.inner j ≡ L.peek cache.inner j)
      ⊎ (L.peek (get L cache k t).1.inner j ≡ none)
  unfolding get
  peek-get = ground (arith, law.peek-pop cache.inner k j, law.peek-get cache.inner k j)

  peek-put :
      (r : ChatResponse)
      → (L.peek (put L cache k r t).inner j ≡ L.peek cache.inner j)
        ⊎ ((L.peek (put L cache k r t).inner j ≡ none)
            ⊎ ((k ≡ j)
                × (L.peek (put L cache k r t).inner j
                    ≡ some (record { response = r; inserted = t }))))
  unfolding put
  peek-put r =
      let entry : CacheEntry = record { response = r; inserted = t } in
      elim (ℕ_discrete k j) [
        | yes same ↦ ground (arith, law.peek-put_self cache.inner k entry)
        | no other ↦ ground (arith, law.peek-put_ne cache.inner k j entry other)
      ]

  get-ttl :
      ((get L cache k t).1.ttl ≡ cache.ttl)
      × ((r : ChatResponse) → (put L cache k r t).ttl ≡ cache.ttl)
  unfolding get put
  get-ttl = (ground arith, λ r. ground arith)

module _ (L : LruCache) (law : IsLawful L) (n ttl window : ℕ) where
  abbrev start : ResponseCache L
  start = with_config L n ttl window

  run-ttl : (calls : List Call) → (run L start calls).ttl ≡ ttl
  unfolding run with_config
  run-ttl [] = refl
  run-ttl (load k t ∷ calls) = (get-ttl L law (run L start calls) k k t).0 ∙ run-ttl calls
  run-ttl (store k r t ∷ calls) = (get-ttl L law (run L start calls) k k t).1 r ∙ run-ttl calls

  abbrev IsStored : List Call → ℕ → CacheEntry → Type 0
  IsStored calls k e =
      Memᴰ (record { key = k; response = e.response; time = e.inserted }) (stores calls)

  IsStored-before :
      (calls : List Call) (k : ℕ) (e : CacheEntry)
      → L.peek (run L start calls).inner k ≡ some e
      → IsStored calls k e
  unfolding run stores with_config
  IsStored-before [] k e h = absurd (ground (arith, law.peek-new (if n == 0 then 1 else n) k))
  IsStored-before (load j t ∷ calls) k e h = elim (peek-get L law (run L start calls) j k t) [
    | inl same ↦ IsStored-before calls k e (sym same ∙ h)
    | inr gone ↦ absurd (ground arith)
  ]
  IsStored-before (store j r t ∷ calls) k e h = elim (peek-put L law (run L start calls) j k t r) [
    | inl same ↦ Memᴰ.tail (IsStored-before calls k e (sym same ∙ h))
    | inr (inl gone) ↦ absurd (ground arith)
    | inr (inr (here, now)) ↦ Memᴰ.head (ground arith)
  ]

  -- If the map obeys its laws: after any calls on a new cache, what `get` answers was stored under the same key, and at most
  -- the time to live ago.
  pub get-stored :
      (calls : List Call) (key now : ℕ) (r : ChatResponse)
      → (get L (run L start calls) key now).0 ≡ some r
      → (time : ℕ) × Memᴰ (record { key = key; response = r; time = time }) (stores calls)
        × (now - time ≤ ttl)
  get-stored calls key now r h =
      let cache : ResponseCache L = run L start calls in
      let seen : view L cache now key ≡ some r = sym (get-view L law cache key now).0 ∙ h in
      elim (Option-cases (L.peek cache.inner key)) [
        | inl none_there ↦ absurd (unfold view in ground arith)
        | inr (e, found) ↦
            let same : e.response ≡ r = unfold view in ground arith in
            (
              e.inserted,
              rw same at (IsStored-before calls key e found),
              unfold view in ground (arith, run-ttl calls),
            )
      ]
