-- ===== src/Cache/Lru.antt =====
-- The documented behaviour of `lru::LruCache` that the response cache relies on, and a list that
-- behaves so.
use solvela_client.Base.{
  ℕ, zero, suc, ◌-◌, Option, none, some, [], ◌∷◌, ◌≡◌, ◌≢◌, refl, ◌⊎◌, inr, arith, take, ◌==◌,
  nat_eq, if◌then◌else◌,
}
use solvela_client.Base.Dict.{Dict, lookup}
use solvela_client.Cache.{CacheEntry, LruCache}

-- A new map is empty. `pop` removes one key. `get` answers what `peek` does, and only marks the
-- entry as used. `put` stores its entry, and may evict another one.
pub record IsLawful (L : LruCache) : Type 0 where
  pub peek-new : (n k : ℕ) → L.peek (L.new n) k ≡ none
  pub peek-pop :
      (s : L.State) (k j : ℕ) → L.peek (L.pop s k) j ≡ (if k == j then none else L.peek s j)
  pub get-peek : (s : L.State) (k : ℕ) → (L.get s k).0 ≡ L.peek s k
  pub peek-get : (s : L.State) (k j : ℕ) → L.peek (L.get s k).1 j ≡ L.peek s j
  pub peek-put_self : (s : L.State) (k : ℕ) (e : CacheEntry) → L.peek (L.put s k e) k ≡ some e
  pub peek-put_ne :
      (s : L.State) (k j : ℕ) (e : CacheEntry)
      → k ≢ j
      → (L.peek (L.put s k e) j ≡ L.peek s j) ⊎ (L.peek (L.put s k e) j ≡ none)

-- The entries, most recently used first, and one less than the capacity.
pub record Recent : Type 0 where
  pub room : ℕ
  pub items : Dict ℕ CacheEntry

unfoldable pub without : ℕ → Dict ℕ CacheEntry → Dict ℕ CacheEntry
without k [] = []
without k ((j, e) ∷ d) = let rest = without k d in if j == k then rest else (j, e) ∷ rest

abbrev touch : ℕ → Recent → Option CacheEntry → Option CacheEntry × Recent
touch k s none = (none, s)
touch k s (some e) = (some e, record s { items = (k, e) ∷ without k s.items })

abbrev pub list_lru : LruCache
list_lru = record {
  State = Recent;
  new = λ n. record { room = n - 1; items = [] };
  peek = λ s k. lookup k s.items;
  pop = λ s k. record s { items = without k s.items };
  get = λ s k. touch k s (lookup k s.items);
  put = λ s k e. record s { items = take (suc s.room) ((k, e) ∷ without k s.items) };
}

lookup-without :
    (k j : ℕ) (d : Dict ℕ CacheEntry)
    → lookup j (without k d) ≡ (if k == j then none else lookup j d)
unfolding lookup without
lookup-without k j [] = ground arith
lookup-without k j ((i, e) ∷ d) = ground (arith, lookup-without k j d)

lookup-take :
    (n j : ℕ) (d : Dict ℕ CacheEntry)
    → (lookup j (take n d) ≡ lookup j d) ⊎ (lookup j (take n d) ≡ none)
unfolding lookup
lookup-take zero j d = inr refl
lookup-take (suc n) j [] = inr refl
lookup-take (suc n) j ((i, e) ∷ d) = ground (arith, lookup-take n j d)

touch-peek : (s : Recent) (k : ℕ) (o : Option CacheEntry) → (touch k s o).0 ≡ o
touch-peek s k none = refl
touch-peek s k (some e) = refl

peek-touch :
    (s : Recent) (k j : ℕ) (o : Option CacheEntry)
    → lookup k s.items ≡ o
    → lookup j (touch k s o).1.items ≡ lookup j s.items
unfolding lookup
peek-touch s k j none h = refl
peek-touch s k j (some e) h = ground (arith, lookup-without k j s.items)

pub list_lru-IsLawful : IsLawful list_lru
unfolding lookup
list_lru-IsLawful = record {
  peek-new = λ n k. refl;
  peek-pop = λ s k j. lookup-without k j s.items;
  get-peek = λ s k. touch-peek s k (lookup k s.items);
  peek-get = λ s k j. peek-touch s k j (lookup k s.items) refl;
  peek-put_self = λ s k e. ground arith;
  peek-put_ne = λ s k j e h.
      ground (arith, lookup-without k j s.items, lookup-take s.room j (without k s.items));
}
