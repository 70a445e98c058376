-- ===== src/Session/Strikes.antt =====
-- The three-strike rule of crates/solvela-client/src/session.rs against the whole history of a
-- session: the window is the last ten hashes, and escalation means that at some time a hash stood
-- three times in it.
use mathlib.Core.List.{foldl, append-nil, append_assoc}
use solvela_client.Base.{
  ℕ, zero, suc, ◌-◌, ◌%◌, ◌≤◌, true, List, [], ◌∷◌, ◌++◌, ◌≡◌, refl, ◌↔◌, ◌⊎◌, inl, inr, arith,
  length, drop, count, nat_eq, Bool-cases, length-append, length-drop,
}
use solvela_client.Base.Counting.{reaches_iff}
use solvela_client.Text.Digits.{u64_limit}
use solvela_client.Session.{SessionEntry, push_hash, record_entry}

-- The last ten hashes of a history.
unfoldable pub window : List ℕ → List ℕ
window history = drop (length history - 10) history

-- At some time a hash stood three times among the last ten. The history is read from its end.
unfoldable pub Struck : List ℕ → List ℕ → Type 0
Struck before [] = ⊥
Struck before (h ∷ later) =
    ((k : ℕ) × (3 ≤ count k (window (before ++ (h ∷ []))))) ⊎ Struck (before ++ (h ∷ [])) later

drop-append :
    (n : ℕ) (xs : List ℕ) (x : ℕ) → n ≤ length xs → drop n (xs ++ (x ∷ [])) ≡ drop n xs ++ (x ∷ [])
drop-append zero xs x h = refl
drop-append (suc n) [] x h = absurd (omega arith)
drop-append (suc n) (y ∷ xs) x h = drop-append n xs x (omega arith)

drop-drop_one : (n : ℕ) (xs : List ℕ) → drop 1 (drop n xs) ≡ drop (suc n) xs
drop-drop_one zero xs = refl
drop-drop_one (suc n) [] = refl
drop-drop_one (suc n) (x ∷ xs) = drop-drop_one n xs

-- Pushing a hash moves the window on.
pub push_hash-window :
    (history : List ℕ) (h : ℕ) → push_hash (window history) h ≡ window (history ++ (h ∷ []))
unfolding push_hash window
push_hash-window history h =
    let n = length history - 10 in
    ground (
      arith,
      length-drop n history,
      drop-drop_one n history,
      drop-append n history h,
      drop-append (suc n) history h,
      length-append history (h ∷ []),
    )

record_entry-escalated :
    (e : SessionEntry) (h : ℕ)
    → ((record_entry e h).escalated ≡ true)
      ↔ ((e.escalated ≡ true) ⊎ ((k : ℕ) × (3 ≤ count k (push_hash e.recent_hashes h))))
unfolding record_entry
record_entry-escalated e h =
    let (sound, complete) = reaches_iff 3 (push_hash e.recent_hashes h) (omega arith) in
    elim (Bool-cases e.escalated) [
      | inl old ↦ (λ _. inl old, λ _. ground arith)
      | inr new ↦ (
        λ now. inr (sound (ground arith)),
        λ why. elim why [ inl old ↦ ground arith | inr many ↦ ground (arith, complete many) ],
      )
    ]

-- What is known of an entry that started fresh and has seen a history.
pub record Tracks (history : List ℕ) (e : SessionEntry) : Type 0 where
  pub hashes : e.recent_hashes ≡ window history
  pub counted : e.request_count ≡ length history % u64_limit

record_entry-Tracks :
    (history : List ℕ) (e : SessionEntry) (h : ℕ)
    → Tracks history e
    → Tracks (history ++ (h ∷ [])) (record_entry e h)
unfolding record_entry
record_entry-Tracks history e h t = record {
  hashes = rw t.hashes (push_hash-window history h);
  counted = omega (arith, t.counted, length-append history (h ∷ []));
}

escalated_step :
    (history : List ℕ) (e : SessionEntry) (h : ℕ)
    → Tracks history e
    → ((record_entry e h).escalated ≡ true)
      ↔ ((e.escalated ≡ true) ⊎ ((k : ℕ) × (3 ≤ count k (window (history ++ (h ∷ []))))))
escalated_step history e h t =
    rw (← push_hash-window history h, ← t.hashes) (record_entry-escalated e h)

pub record_all-Tracks :
    (history later : List ℕ) (e : SessionEntry)
    → Tracks history e
    → Tracks (history ++ later) (foldl record_entry e later)
      × (((foldl record_entry e later).escalated ≡ true)
          ↔ ((e.escalated ≡ true) ⊎ Struck history later))
unfolding Struck
record_all-Tracks history [] e t = (
  rw append-nil t,
  (λ h. inl h, λ why. elim why [ inl h ↦ h | inr none_left ↦ absurd none_left ]),
)
record_all-Tracks history (h ∷ later) e t =
    let (tracks, (sound, complete)) =
      record_all-Tracks (history ++ (h ∷ [])) later (record_entry e h)
        (record_entry-Tracks history e h t) in
    let (now_sound, now_complete) = escalated_step history e h t in
    (
      rw append_assoc at tracks,
      (
        λ x. elim (sound x) [
          | inl y ↦ elim (now_sound y) [ inl old ↦ inl old | inr now ↦ inr (inl now) ]
          | inr after ↦ inr (inr after)
        ],
        λ why. elim why [
          | inl old ↦ complete (inl (now_complete (inl old)))
          | inr (inl now) ↦ complete (inl (now_complete (inr now)))
          | inr (inr after) ↦ complete (inr after)
        ],
      ),
    )
