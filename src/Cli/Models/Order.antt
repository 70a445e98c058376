-- ===== src/Cli/Models/Order.antt =====
-- The list of models that crates/solvela-client-cli/src/commands/models.rs shows.
use solvela_client.Base.{
  refl, ◌∙◌, ◌&&◌, arith, inl, inr, Bool-cases, none, some, [], ◌∷◌, String, Bool, true, Option,
  List, ◌≡◌, ◌==◌, string_eq, keep, eq_of_==,
}
use solvela_client.Base.Sorting.{IsSorted, sort_by-IsSorted, keep-sort_by}
use solvela_client.Text.Columns.{le_text, le_text_refl, le_text_total, le_text_trans}
use solvela_client.Protocol.{ModelInfo}
use solvela_client.Cli.Models.{retain_provider, apply_filter_and_sort}

abbrev pub by_id : ModelInfo → ModelInfo → Bool
by_id a b = le_text a.id b.id

-- Whether a model is one that was asked for: its provider, in lower case, is the one given in lower
-- case, or none was given.
abbrev pub is_asked : (String → String) → Option String → ModelInfo → Bool
is_asked to_lowercase none m = true
is_asked to_lowercase (some provider) m = to_lowercase m.provider == to_lowercase provider

keep-keep :
    {A : Type 0} (f g : A → Bool) (xs : List A) → keep f (keep g xs) ≡ keep (λ x. f x && g x) xs
keep-keep f g [] = refl
keep-keep f g (x ∷ xs) = elim (Bool-cases (g x)) [
  | inl kept ↦ elim (Bool-cases (f x)) [
    | inl both ↦ rw (kept, both, keep-keep f g xs) refl
    | inr one ↦ rw (kept, one, keep-keep f g xs) refl
  ]
  | inr dropped ↦ elim (Bool-cases (f x)) [
    | inl one ↦ rw (dropped, one, keep-keep f g xs) refl
    | inr neither ↦ rw (dropped, neither, keep-keep f g xs) refl
  ]
]

keep_same :
    {A : Type 0} (f g : A → Bool) (xs : List A) → ((x : A) → f x ≡ g x) → keep f xs ≡ keep g xs
keep_same f g [] same = refl
keep_same f g (x ∷ xs) same = rw (same x, keep_same f g xs same) refl

retained :
    (to_lowercase : String → String) (provider : Option String) (models : List ModelInfo)
    (id : String)
    → keep (λ m. m.id == id) (retain_provider to_lowercase provider models)
      ≡ keep (λ m. m.id == id && is_asked to_lowercase provider m) models
unfolding retain_provider
retained to_lowercase none models id = keep_same (λ m. m.id == id) _ models (λ m. ground arith)
retained to_lowercase (some provider) models id =
    keep-keep (λ m. m.id == id) (λ m. to_lowercase m.provider == to_lowercase provider) models

-- The models are shown in the order of their ids. For each id, they are the listed models with this
-- id whose provider in lower case is the one that was asked for, or all of them if none was, in the
-- order in which the gateway lists them; so none is lost and none is shown twice.
pub apply_filter_and_sort_lem :
    (to_lowercase : String → String) (models : List ModelInfo) (provider : Option String)
    → let shown = apply_filter_and_sort to_lowercase models provider in
      IsSorted by_id shown
      × ((id : String)
          → keep (λ m. m.id == id) shown
            ≡ keep (λ m. m.id == id && is_asked to_lowercase provider m) models)
unfolding apply_filter_and_sort
apply_filter_and_sort_lem to_lowercase models provider = (
  sort_by-IsSorted by_id (λ a b. le_text_total a.id b.id) (λ a b c. le_text_trans a.id b.id c.id)
      (retain_provider to_lowercase provider models),
  λ id.
      keep-sort_by by_id (λ m. m.id == id) (same_id id)
        (retain_provider to_lowercase provider models)
      ∙ retained to_lowercase provider models id,
)
  where
    same_id :
        (id : String) (a b : ModelInfo)
        → (a.id == id) ≡ true
        → (b.id == id) ≡ true
        → by_id a b ≡ true
    same_id id a b h k = rw (eq_of_== a.id id h, eq_of_== b.id id k) (le_text_refl id)
