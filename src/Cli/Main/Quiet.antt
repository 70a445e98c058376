-- ===== src/Cli/Main/Quiet.antt =====
-- The commands of crates/solvela-client-cli/src/commands/ that print only once they have succeeded.
use solvela_client.Base.{String, Bool, true, false, ◌≡◌, refl, ◌∙◌, ◌⊎◌, inl, inr, if◌then◌else◌}
use solvela_client.Base.Outcome.{done}
use solvela_client.Base.Exec.{Exec, ◌>>=◌, bind-post}
use solvela_client.Error.{ClientError}
use solvela_client.Net.{World}
use solvela_client.Client.Unpaid.{Unpaid}
use solvela_client.Cli.{Shell, Command, on_world}

-- A command that prints nothing on standard output and signs nothing.
abbrev pub Silent : {A : Type 0} → Command A → Type 0
Silent m = (s : Shell) → ((m s).1.stdout ≡ s.stdout) × ((m s).1.world.signed ≡ s.world.signed)

-- A command that signs nothing, and prints nothing on standard output unless it returns.
abbrev pub Careful : Command (Unit {0}) → Type 0
Careful m =
    (s : Shell)
    → ((m s).1.world.signed ≡ s.world.signed) × (((m s).1.stdout ≡ s.stdout) ⊎ ((m s).0 ≡ done tt))

module _ {A B : Type 0} where
  pub Silent-bind :
      (m : Command A) (f : A → Command B) → Silent m → ((a : A) → Silent (f a)) → Silent (m >>= f)
  Silent-bind m f h k s =
      let (printed, signed) = h s in
      bind-post (λ _ (t : Shell). (t.stdout ≡ s.stdout) × (t.world.signed ≡ s.world.signed)) m f s
        (λ a _. let (printed', signed') = k a (m s).1 in (printed' ∙ printed, signed' ∙ signed))
        (λ _ _. (printed, signed)) (λ _. (printed, signed))

module _ {A : Type 0} where
  pub Careful-bind :
      (m : Command A) (f : A → Command (Unit {0}))
      → Silent m
      → ((a : A) → Careful (f a))
      → Careful (m >>= f)
  Careful-bind m f h k s =
      let (printed, signed) = h s in
      bind-post
        (λ o (t : Shell).
          (t.world.signed ≡ s.world.signed) × ((t.stdout ≡ s.stdout) ⊎ (o ≡ done tt)))
        m f s
        (λ a _.
          let (signed', after) = k a (m s).1 in
          (signed' ∙ signed, elim after [ inl same ↦ inl (same ∙ printed) | inr e ↦ inr e ]))
        (λ _ _. (signed, inl printed)) (λ _. (signed, inl printed))

pub Careful-Silent : (m : Command (Unit {0})) → Silent m → Careful m
Careful-Silent m h s = let (printed, signed) = h s in (signed, inl printed)

pub Careful-if :
    (b : Bool) (m n : Command (Unit {0})) → Careful m → Careful n → Careful (if b then m else n)
Careful-if true m n h k = h
Careful-if false m n h k = k

pub Silent-if :
    {A : Type 0} (b : Bool) (m n : Command A) → Silent m → Silent n → Silent (if b then m else n)
Silent-if true m n h k = h
Silent-if false m n h k = k

pub on_world-Silent :
    {A : Type 0} (what : ClientError → String) (m : Exec World ClientError A)
    → ((w : World) → Unpaid w (m w).1)
    → Silent (on_world what m)
on_world-Silent what m quiet s = (refl, (quiet s.world).signed)
