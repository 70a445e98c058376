-- ===== src/Cli/Doctor/Effects.antt =====
-- What the checks of crates/solvela-client-cli/src/commands/doctor.rs may do to the shell, and what
-- they print.
use solvela_client.Base.{
  if◌then◌else◌, ℕ, ◌+◌, ◌≤◌, String, Bool, true, false, Option, none, some, ◌≡◌, refl, arith,
  nat_eq, string_eq, ◌∙◌,
}
use solvela_client.Base.Outcome.{Outcome, done, fail, panic}
use solvela_client.Base.Exec.{◌>>=◌, continue}
use solvela_client.Cli.{Shell, Command, println}
use solvela_client.Cli.Doctor.{with_http, report, call}
use solvela_client.Net.{requests, exchange, HttpRequest, HttpResponse}
use solvela_client.Handshake.Requests.{exchange-requests}
use solvela_client.Error.{NetError}
use solvela_client.Platform.{Platform}
use solvela_client.Base.Outcome.{done-injective, Result}
use mathlib.Core.List.{append_assoc}
use solvela_client.Base.{List, [], ◌∷◌, ◌++◌, sym, ap, ◌∙◌, ◌*◌, ◌<>◌}

-- A command has signed nothing and changed no file, has called `send()` at most `calls` times, and has
-- returned after printing lines, the last first, of which `V` holds.
pub record IsChecked {A : Type 0} (V : Shell → A → List String → Type 0) (calls : ℕ) (s : Shell)
    (o : Outcome String A) (t : Shell) : Type 0 where
  pub signed : t.world.signed ≡ s.world.signed
  pub files : t.files ≡ s.files
  pub sent : requests t.world ≤ requests s.world + 11 * calls
  pub quiet : calls ≡ 0 → t.world ≡ s.world
  pub returned :
      (a : A) × (lines : List String) × (o ≡ done a) × (t.stdout ≡ lines ++ s.stdout) × V s a lines

abbrev pub Checks : {A : Type 0} → (Shell → A → List String → Type 0) → ℕ → Command A → Type 0
Checks V calls m = (s : Shell) → IsChecked V calls s (m s).0 (m s).1

-- One line, of which `W` holds.
abbrev pub Prints : {A : Type 0} → (Shell → A → String → Type 0) → Shell → A → List String → Type 0
Prints W s a lines = (line : String) × (lines ≡ (line <> "\n") ∷ []) × W s a line

module _ {A B : Type 0} where
  -- What one check prints, and after it, from a shell `u`, the rest.
  abbrev pub Then :
      ℕ
      → (Shell → A → List String → Type 0)
      → (A → Shell → B → List String → Type 0)
      → Shell
      → B
      → List String
      → Type 0
  Then calls V W s b lines =
      (a : A) × (u : Shell) × (first : List String) × (rest : List String) × (lines ≡ rest ++ first)
      × (calls ≡ 0 → u.world ≡ s.world)
      × V s a first
      × W a u b rest

  pub Checks-bind :
      (k l : ℕ) (V : Shell → A → List String → Type 0) (W : A → Shell → B → List String → Type 0)
      (m : Command A) (f : A → Command B)
      → Checks V k m
      → ((a : A) → Checks (W a) l (f a))
      → Checks (Then k V W) (k + l) (m >>= f)
  Checks-bind k l V W m f first rest s = go (m s).0 (m s).1 (first s)
    where
      go :
          (o : Outcome String A) (t : Shell)
          → IsChecked V k s o t
          → IsChecked (Then k V W) (k + l) s (continue o f t).0 (continue o f t).1
      go (done a) t here =
          let later = rest a t in
          let (b, after, e, n, w) = later.returned in
          let (a', before, e', n', v) = here.returned in
          let same : a' ≡ a = done-injective a' a (sym e') in
          record {
            signed = later.signed ∙ here.signed;
            files = later.files ∙ here.files;
            sent = let x = later.sent in let y = here.sent in omega (arith, x, y);
            quiet = λ no_call.
                later.quiet (omega (arith, no_call)) ∙ here.quiet (omega (arith, no_call));
            returned = (
              b,
              after ++ before,
              e,
              n ∙ ap (λ x. after ++ x) n' ∙ sym (append_assoc after before s.stdout),
              (a, t, before, after, refl, here.quiet, rw same at v, w),
            );
          }
      go (fail e) t here = let (a, ls, e', n, v) = here.returned in absurd (cc e')
      go panic t here = let (a, ls, e', n, v) = here.returned in absurd (cc e')

module _ {A : Type 0} where
  pub report-IsChecked :
      (W : Shell → A → String → Type 0) (line : String) (a : A) (s : Shell)
      → W s a line
      → IsChecked (Prints W) 0 s (report line a s).0 (report line a s).1
  report-IsChecked W line a s holds = record {
    signed = refl;
    files = refl;
    sent = omega arith;
    quiet = λ no_call. refl;
    returned = (a, (line <> "\n") ∷ [], refl, refl, (line, refl, holds));
  }

  pub report-Checks :
      (W : Shell → A → String → Type 0) (line : String) (a : A)
      → ((s : Shell) → W s a line)
      → Checks (Prints W) 0 (report line a)
  report-Checks W line a holds s = report-IsChecked W line a s (holds s)

  pub if-Checks :
      (V : Shell → A → List String → Type 0) (calls : ℕ) (b : Bool) (m n : Command A)
      → (b ≡ true → Checks V calls m)
      → (b ≡ false → Checks V calls n)
      → Checks V calls (if b then m else n)
  if-Checks V calls true m n h k = h refl
  if-Checks V calls false m n h k = k refl

  -- Fewer calls are allowed, and more may be known of the lines.
  pub more-Checks :
      (V W : Shell → A → List String → Type 0) (calls more : ℕ) (m : Command A)
      → calls ≤ more
      → ((s : Shell) (a : A) (lines : List String) → V s a lines → W s a lines)
      → Checks V calls m
      → Checks W more m
  more-Checks V W calls more m le known h s =
      let here = h s in
      let (a, lines, e, n, v) = here.returned in
      record {
        signed = here.signed;
        files = here.files;
        sent = let y = here.sent in omega (arith, y, le);
        quiet = λ no_call. here.quiet (omega (arith, no_call, le));
        returned = (a, lines, e, n, known s a lines v);
      }

pub println-Checks :
    (W : Shell → Unit {0} → String → Type 0) (line : String)
    → ((s : Shell) → W s tt line)
    → Checks (Prints W) 0 (println line)
println-Checks W line holds s = record {
  signed = refl;
  files = refl;
  sent = omega arith;
  quiet = λ no_call. refl;
  returned = (tt, (line <> "\n") ∷ [], refl, refl, (line, refl, holds s));
}

pub with_http-Checks :
    (built : Option String) (V : Shell → Unit {0} → List String → Type 0) (calls : ℕ)
    (m : Command (Unit {0}))
    → built ≡ none
    → Checks V calls m
    → Checks V calls (with_http built m)
with_http-Checks none V calls m h checks = checks
with_http-Checks (some e) V calls m h checks = absurd (cc h)

module _ (p : Platform) where
  -- The answer to a request that is sent from a shell.
  abbrev pub reply : HttpRequest → Shell → Result NetError HttpResponse
  reply request s = (p.net (request ∷ s.world.sent)).reply

  -- One call, whose answer decides on the line.
  pub call-Checks :
      {A : Type 0} (W : Result NetError HttpResponse → A → String → Type 0) (request : HttpRequest)
      (f : Result NetError HttpResponse → Command A)
      → ((r : Result NetError HttpResponse) → Checks (Prints (λ s a line. W r a line)) 0 (f r))
      → Checks (Prints (λ s a line. W (reply request s) a line)) 1 (call p request >>= f)
  unfolding exchange
  call-Checks W request f prints s =
      let r = exchange p.net request s.world in
      let later = prints r.0 (record s { world = r.1 }) in
      record {
        signed = later.signed;
        files = later.files;
        sent =
            let x = later.sent in
            let y = exchange-requests p.net request s.world in omega (arith, x, y);
        quiet = λ no_call. absurd (cc no_call);
        returned = later.returned;
      }
