-- ===== src/Cli/Wallets/Care.antt =====
-- With what care the wallet commands of crates/solvela-client-cli/src/commands/wallet.rs act: when the
-- private key is shown, and what is left behind by a command that fails.
use solvela_client.Base.{
  String, ◌<>◌, Bool, true, false, ◌∷◌, ◌≡◌, ◌≢◌, refl, ◌⊎◌, inl, inr, arith, string_eq, List, none,
  ap,
}
use solvela_client.Base.Outcome.{Outcome, done}
use solvela_client.Base.Exec.{pure, raise, bind-post, if-post}
use solvela_client.Wallet.{Wallet, to_keypair_b58}
use solvela_client.KeyFile.{WalletArgs, load_wallet}
use solvela_client.Platform.{Platform}
use solvela_client.Cli.{Host, Shell, typed, loaded}
use solvela_client.Cli.Wallets.{read_stdin_line, confirm_export, confirmed, export}

-- Standard output, the files and the world are as they were.
pub record IsUntouched (s t : Shell) : Type 0 where
  pub stdout : t.stdout ≡ s.stdout
  pub files : t.files ≡ s.files
  pub world : t.world ≡ s.world

module _ (p : Platform) (host : Host) where
  -- The user has agreed to see the key: by `--yes`, or by the answer to the question.
  abbrev pub Consent : Bool → Shell → Type 0
  Consent assume_yes s =
      (assume_yes ≡ true)
      ⊎ ((answer : String) × ((typed s.stdin).0 ≡ done answer)
          × (confirm_export p false answer ≡ true))

  read_stdin_line-Untouched :
      (prompt : String) (s : Shell)
      → IsUntouched s (read_stdin_line host prompt s).1
        × ((line : String)
            → (read_stdin_line host prompt s).0 ≡ done line
            → (typed s.stdin).0 ≡ done line)
  unfolding read_stdin_line
  read_stdin_line-Untouched prompt s = ground arith

  confirmed-Consent :
      (assume_yes : Bool) (s : Shell)
      → IsUntouched s (confirmed p host assume_yes s).1
        × ((confirmed p host assume_yes s).0 ≡ done tt → Consent assume_yes s)
  confirmed-Consent true s = (record { stdout = refl; files = refl; world = refl }, λ h. inl refl)
  confirmed-Consent false s =
      let (same, heard) = read_stdin_line-Untouched question s in
      bind-post Q (read_stdin_line host question) _ s
        (λ answer e.
          if-post Q (confirm_export p false answer) (pure tt) (raise "aborted") _
            (λ agreed. (same, λ h. inr (answer, heard answer e, agreed))) (λ _. (same, λ h. cc)))
        (λ _ _. (same, λ h. cc)) (λ _. (same, λ h. cc))
    where
      question : String
      question = "WARNING: This will print your private key. Continue? [y/N] "

      Q : Outcome String (Unit {0}) → Shell → Type 0
      Q o t = IsUntouched s t × (o ≡ done tt → Consent false s)

  -- With `--yes`, or when the prompt can be flushed and the answer is read: agreement goes through.
  confirmed-agreed :
      (assume_yes : Bool) (s : Shell)
      → ((written : List String) → host.refuse_flush written ≡ none)
      → Consent assume_yes s
      → (confirmed p host assume_yes s).0 ≡ done tt
  unfolding read_stdin_line
  confirmed-agreed true s flushes agreed = refl
  confirmed-agreed false s flushes (inl h) = absurd (cc h)
  confirmed-agreed false s flushes (inr (answer, heard, agreed)) = rw (flushes, heard, agreed) refl

  -- What an export has done: nothing visible, or it has shown the key with the user's consent.
  abbrev pub Exported : WalletArgs → Bool → Shell → Outcome String (Unit {0}) → Shell → Type 0
  Exported args assume_yes s o t =
      (IsUntouched s t × (o ≢ done tt))
      ⊎ ((w : Wallet) × (load_wallet p.crypto host.os s.files args ≡ done w)
          × Consent assume_yes s
          × (o ≡ done tt)
          × (t.stdout ≡ (to_keypair_b58 p.crypto w <> "\n") ∷ s.stdout)
          × (t.files ≡ s.files)
          × (t.world ≡ s.world))

  -- `wallet export` prints the private key, and nothing else, only if a wallet is loaded and the user
  -- has agreed, by `--yes` or by an answer that is "y" or "yes" but for letter case and the space
  -- around it; else it prints nothing and does not return. In both cases no file changes and nothing
  -- is sent or signed. If every flush succeeds, the agreement and the wallet are enough.
  pub export-Consent :
      (args : WalletArgs) (assume_yes : Bool) (s : Shell)
      → let after = export p host args assume_yes s in
        Exported args assume_yes s after.0 after.1
        × (((written : List String) → host.refuse_flush written ≡ none)
            → Consent assume_yes s
            → (w : Wallet) → load_wallet p.crypto host.os s.files args ≡ done w
            → after.0 ≡ done tt)
  unfolding export
  export-Consent args assume_yes s = (
    bind-post Q (loaded p host args) _ s
        (λ w found.
          let (same, agreed) = confirmed-Consent assume_yes s in
          bind-post Q (confirmed p host assume_yes) _ s
            (λ _ e. inr (
              w,
              found,
              agreed e,
              refl,
              ap (λ l. (to_keypair_b58 p.crypto w <> "\n") ∷ l) same.stdout,
              same.files,
              same.world,
            ))
            (λ _ _. inl (same, λ h. cc)) (λ _. inl (same, λ h. cc)))
        (λ _ _. inl (untouched, λ h. cc)) (λ _. inl (untouched, λ h. cc)),
    λ flushes agreed w found. rw (found, confirmed-agreed assume_yes s flushes agreed) refl,
  )
    where
      untouched : IsUntouched s s
      untouched = record { stdout = refl; files = refl; world = refl }

      Q : Outcome String (Unit {0}) → Shell → Type 0
      Q = Exported args assume_yes s
