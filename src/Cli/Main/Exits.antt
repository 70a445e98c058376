-- ===== src/Cli/Main/Exits.antt =====
-- How the program of crates/solvela-client-cli/src/main.rs ends.
use solvela_client.Base.{
  ℕ, String, ◌<>◌, Bool, false, not, ◌||◌, Option, List, [], ◌∷◌, ◌≡◌, refl, ◌∙◌, ◌⊎◌, inl, inr,
  arith, ap,
}
use solvela_client.Base.Outcome.{Outcome, done, fail, panic, try}
use solvela_client.Base.Exec.{lift}
use solvela_client.Text.{trim, is_empty}
use solvela_client.Wallet.{Wallet, address, to_keypair_bytes}
use solvela_client.KeyFile.{WalletArgs}
use solvela_client.Protocol.{ModelInfo}
use solvela_client.Platform.{Platform}
use solvela_client.Floats.{Floats}
use solvela_client.Cache.{LruCache}
use solvela_client.Client.Queries.{models}
use solvela_client.Client.Unpaid.{models-Unpaid, usdc_balance_of-Unpaid}
use solvela_client.Cli.{
  GatewayArgs, RpcArgs, WalletAction, Commands, Host, Shell, println, loaded, saved, on_world,
  explain,
}
use solvela_client.Cli.Wallets.{
  read_stdin_line, do_create, create, do_import_mnemonic, do_import_keypair, import_mnemonic,
  import_keypair, import_text, report_import, read_mnemonic, read_keypair, do_address, show_address,
  confirmed, export, balance, confirm_export,
}
use solvela_client.Cli.Wallets
use solvela_client.Cli.Models
use solvela_client.Cli.Models.{
  print_rows, print_table, rule_line, header_line, show_models, throwaway, models_client,
}
use solvela_client.Cli.Main.{Cli, dispatch, main, exit}
use solvela_client.Cli.Main.Quiet.{
  Silent, Careful, Silent-bind, Careful-bind, Careful-if, Silent-if,
}
use solvela_client.Client.Funds.{usdc_balance}

module _ (p : Platform) (host : Host) where
  read_stdin_line-Silent : (prompt : String) → Silent (read_stdin_line host prompt)
  unfolding read_stdin_line
  read_stdin_line-Silent prompt s = ground arith

  create-Careful : (args : WalletArgs) (force : Bool) → Careful (create p host args force)
  unfolding create do_create
  create-Careful args force =
      Careful-bind (do_create p host args.wallet_file force) _
        (Silent-bind (lift _) _ (λ s. (refl, refl))
          (λ (wallet, mnemonic).
            Silent-bind (saved host args.wallet_file (to_keypair_bytes wallet) force) _
              (λ s. (refl, refl)) (λ path s. (refl, refl))))
        (λ (wallet, mnemonic, path) s. (refl, inr refl))

  import_text-Silent :
      (empty : String) (read : String → Outcome String Wallet) (text path : String) (force : Bool)
      → Silent (import_text p host empty read text path force)
  import_text-Silent empty read text path force =
      Silent-if (is_empty (trim text)) _ _ (λ s. (refl, refl))
        (Silent-bind (lift (read (trim text))) _ (λ s. (refl, refl))
          (λ wallet.
            Silent-bind (saved host path (to_keypair_bytes wallet) force) _ (λ s. (refl, refl))
              (λ path' s. (refl, refl))))

  import_mnemonic-Careful :
      (args : WalletArgs) (force : Bool) → Careful (import_mnemonic p host args force)
  unfolding import_mnemonic do_import_mnemonic
  import_mnemonic-Careful args force =
      Careful-bind (read_stdin_line host "Enter seed phrase: ") _ (read_stdin_line-Silent _)
        (λ phrase.
          Careful-bind (do_import_mnemonic p host phrase args.wallet_file force) _
            (import_text-Silent "empty seed phrase" (read_mnemonic p host) phrase args.wallet_file
              force)
            (λ (address, path) s. (refl, inr refl)))

  import_keypair-Careful :
      (args : WalletArgs) (force : Bool) → Careful (import_keypair p host args force)
  unfolding import_keypair do_import_keypair
  import_keypair-Careful args force =
      Careful-bind (read_stdin_line host "Enter base58 keypair: ") _ (read_stdin_line-Silent _)
        (λ b58.
          Careful-bind (do_import_keypair p host b58 args.wallet_file force) _
            (import_text-Silent "empty keypair input" (read_keypair p host) b58 args.wallet_file
              force)
            (λ (address, path) s. (refl, inr refl)))

  show_address-Careful : (args : WalletArgs) → Careful (show_address p host args)
  unfolding show_address do_address
  show_address-Careful args =
      Careful-bind (do_address p host args) _
        (Silent-bind (loaded p host args) _ (λ s. (refl, refl)) (λ wallet s. (refl, refl)))
        (λ address s. (refl, inr refl))

  confirmed-Silent : (assume_yes : Bool) → Silent (confirmed p host assume_yes)
  confirmed-Silent assume_yes =
      Silent-if assume_yes _ _ (λ s. (refl, refl))
        (Silent-bind (read_stdin_line host _) _ (read_stdin_line-Silent _) (λ answer.
          Silent-if (confirm_export p false answer) _ _ (λ s. (refl, refl)) (λ s. (refl, refl))))

  export-Careful : (args : WalletArgs) (assume_yes : Bool) → Careful (export p host args assume_yes)
  unfolding export
  export-Careful args assume_yes =
      Careful-bind (loaded p host args) _ (λ s. (refl, refl))
        (λ wallet.
          Careful-bind (confirmed p host assume_yes) _ (confirmed-Silent assume_yes)
            (λ asked s. (refl, inr refl)))

module _ (F : Floats) (L : LruCache) (p : Platform) (host : Host) where
  balance-Careful :
      (args : WalletArgs) (gateway : GatewayArgs) (rpc : RpcArgs)
      → Careful (balance p host F L args gateway rpc)
  unfolding balance usdc_balance
  balance-Careful args gateway rpc =
      Careful-bind (loaded p host args) _ (λ s. (refl, refl))
        (λ wallet.
          Careful-bind (lift _) _ (λ s. (refl, refl))
            (λ client.
              Careful-bind (on_world _ (usdc_balance F p client.config client.wallet)) _
                (λ s. (refl, (usdc_balance_of-Unpaid F p client.config _ s.world).signed))
                (λ amount s. (refl, inr refl))))

  wallet-Careful :
      (action : WalletAction) (args : WalletArgs) (gateway : GatewayArgs) (rpc : RpcArgs)
      → Careful (Wallets.run p host F L action args gateway rpc)
  unfolding Wallets.run
  wallet-Careful (WalletAction.create force) args gateway rpc = create-Careful p host args force
  wallet-Careful (WalletAction.import mnemonic keypair force) args gateway rpc =
      Careful-if mnemonic _ _ (import_mnemonic-Careful p host args force)
        (Careful-if keypair _ _ (import_keypair-Careful p host args force) (λ s. (refl, inl refl)))
  wallet-Careful WalletAction.balance args gateway rpc = balance-Careful args gateway rpc
  wallet-Careful WalletAction.address args gateway rpc = show_address-Careful p host args
  wallet-Careful (WalletAction.export assume_yes) args gateway rpc =
      export-Careful p host args assume_yes

  print_rows-done :
      (listed : List ModelInfo) (s : Shell)
      → ((print_rows host listed s).0 ≡ done tt) × ((print_rows host listed s).1.world ≡ s.world)
  unfolding print_rows
  print_rows-done [] s = (refl, refl)
  print_rows-done (m ∷ rest) s = print_rows-done rest _

  print_table-Careful : (listed : List ModelInfo) → Careful (print_table host listed)
  unfolding print_table
  print_table-Careful listed s =
      let (returned, same) =
        print_rows-done listed
          (record s { stdout = (rule_line <> "\n") ∷ (header_line <> "\n") ∷ s.stdout }) in
      rw (returned) (ap (λ w. w.signed) same, inr refl)

  show_models-Careful :
      (json : Bool) (chosen : List ModelInfo) → Careful (show_models host json chosen)
  unfolding show_models
  show_models-Careful json chosen =
      Careful-if (json || not host.stdout_is_terminal) _ _
        (Careful-bind
          (lift (try (λ e. "failed to serialize models: " <> e) (host.models_json chosen))) println
          (λ s. (refl, refl)) (λ output s. (refl, inr refl)))
        (print_table-Careful chosen)

  models-Careful :
      (provider : Option String) (json : Bool) (gateway : GatewayArgs)
      → Careful (Models.run L p host provider json gateway)
  unfolding Models.run
  models-Careful provider json gateway =
      Careful-bind (lift (throwaway L p host)) _ (λ s. (refl, refl))
        (λ (wallet, mnemonic).
          Careful-bind (lift (models_client L p host gateway wallet)) _ (λ s. (refl, refl))
            (λ client.
              Careful-bind
                (on_world (explain host "failed to fetch models: ") (models p client.config)) _
                (λ s. (refl, (models-Unpaid p client.config s.world).signed))
                (λ listed. show_models-Careful json _)))

  -- The commands that print only once they have succeeded.
  abbrev pub IsReport : Commands → Type 0
  IsReport (Commands.wallet action) = Unit
  IsReport (Commands.chat prompt model no_stream max_payment) = ⊥
  IsReport (Commands.models provider json) = Unit
  IsReport Commands.doctor = ⊥

  dispatch-Careful :
      (command : Commands) (args : WalletArgs) (gateway : GatewayArgs) (rpc : RpcArgs)
      → IsReport command
      → Careful (dispatch F L p host command args gateway rpc)
  unfolding dispatch
  dispatch-Careful (Commands.wallet action) args gateway rpc _ =
      wallet-Careful action args gateway rpc
  dispatch-Careful (Commands.chat prompt model no_stream max_payment) args gateway rpc h = absurd h
  dispatch-Careful (Commands.models provider json) args gateway rpc _ =
      models-Careful provider json gateway
  dispatch-Careful Commands.doctor args gateway rpc h = absurd h

  -- How a run has ended, from the shell `s`, by the outcome of its command: the command returned; it
  -- failed, and its error is the last text on the error output; or it panicked.
  abbrev pub Ended : Shell → Outcome String (Unit {0}) → ℕ × Shell → Type 0
  Ended s (done _) r = r.0 ≡ 0
  Ended s (fail e) r =
      (r.0 ≡ 1)
      × (r.1.stdout ≡ s.stdout)
      × ((rest : List String) × (r.1.stderr ≡ (("error: " <> e) <> "\n") ∷ rest))
  Ended s panic r = (r.0 ≡ 101) × (r.1.stdout ≡ s.stdout)

  exit-Ended :
      (s : Shell) (o : Outcome String (Unit {0})) (t : Shell)
      → (t.stdout ≡ s.stdout) ⊎ (o ≡ done tt)
      → ((exit (o, t)).1.world ≡ t.world) × Ended s o (exit (o, t))
  exit-Ended s (done _) t h = (refl, refl)
  exit-Ended s (fail e) t (inl same) = (refl, (refl, same, (t.stderr, refl)))
  exit-Ended s (fail e) t (inr h) = absurd (cc h)
  exit-Ended s panic t (inl same) = (refl, (refl, same))
  exit-Ended s panic t (inr h) = absurd (cc h)

  -- A wallet or models command signs nothing. If the command returns, the exit status is 0; if it
  -- fails, the status is 1 and the last text on the error output is its error; if it panics, the
  -- status is 101. Where it does not return, nothing has been printed on standard output.
  pub main-Ended :
      (cli : Cli) (s : Shell)
      → IsReport cli.command
      → let after = main F L p host cli s in
        let ran = dispatch F L p host cli.command cli.wallet cli.gateway cli.rpc s in
        (after.1.world.signed ≡ s.world.signed) × Ended s ran.0 after
  unfolding main
  main-Ended cli s report =
      let (signed, printed) =
        dispatch-Careful cli.command cli.wallet cli.gateway cli.rpc report s in
      let ran = dispatch F L p host cli.command cli.wallet cli.gateway cli.rpc s in
      let (same, ended) = exit-Ended s ran.0 ran.1 printed in
      (ap (λ w. w.signed) same ∙ signed, ended)
