-- ===== src/Cli/Wallets.antt =====
-- crates/solvela-client-cli/src/commands/wallet.rs.
pub mod Laws
pub mod Care
use solvela_client.Base.{String, ◌<>◌, Bool, true, false, ◌||◌, ◌==◌, string_eq, if◌then◌else◌}
use solvela_client.Base.Outcome.{Outcome, done, fail, panic, map_fail}
use solvela_client.Base.Exec.{Exec, pure, raise, lift, ◌>>=◌}
use solvela_client.Text.{trim, is_empty}
use solvela_client.Error.{WalletError, display_wallet_error}
use solvela_client.Wallet.{
  Bytes, Wallet, address, from_mnemonic, from_keypair_b58, to_keypair_bytes, to_keypair_b58,
}
use solvela_client.Wallet
use solvela_client.KeyFile.{WalletArgs}
use solvela_client.Platform.{Platform}
use solvela_client.Floats.{Floats}
use solvela_client.Cache.{LruCache}
use solvela_client.Client.{SolvelaClient}
use solvela_client.Client
use solvela_client.Client.Funds.{usdc_balance}
use solvela_client.Cli.{
  GatewayArgs, RpcArgs, WalletAction, Host, Shell, Command, println, eprint, flush_stderr,
  read_line, loaded, saved, on_world, explain, config_for,
}

unfoldable pub read_stdin_line : Host → String → Command String
read_stdin_line host prompt = do prompted ← eprint prompt; flushed ← flush_stderr host; read_line

unfoldable pub confirm_export : Platform → Bool → String → Bool
confirm_export p assume_yes answer =
    let given = p.unicode.to_lowercase (trim answer) in
    if assume_yes then true else given == "y" || given == "yes"

module _ (p : Platform) (host : Host) where
  unfoldable pub do_create : String → Bool → Command (Wallet × String × String)
  do_create wallet_file force = do
    (wallet, mnemonic) ← lift (map_fail display_wallet_error (Wallet.create p.crypto host.entropy))
    path ← saved host wallet_file (to_keypair_bytes wallet) force
    pure (wallet, mnemonic, path)

  unfoldable pub create : WalletArgs → Bool → Command (Unit {0})
  create wallet_args force = do
    (wallet, mnemonic, path) ← do_create wallet_args.wallet_file force
    l1 ← println "==="
    l2 ← println (address p.crypto wallet)
    l3 ← println "==="
    l4 ← println ""
    l5 ← println ("Wallet saved to: " <> path)
    l6 ← println ""
    l7 ← println "=== BACKUP YOUR SEED PHRASE ==="
    l8 ← println mnemonic
    println "=== END SEED PHRASE ==="

  -- The trimmed text that was typed, if it is not empty, is read as a wallet, which is saved.
  abbrev pub import_text :
      String → (String → Outcome String Wallet) → String → String → Bool → Command (String × String)
  import_text empty read text wallet_file force = if is_empty (trim text) then raise empty else (do
    wallet ← lift (read (trim text))
    path ← saved host wallet_file (to_keypair_bytes wallet) force
    pure (address p.crypto wallet, path))

  abbrev pub read_mnemonic : String → Outcome String Wallet
  read_mnemonic phrase =
      map_fail (λ e. "invalid mnemonic: " <> display_wallet_error e) (from_mnemonic p.crypto phrase)

  abbrev pub read_keypair : String → Outcome String Wallet
  read_keypair b58 =
      map_fail (λ e. "invalid keypair: " <> display_wallet_error e) (from_keypair_b58 p.crypto b58)

  unfoldable pub do_import_mnemonic : String → String → Bool → Command (String × String)
  do_import_mnemonic = import_text "empty seed phrase" read_mnemonic

  unfoldable pub do_import_keypair : String → String → Bool → Command (String × String)
  do_import_keypair = import_text "empty keypair input" read_keypair

  abbrev pub report_import : String × String → Command (Unit {0})
  report_import (address, path) = do
    l1 ← println ("Imported address: " <> address)
    println ("Wallet saved to: " <> path)

  unfoldable pub import_mnemonic : WalletArgs → Bool → Command (Unit {0})
  import_mnemonic wallet_args force = do
    phrase ← read_stdin_line host "Enter seed phrase: "
    imported ← do_import_mnemonic phrase wallet_args.wallet_file force
    report_import imported

  unfoldable pub import_keypair : WalletArgs → Bool → Command (Unit {0})
  import_keypair wallet_args force = do
    b58 ← read_stdin_line host "Enter base58 keypair: "
    imported ← do_import_keypair b58 wallet_args.wallet_file force
    report_import imported

  unfoldable pub do_address : WalletArgs → Command String
  do_address wallet_args = do wallet ← loaded p host wallet_args; pure (address p.crypto wallet)

  unfoldable pub show_address : WalletArgs → Command (Unit {0})
  show_address wallet_args = do address ← do_address wallet_args; println address

  -- The question that is asked without `--yes`.
  abbrev pub confirmed : Bool → Command (Unit {0})
  confirmed assume_yes = if assume_yes then pure tt else (do
    answer ← read_stdin_line host "WARNING: This will print your private key. Continue? [y/N] "
    if confirm_export p false answer then pure tt else raise "aborted")

  unfoldable pub export : WalletArgs → Bool → Command (Unit {0})
  export wallet_args assume_yes = do
    wallet ← loaded p host wallet_args
    asked ← confirmed assume_yes
    println (to_keypair_b58 p.crypto wallet)

  module _ (F : Floats) (L : LruCache) where
    unfoldable pub balance : WalletArgs → GatewayArgs → RpcArgs → Command (Unit {0})
    balance wallet_args gateway_args rpc_args = do
      wallet ← loaded p host wallet_args
      client ← lift (
          map_fail (explain host "failed to create client: ") (
            Client.new L host.http_built wallet (config_for gateway_args.gateway rpc_args.rpc_url)))
      balance ←
          on_world (explain host "failed to fetch balance: ")
            (usdc_balance F p client.config client.wallet)
      println (F.fixed6 balance <> " USDC")

    unfoldable pub run : WalletAction → WalletArgs → GatewayArgs → RpcArgs → Command (Unit {0})
    run (WalletAction.create force) wallet_args gateway_args rpc_args = create wallet_args force
    run (WalletAction.import mnemonic keypair force) wallet_args gateway_args rpc_args =
        if mnemonic
        then import_mnemonic wallet_args force
        else if keypair
        then import_keypair wallet_args force
        else raise "specify --mnemonic or --keypair"
    run WalletAction.balance wallet_args gateway_args rpc_args =
        balance wallet_args gateway_args rpc_args
    run WalletAction.address wallet_args gateway_args rpc_args = show_address wallet_args
    run (WalletAction.export assume_yes) wallet_args gateway_args rpc_args =
        export wallet_args assume_yes
