-- ===== src/Cli/Main.antt =====
-- crates/solvela-client-cli/src/main.rs. `--verbose` only sets what is logged.
pub mod Quiet
pub mod Exits
use solvela_client.Base.{ℕ, String, ◌<>◌}
use solvela_client.Base.Outcome.{Outcome, done, fail, panic}
use solvela_client.KeyFile.{WalletArgs}
use solvela_client.Platform.{Platform}
use solvela_client.Floats.{Floats}
use solvela_client.Cache.{LruCache}
use solvela_client.Cli.{GatewayArgs, RpcArgs, Commands, Host, Shell, Command, eprintln}
use solvela_client.Cli.Wallets
use solvela_client.Cli.Models
use solvela_client.Cli.Doctor
use solvela_client.Cli.Chats

pub record Cli : Type 0 where
  pub gateway : GatewayArgs
  pub rpc : RpcArgs
  pub wallet : WalletArgs
  pub command : Commands

-- The exit status: that of a panic is the language's.
abbrev pub exit : Outcome String (Unit {0}) × Shell → ℕ × Shell
exit (done _, s) = (0, s)
exit (fail e, s) = (1, (eprintln ("error: " <> e) s).1)
exit (panic, s) = (101, s)

module _ (F : Floats) (L : LruCache) (p : Platform) (host : Host) where
  unfoldable pub dispatch : Commands → WalletArgs → GatewayArgs → RpcArgs → Command (Unit {0})
  dispatch (Commands.wallet action) wallet gateway rpc =
      Wallets.run p host F L action wallet gateway rpc
  dispatch (Commands.chat prompt model no_stream max_payment) wallet gateway rpc =
      Chats.run L p host prompt model no_stream max_payment wallet gateway rpc
  dispatch (Commands.models provider json) wallet gateway rpc =
      Models.run L p host provider json gateway
  dispatch Commands.doctor wallet gateway rpc = Doctor.run F L p host wallet gateway rpc

  unfoldable pub main : Cli → Shell → ℕ × Shell
  unfolding dispatch
  main cli s = exit (dispatch cli.command cli.wallet cli.gateway cli.rpc s)
