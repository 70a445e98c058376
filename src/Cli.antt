-- ===== src/Cli.antt =====
-- crates/solvela-client-cli/src/main.rs and commands/: the command line. A command acts on a shell:
-- the files, what is typed, what has been written, and the world. Writing to the two outputs
-- succeeds; what a flush, a read or a serializer refuses is the parameter `Host`.
pub mod Wallets
pub mod Models
pub mod Doctor
pub mod Chats
pub mod Main
use solvela_client.Base.{ℕ, String, ◌<>◌, Bool, Option, none, some, List, [], ◌∷◌}
use solvela_client.Base.Outcome.{Result, ok, err, Outcome, done, fail, panic, map_fail}
use solvela_client.Base.Exec.{Exec}
use solvela_client.Protocol.{ChatResponse, Json, ModelInfo}
use solvela_client.Error.{ClientError, display_client_error}
use solvela_client.Config.{ClientConfig, Setting, configure}
use solvela_client.Wallet.{Bytes, Wallet}
use solvela_client.KeyFile.{WalletArgs, Files, Os, load_wallet, save_wallet}
use solvela_client.Net.{World}
use solvela_client.Platform.{Platform}

pub record GatewayArgs : Type 0 where
  pub gateway : String

pub record RpcArgs : Type 0 where
  pub rpc_url : String

pub data WalletAction : Type 0 where
  create : Bool → WalletAction
  import : Bool → Bool → Bool → WalletAction
  balance : WalletAction
  address : WalletAction
  export : Bool → WalletAction

pub data Commands : Type 0 where
  wallet : WalletAction → Commands
  chat : String → String → Bool → Option ℕ → Commands
  models : Option String → Bool → Commands
  doctor : Commands

-- A JSON-RPC answer: `result` where it is a number, whether it has an `error`, and its text.
pub record SlotReply : Type 0 where
  pub slot : Option ℕ
  pub has_error : Bool
  pub text : String

-- `entropy` is what a new mnemonic draws, `http_built` the failure of the HTTP client's builder, if
-- any. A flush sees what has been written, the last piece first.
pub record Host : Type 0 where
  pub os : Os
  pub entropy : Bytes
  pub http_built : Option String
  pub stdout_is_terminal : Bool
  pub refuse_flush : List String → Option String
  -- `{:?}` of a duration, `{:.4}` of a number in JSON, `serde_json::to_string_pretty`
  pub debug_duration : ℕ → String
  pub fixed4 : Json → String
  pub models_json : List ModelInfo → Result String String
  pub slot_reply : String → Result String SlotReply
  pub response_json : ChatResponse → Result String String

-- `stdin` holds the lines that are typed, or the failures to read one; at its end an empty line is
-- read. The outputs have the last piece first.
pub record Shell : Type 0 where
  pub files : Files
  pub stdin : List (Result String String)
  pub stdout : List String
  pub stderr : List String
  pub world : World

abbrev pub Command : Type 0 → Type 0
Command A = Exec Shell String A

abbrev pub print : String → Command (Unit {0})
print text s = (done tt, record s { stdout = text ∷ s.stdout })

abbrev pub println : String → Command (Unit {0})
println text = print (text <> "\n")

abbrev pub eprint : String → Command (Unit {0})
eprint text s = (done tt, record s { stderr = text ∷ s.stderr })

abbrev pub eprintln : String → Command (Unit {0})
eprintln text = eprint (text <> "\n")

-- `flush().map_err(what)?`
abbrev refused : {A : Type 0} → String → A → Option String → Outcome String A
refused what a none = done a
refused what a (some e) = fail (what <> e)

abbrev pub flush_stdout : Host → Command (Unit {0})
flush_stdout host s = (refused "flush error: " tt (host.refuse_flush s.stdout), s)

abbrev pub flush_stderr : Host → Command (Unit {0})
flush_stderr host s = (refused "failed to flush stderr: " tt (host.refuse_flush s.stderr), s)

abbrev pub typed : List (Result String String) → Outcome String String × List (Result String String)
typed [] = (done "", [])
typed (ok line ∷ rest) = (done line, rest)
typed (err e ∷ rest) = (fail ("failed to read stdin: " <> e), rest)

abbrev pub read_line : Command String
read_line s = let r = typed s.stdin in (r.0, record s { stdin = r.1 })

-- What the commands share: the key file, and an action of the client.
abbrev pub loaded : Platform → Host → WalletArgs → Command Wallet
loaded p host args s = (load_wallet p.crypto host.os s.files args, s)

abbrev pub saved : Host → String → Bytes → Bool → Command String
saved host path bytes force s =
    let r = save_wallet host.os s.files path bytes force in (r.0, record s { files = r.1 })

abbrev pub on_world : {A : Type 0} → (ClientError → String) → Exec World ClientError A → Command A
on_world what m s = (map_fail what (m s.world).0, record s { world = (m s.world).1 })

abbrev pub explain : Host → String → ClientError → String
explain host what e = what <> display_client_error host.debug_duration e

-- `ClientBuilder::new().gateway_url(…).rpc_url(…).build_config()`
abbrev pub config_for : String → String → ClientConfig
config_for gateway rpc_url = configure (Setting.gateway_url gateway ∷ Setting.rpc_url rpc_url ∷ [])
