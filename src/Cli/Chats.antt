-- ===== src/Cli/Chats.antt =====
-- crates/solvela-client-cli/src/commands/chat.rs.
pub mod Output
pub mod Budget
use solvela_client.Base.{
  ℕ, String, ◌<>◌, Bool, true, false, not, ◌&&◌, Option, none, some, List, [], ◌∷◌, if◌then◌else◌,
}
use solvela_client.Base.Outcome.{Result, ok, err, Outcome, try, map_fail}
use solvela_client.Base.Exec.{pure, raise, lift, ◌>>=◌}
use solvela_client.Text.{is_empty}
use solvela_client.Text.Digits.{to_decimal}
use solvela_client.Protocol.{ChatChunk, ChatRequest, ChatResponse, ChunkChoice, Role, Usage}
use solvela_client.Error.{ClientError}
use solvela_client.Config.{ClientConfig, Setting, configure}
use solvela_client.KeyFile.{WalletArgs}
use solvela_client.Net.{World}
use solvela_client.Platform.{Platform}
use solvela_client.Cache.{LruCache}
use solvela_client.Client.{SolvelaClient, chat}
use solvela_client.Client
use solvela_client.Client.Stream.{chat_stream}
use solvela_client.Cli.{
  GatewayArgs, RpcArgs, Host, Command, print, println, eprintln, flush_stdout, loaded, explain,
}

-- `if let Some(max) = max_payment` on the builder.
abbrev pub chat_settings : GatewayArgs → RpcArgs → Option ℕ → List Setting
chat_settings gateway_args rpc_args none =
    Setting.gateway_url gateway_args.gateway ∷ Setting.rpc_url rpc_args.rpc_url ∷ []
chat_settings gateway_args rpc_args (some max) =
    Setting.gateway_url gateway_args.gateway
    ∷ Setting.rpc_url rpc_args.rpc_url
    ∷ Setting.max_payment_amount max
    ∷ []

abbrev pub chat_config : GatewayArgs → RpcArgs → Option ℕ → ClientConfig
chat_config gateway_args rpc_args max_payment =
    configure (chat_settings gateway_args rpc_args max_payment)

abbrev pub chat_request : String → String → ChatRequest
chat_request prompt model = record {
  model = model;
  messages =
      record {
        role = Role.user;
        content = prompt;
        name = none;
        tool_calls = none;
        tool_call_id = none;
      }
      ∷ [];
  max_tokens = none;
  temperature = none;
  top_p = none;
  stream = false;
  tools = none;
  tool_choice = none;
}

-- An action of the client, which is dropped with its memory when the command ends.
abbrev pub on_client :
    {A M : Type 0}
    → (ClientError → String)
    → (World → Outcome ClientError A × M × World)
    → Command A
on_client what act s = let r = act s.world in (map_fail what r.0, record s { world = r.2 })

module _ (host : Host) where
  unfoldable pub print_choices : List ChunkChoice → Command (Unit {0})
  print_choices [] = pure tt
  print_choices (choice ∷ rest) = elim choice.delta_content [
    | none ↦ print_choices rest
    | some content ↦ do printed ← print content; flushed ← flush_stdout host; print_choices rest
  ]

  -- The loop over the stream; it gives the first model name that is not empty.
  unfoldable pub print_chunks : String → List (Result ClientError ChatChunk) → Command String
  unfolding print_choices
  print_chunks model_name [] = pure model_name
  print_chunks model_name (err e ∷ rest) = raise (explain host "stream chunk error: " e)
  print_chunks model_name (ok chunk ∷ rest) = do
    printed ← print_choices chunk.choices
    print_chunks (if is_empty model_name then chunk.model else model_name) rest

  -- What follows the loop.
  abbrev pub close_stream : String → Command (Unit {0})
  close_stream model_name = do
    ended ← println ""
    if is_empty model_name then pure tt else eprintln ("[model: " <> (model_name <> "]"))

  unfoldable pub print_stream : List (Result ClientError ChatChunk) → Command (Unit {0})
  unfolding print_chunks
  print_stream stream = do model_name ← print_chunks "" stream; close_stream model_name

  abbrev print_usage : Option Usage → Command (Unit {0})
  print_usage none = pure tt
  print_usage (some usage) = eprintln (
      "[tokens: "
      <> (to_decimal usage.prompt_tokens
          <> (" prompt + "
              <> (to_decimal usage.completion_tokens
                  <> (" completion = " <> (to_decimal usage.total_tokens <> " total]"))))))

  unfoldable pub print_response : ChatResponse → Command (Unit {0})
  unfolding to_decimal
  print_response resp = elim resp.choices [
    | [] ↦ do named ← eprintln ("[model: " <> (resp.model <> "]")); print_usage resp.usage
    | choice ∷ rest ↦ do
      content ← println choice.message.content
      named ← eprintln ("[model: " <> (resp.model <> "]"))
      print_usage resp.usage
  ]

  unfoldable pub print_json : ChatResponse → Command (Unit {0})
  print_json resp = do
    output ← lift (try (λ e. "failed to serialize response: " <> e) (host.response_json resp))
    println output

module _ (L : LruCache) (p : Platform) (host : Host) where
  -- The three modes.
  unfoldable pub talk : Bool → ChatRequest → SolvelaClient L → Command (Unit {0})
  unfolding chat chat_stream print_stream print_response print_json
  talk no_stream req client =
      if host.stdout_is_terminal && not no_stream
      then on_client (explain host "stream error: ") (chat_stream L p req client)
        >>= print_stream host
      else if host.stdout_is_terminal
      then on_client (explain host "chat error: ") (chat L p req client) >>= print_response host
      else on_client (explain host "chat error: ") (chat L p req client) >>= print_json host

  unfoldable pub run :
      String → String → Bool → Option ℕ → WalletArgs → GatewayArgs → RpcArgs → Command (Unit {0})
  run prompt model no_stream max_payment wallet_args gateway_args rpc_args = do
    wallet ← loaded p host wallet_args
    client ← lift (
        map_fail (explain host "failed to create client: ")
          (Client.new L host.http_built wallet (chat_config gateway_args rpc_args max_payment)))
    talk no_stream (chat_request prompt model) client
