-- ===== src/Tests/Commands.antt =====
-- The theorems on the command line and on the start of the proxy, for a shell with one typed line.
use solvela_client.Base.{
  ◌+◌, ◌*◌, ◌≤◌, String, ◌<>◌, true, false, none, some, List, [], ◌∷◌, ◌++◌, ◌≡◌, ◌≢◌, refl, nat_eq,
  string_eq, ◌==◌, keep,
}
use solvela_client.Base.Outcome.{ok, err, done, fail, Result}
use solvela_client.Base.Dict.{lookup}
use solvela_client.Base.Sorting.{IsSorted}
use solvela_client.Protocol.{ChatChunk, ModelInfo}
use solvela_client.Error.{ClientError}
use solvela_client.Wallet.{Wallet, address, from_mnemonic, to_keypair_b58}
use solvela_client.KeyFile.{WalletArgs, Files, load_wallet}
use solvela_client.Cache.Lru.{list_lru}
use solvela_client.Handshake.Safety.{IsSafe}
use solvela_client.Handshake.Budget.{spent}
use solvela_client.Cli.{GatewayArgs, RpcArgs, WalletAction, Commands, Host, Shell}
use solvela_client.Cli.Wallets.{create, show_address, export}
use solvela_client.Cli.Wallets.Laws.{created_lines, create-show_address}
use solvela_client.Cli.Wallets.Care.{Consent, Exported, export-Consent}
use solvela_client.Cli.Models.{apply_filter_and_sort}
use solvela_client.Cli.Models.Order.{by_id, apply_filter_and_sort_lem}
use solvela_client.Cli.Doctor
use solvela_client.Cli.Doctor.Checks.{run-Checks}
use solvela_client.Cli.Doctor.Effects.{IsChecked}
use solvela_client.Cli.Doctor.Lines.{Report}
use solvela_client.Config.{trim_slashes}
use solvela_client.Cli.Models.Order.{is_asked}
use solvela_client.Cli.Main.{dispatch}
use solvela_client.Net.{requests}
use solvela_client.Base.{◌&&◌}
use solvela_client.Cli.Chats.{chat_config, print_stream}
use solvela_client.Cli.Chats
use solvela_client.Cli.Chats.Output.{print_stream_lem}
use solvela_client.Cli.Chats.Budget.{run-Kept}
use solvela_client.Cli.Main.{Cli, main}
use solvela_client.Cli.Main.Exits.{Ended, main-Ended}
use solvela_client.Proxy.{ProxyState}
use solvela_client.Proxy.Startup.{ProxyCli, proxy_config, start_proxy, serve}
use solvela_client.Proxy.Startup.Serving.{start_proxy-IsSafe}
use solvela_client.Client.{chat}
use solvela_client.Client.Stream.{chat_stream}
use solvela_client.Client.Requests.{chat-sent}
use solvela_client.Tests.Fixtures.{encode, crypto, platform, wallet, start, hello}
use solvela_client.Tests.Keys.{solana-IsTotal, crypto-IsLawful}
use solvela_client.Tests.KeyFiles.{os, args, reads}
use solvela_client.Tests.Numbers.{numbers}
use solvela_client.Tests.Payments.{client}
use solvela_client.Tests.Proxies.{caller}

chat-sent_example :
    (requests (chat list_lru platform hello client start).2 ≤ 0 + 33 * (1 + 1))
    × (requests (chat_stream list_lru platform hello client start).2 ≤ 0 + 33)
chat-sent_example = chat-sent list_lru platform hello client start

-- The environment holds the wallet's key.
abbrev host : Host
host = record {
  os = record os { env = λ var. some (encode wallet.keypair_bytes) };
  entropy = 1 ∷ [];
  http_built = none;
  stdout_is_terminal = true;
  refuse_flush = λ written. none;
  debug_duration = λ d. "";
  fixed4 = λ json. json;
  models_json = λ listed. ok "[]";
  slot_reply = λ s. ok (record { slot = some 5; has_error = false; text = s });
  response_json = λ r. ok "{}";
}

-- The same, with the key in a file.
abbrev file_host : Host
file_host = record host { os = os }

abbrev shell : Shell
shell = record { files = []; stdin = ok "yes" ∷ []; stdout = []; stderr = []; world = start }

abbrev gateway : GatewayArgs
gateway = record { gateway = "http://gateway/" }

abbrev rpc_args : RpcArgs
rpc_args = record { rpc_url = "rpc" }

create-show_address_example :
    let after = create platform file_host args false shell in
    (w : Wallet) × (phrase : String) × (path : String) × (after.1.stdout
      ≡ created_lines platform file_host args w phrase path ++ [])
    × (from_mnemonic crypto phrase ≡ done w)
    × (show_address platform file_host args after.1
        ≡ (done tt, record after.1 { stdout = (address crypto w <> "\n") ∷ after.1.stdout }))
unfolding create solvela_client.Cli.Wallets.do_create solvela_client.Wallet.create nat_eq
    solvela_client.KeyFile.save_wallet lookup solvela_client.KeyFile.write_file
create-show_address_example =
    create-show_address platform file_host args false shell crypto-IsLawful reads refl refl refl

export-Consent_example :
    let after = export platform host args false shell in
    Exported platform host args false shell after.0 after.1
    × (((written : List String) → host.refuse_flush written ≡ none)
        → Consent platform host false shell
        → (w : Wallet) → load_wallet crypto host.os [] args ≡ done w
        → after.0 ≡ done tt)
export-Consent_example = export-Consent platform host args false shell

abbrev listing : List ModelInfo
listing =
    record {
      id = "b";
      provider = "x";
      input_cost_per_million = "1";
      output_cost_per_million = "2";
      context_window = 8000;
    }
    ∷ record {
      id = "a";
      provider = "X";
      input_cost_per_million = "1";
      output_cost_per_million = "2";
      context_window = 8000;
    }
    ∷ []

apply_filter_and_sort_lem_example :
    let shown = apply_filter_and_sort (λ s. s) listing (some "x") in
    IsSorted by_id shown
    × ((id : String)
        → keep (λ m. m.id == id) shown
          ≡ keep (λ m. m.id == id && is_asked (λ s. s) (some "x") m) listing)
apply_filter_and_sort_lem_example = apply_filter_and_sort_lem (λ s. s) listing (some "x")

run-Checks_example :
    let after = Doctor.run numbers list_lru platform host args gateway rpc_args shell in
    IsChecked
      (Report numbers list_lru platform host args (trim_slashes gateway.gateway) rpc_args.rpc_url)
      5
      shell
      after.0
      after.1
run-Checks_example =
    run-Checks numbers list_lru platform host solana-IsTotal args gateway rpc_args shell refl

abbrev chunks : List (Result ClientError ChatChunk)
chunks =
    ok (record { model = "gpt"; choices = record { delta_content = some "Good" } ∷ [] })
    ∷ err (ClientError.stream_error "cut")
    ∷ []

print_stream_lem_example :
    print_stream host chunks shell
    ≡ (fail "stream chunk error: stream interrupted: cut", record shell { stdout = "Good" ∷ [] })
unfolding solvela_client.Error.display_client_error
print_stream_lem_example = print_stream_lem host (λ written. refl) chunks shell

run-Kept_example :
    let chosen = chat_config gateway rpc_args (some 5000) in
    let after =
      Chats.run list_lru platform host "hi" "gpt" false (some 5000) args gateway rpc_args shell in
    ((w : Wallet)
      → load_wallet crypto host.os [] args ≡ done w
      → IsSafe platform w chosen start
      → IsSafe platform w chosen after.1.world × (spent after.1.world ≤ spent start + 5000))
    × (((w : Wallet) → load_wallet crypto host.os [] args ≢ done w) → after.1.world ≡ start)
run-Kept_example =
    run-Kept list_lru platform host "hi" "gpt" false (some 5000) args gateway rpc_args shell

abbrev cli : Cli
cli = record {
  gateway = gateway;
  rpc = rpc_args;
  wallet = args;
  command = Commands.wallet (WalletAction.export false);
}

main-Ended_example :
    let after = main numbers list_lru platform host cli shell in
    (after.1.world.signed ≡ [])
    × Ended numbers list_lru platform host shell
        (dispatch numbers list_lru platform host cli.command cli.wallet cli.gateway cli.rpc shell).0
        after
main-Ended_example = main-Ended numbers list_lru platform host cli shell tt

abbrev proxy_cli : ProxyCli numbers
proxy_cli = record {
  wallet = args;
  gateway = gateway;
  rpc = rpc_args;
  max_payment = some 100_000;
  expected_recipient = none;
}

abbrev started : ProxyState
started = record {
  wallet = wallet;
  config = proxy_config numbers proxy_cli;
  gateway_url = "http://gateway";
  from_bytes = λ m. none;
  debug = λ d. "";
}

start_proxy-IsSafe_example :
    (load_wallet crypto host.os [] args ≡ done wallet)
    × IsSafe platform wallet
        (proxy_config numbers proxy_cli)
        (serve platform started (caller ∷ caller ∷ []) start)
    × (spent (serve platform started (caller ∷ caller ∷ []) start) ≤ spent start + 2 * 100_000)
unfolding start_proxy solvela_client.Wallet.from_keypair_b58
start_proxy-IsSafe_example =
    start_proxy-IsSafe numbers list_lru platform host.os none (λ m. none) (λ d. "") [] proxy_cli
      started (caller ∷ caller ∷ []) start refl (record { signed = tt; sent = tt })
