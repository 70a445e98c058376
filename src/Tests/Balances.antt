-- ===== src/Tests/Balances.antt =====
-- The theorems on balances, for a monitor with a callback and for a client that shares its balance.
use solvela_client.Base.{
  ◌+◌, ◌*◌, ◌≤◌, true, false, [], ◌∷◌, ◌≡◌, refl, arith, nat_eq, string_eq, unwrap_or, or_option,
}
use solvela_client.Base.Dict.{lookup}
use solvela_client.Wallet.{Bytes}
use solvela_client.Balance.{BalanceMonitor, Watch, fetch_balance, run, watched_account}
use solvela_client.Balance.Polls.{answers, repeated}
use solvela_client.Balance.Edges.{Reports, run-Reports}
use solvela_client.Client.{prepare}
use solvela_client.Client.Funds.{
  SameReading, account_of, usdc_balance_of, usdc_balance_of-fetch_balance,
}
use solvela_client.Client.Model.{free_model, session_model}
use solvela_client.Cache.Lru.{list_lru}
use solvela_client.System.{System, Run, Quiet, Chats, ticked, chatted}
use solvela_client.System.Invariant.{Same, Run-IsSafe, Run-spent}
use solvela_client.System.Fallback.{ticked-prepare}
use solvela_client.Handshake.Safety.{IsSafe}
use solvela_client.Handshake.Budget.{spent}
use solvela_client.Tests.Numbers.{numbers}
use solvela_client.Tests.Fixtures.{platform, wallet, config, start, hello}
use solvela_client.Tests.Payments.{client}

-- The token account that the fixtures' Solana crates give to every address.
abbrev ata : Bytes
ata = 3 ∷ []

abbrev monitor : BalanceMonitor numbers
monitor = record {
  rpc_url = "rpc";
  wallet_address = "ab";
  poll_interval = 30;
  low_balance_threshold = 100_000;
  on_low_balance = true;
}

run-Reports_example :
    let first : Watch numbers = record { balance_state = 7; was_low = false; calls = [] } in
    let after = run numbers platform monitor (0 ∷ 30 ∷ []) 7 start in
    Reports numbers monitor first (answers numbers platform monitor ata 2 []) after.0
    × (after.1.sent ≡ repeated numbers platform monitor ata 2 [])
    × (after.1.signed ≡ [])
unfolding watched_account solvela_client.Payment.associated_token_address nat_eq
run-Reports_example = run-Reports numbers monitor platform ata (0 ∷ 30 ∷ []) 7 start refl

usdc_balance_of-fetch_balance_example :
    ((usdc_balance_of numbers platform config "ab" start).1
      ≡ (fetch_balance numbers platform monitor ata start).1)
    × SameReading numbers platform config
        (usdc_balance_of numbers platform config "ab" start).0
        (fetch_balance numbers platform monitor ata start).0
unfolding account_of solvela_client.Payment.associated_token_address nat_eq
usdc_balance_of-fetch_balance_example =
    usdc_balance_of-fetch_balance numbers platform config monitor ata start refl refl

abbrev system : System numbers list_lru
system = record {
  client = client;
  watch = record { balance_state = 9; was_low = false; calls = [] };
  world = start;
}

abbrev polled : System numbers list_lru
polled = ticked numbers list_lru platform monitor ata 30 system

-- A round of the monitor, then a chat.
abbrev run_of_two :
    Run numbers list_lru platform monitor ata system 1
      (chatted numbers list_lru platform monitor ata hello polled)
run_of_two =
    Run.chats 0 polled _ (Run.quiet 0 system polled Run.start (Quiet.tick 30 system))
      (Chats.call hello polled)

Run-IsSafe_example :
    let after = chatted numbers list_lru platform monitor ata hello polled in
    Same list_lru client after.client × IsSafe platform wallet config after.world
Run-IsSafe_example =
    Run-IsSafe numbers list_lru platform monitor ata system
      (chatted numbers list_lru platform monitor ata hello polled) 1 run_of_two
      (record { signed = tt; sent = tt })

Run-spent_example :
    let after = chatted numbers list_lru platform monitor ata hello polled in
    spent after.world ≤ spent start + 2 * 1 * 10_000_000
Run-spent_example =
    Run-spent numbers list_lru platform monitor ata system
      (chatted numbers list_lru platform monitor ata hello polled) 1 10_000_000 run_of_two refl
      (omega arith)

ticked-prepare_example :
    (prepare list_lru platform polled.client hello 200).request ≡ record hello {
      stream = false;
      model =
          unwrap_or
            (or_option
              (free_model config 50_000)
              (session_model platform.sip client.session_store hello 200))
            "gpt";
    }
unfolding solvela_client.Balance.read_balance string_eq lookup nat_eq
ticked-prepare_example =
    ticked-prepare numbers list_lru platform monitor ata system 30 200 hello 50_000 refl
