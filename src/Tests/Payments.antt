-- ===== src/Tests/Payments.antt =====
-- The theorems on payments, on a client that chats with servers that ask for a payment.
use solvela_client.Base.{
  ℕ, String, List, [], ◌∷◌, Option, none, some, ◌≡◌, ◌≤◌, ◌<◌, ◌-◌, ◌+◌, ◌*◌, ◌↔◌, refl, arith, All,
  nat_eq, string_eq, unwrap_or, or_option, false, ◌≢◌,
}
use solvela_client.Base.Dict.{lookup}
use solvela_client.Base.Outcome.{done}
use solvela_client.Protocol.{ChatResponse}
use solvela_client.Text.Digits.{u64_max}
use solvela_client.Cache.{ResponseCache, new}
use solvela_client.Cache.Lru.{list_lru, list_lru-IsLawful}
use solvela_client.Session.{new_store}
use solvela_client.Net.{World}
use solvela_client.Handshake.{sign_payment_for_402_with_amount, retry_if_degraded, pick_scheme}
use solvela_client.Handshake.Safety.{IsSafe, IsPayment, sign-IsPayment}
use solvela_client.Handshake.Budget.{spent}
use solvela_client.Handshake.Spending.{retry_if_degraded-Ended, Ended}
use solvela_client.Client.{SolvelaClient, prepare, chat}
use solvela_client.Client.Stream.{chat_stream}
use solvela_client.Client.Safety.{chat-IsSafe}
use solvela_client.Client.Spending.{chat-Ends}
use solvela_client.Client.Caching.{chat-chat}
use solvela_client.Client.Model.{prepare-request, free_model, session_model}
use mathlib.Core.Option.{some-injective}
use solvela_client.Net.{HttpResponse}
use solvela_client.Base.Outcome.{ok, panic}
use solvela_client.Handshake.{send_chat_request}
use solvela_client.Handshake.Completes.{send_chat_request-Completes}
use solvela_client.Tests.Fixtures.{
  encode, platform, wallet, config, start, hello, response, payment_required, offer,
}
use solvela_client.Client.Total.{chat_ne_panic}
use solvela_client.Tests.Keys.{solana-IsTotal, wallet-IsValid}

abbrev pub cache : ResponseCache list_lru
cache = record {
  inner = record { room = 3; items = [] };
  poisoned = false;
  ttl = 50;
  dedup_window = 5;
}

abbrev pub client : SolvelaClient list_lru
client = record {
  wallet = wallet;
  config = config;
  balance_state = 9;
  cache = some cache;
  session_store = some (new_store 60);
}

start-IsSafe : IsSafe platform wallet config start
start-IsSafe = record { signed = tt; sent = tt }

chat-IsSafe_example :
    IsSafe platform wallet config (chat list_lru platform hello client start).2
    × IsSafe platform wallet config (chat_stream list_lru platform hello client start).2
chat-IsSafe_example = chat-IsSafe list_lru platform hello client start start-IsSafe

chat-Ends_example :
    ((r : ChatResponse)
      → (chat list_lru platform hello client start).0 ≡ done r
      → spent (chat list_lru platform hello client start).2 ≤ 10_000_000)
    × (spent (chat list_lru platform hello client start).2 ≤ 20_000_000)
    × (spent (chat_stream list_lru platform hello client start).2 ≤ 10_000_000)
chat-Ends_example = chat-Ends list_lru platform hello client start 10_000_000 refl (omega arith)

chat-chat_example :
    let first = chat list_lru platform hello client start in
    ((chat list_lru platform hello first.1 first.2).0 ≡ done response)
    × ((chat list_lru platform hello first.1 first.2).2 ≡ first.2)
unfolding solvela_client.Handshake.pick_scheme solvela_client.Handshake.is_supported
    solvela_client.Handshake.check_recipient solvela_client.Handshake.parse_amount
    solvela_client.Handshake.check_amount solvela_client.Net.exchange solvela_client.Net.send
    solvela_client.Payment.associated_token_address solvela_client.Payment.build_transfer
    solvela_client.Payment.encode_payment_header solvela_client.Payment.encode_transaction
    solvela_client.Payment.read_blockhash solvela_client.Signer.get_latest_blockhash
    solvela_client.Signer.sign_exact_payment solvela_client.Signer.sign_transaction
    solvela_client.Text.Digits.digits_from solvela_client.Text.Digits.parse_u64
    solvela_client.Wallet.keypair solvela_client.Wallet.pubkey native.Mathlib.Decide.ℕ_discrete
    nat_eq string_eq lookup sign_payment_for_402_with_amount solvela_client.Base.Counting.reaches
    solvela_client.Base.Counting.reaches_from solvela_client.Base.Dict.insert
    solvela_client.Cache.cache_key solvela_client.Cache.is_duplicate solvela_client.Cache.put
    solvela_client.Cache.get solvela_client.Cache.Lru.without solvela_client.Client.balance_guard
    solvela_client.Client.cache_lookup solvela_client.Client.cache_store
    solvela_client.Client.finish solvela_client.Client.fetch
    solvela_client.Client.hash_request_content solvela_client.Client.record_session
    solvela_client.Client.session_lookup solvela_client.Client.settle
    solvela_client.Handshake.send_chat_request solvela_client.Handshake.answer_probe
    solvela_client.Handshake.pay_and_resend_with_amount solvela_client.Handshake.answer_retry
    solvela_client.Handshake.check_budget solvela_client.Handshake.read_paid
    solvela_client.Handshake.resend solvela_client.Handshake.retry_loop
    solvela_client.Quality.aggregate_content solvela_client.Quality.check_truncation
    solvela_client.Quality.has_repetitive_loop solvela_client.Quality.is_degraded
    solvela_client.Quality.windows solvela_client.Session.create
    solvela_client.Session.derive_session_id solvela_client.Session.find_live
    solvela_client.Session.get_or_create solvela_client.Session.push_hash
    solvela_client.Session.record_entry solvela_client.Session.record_request
    solvela_client.Text.Digits.digits_in solvela_client.Text.Digits.nth_char
    solvela_client.Text.Digits.to_hex solvela_client.Text.contains solvela_client.Text.is_whitespace
    solvela_client.Text.join solvela_client.Text.last_char solvela_client.Text.split_from
    solvela_client.Text.split_whitespace solvela_client.Text.trim
    solvela_client.Text.trim_end_matches solvela_client.Text.trim_start_matches retry_if_degraded
    chat prepare
chat-chat_example =
    chat-chat list_lru list_lru-IsLawful platform client cache hello hello start
      (chat list_lru platform hello client start).2 response refl refl refl refl refl (omega arith)

sign-IsPayment_example : IsPayment platform wallet config "gateway"
unfolding solvela_client.Handshake.pick_scheme solvela_client.Handshake.is_supported
    solvela_client.Handshake.check_recipient solvela_client.Handshake.parse_amount
    solvela_client.Handshake.check_amount solvela_client.Net.exchange solvela_client.Net.send
    solvela_client.Payment.associated_token_address solvela_client.Payment.build_transfer
    solvela_client.Payment.encode_payment_header solvela_client.Payment.encode_transaction
    solvela_client.Payment.read_blockhash solvela_client.Signer.get_latest_blockhash
    solvela_client.Signer.sign_exact_payment solvela_client.Signer.sign_transaction
    solvela_client.Text.Digits.digits_from solvela_client.Text.Digits.parse_u64
    solvela_client.Wallet.keypair solvela_client.Wallet.pubkey native.Mathlib.Decide.ℕ_discrete
    nat_eq string_eq lookup sign_payment_for_402_with_amount
sign-IsPayment_example =
    sign-IsPayment platform wallet config payment_required start "gateway" 2500 refl

retry_if_degraded-Ended_example :
    Ended platform wallet config 10_000_000 refl 0
      (retry_if_degraded platform wallet config "url" hello response 0 start).0
      (retry_if_degraded platform wallet config "url" hello response 0 start).1
retry_if_degraded-Ended_example =
    retry_if_degraded-Ended platform wallet config 10_000_000 refl 0 0 "url" hello response start
      (omega arith) refl (omega arith)

prepare-request_example : (prepare list_lru platform client hello 100).request ≡ record hello {
  stream = false;
  model =
      unwrap_or
        (or_option
          (free_model config 9)
          (session_model platform.sip (some (new_store 60)) hello 100))
        "gpt";
}
prepare-request_example = prepare-request list_lru platform client hello 100

abbrev reply : ℕ → HttpResponse
reply status = record { status = status; headers = []; body = ok "body"; events = [] }

send_chat_request-Completes_example :
    (send_chat_request platform wallet config "url" hello start).0 ≡ done (response, 2500)
unfolding solvela_client.Handshake.pick_scheme solvela_client.Handshake.is_supported
    solvela_client.Handshake.check_recipient solvela_client.Handshake.parse_amount
    solvela_client.Handshake.check_amount solvela_client.Net.exchange solvela_client.Net.send
    solvela_client.Payment.associated_token_address solvela_client.Payment.build_transfer
    solvela_client.Payment.encode_payment_header solvela_client.Payment.encode_transaction
    solvela_client.Payment.read_blockhash solvela_client.Signer.get_latest_blockhash
    solvela_client.Signer.sign_exact_payment solvela_client.Signer.sign_transaction
    solvela_client.Text.Digits.digits_from solvela_client.Text.Digits.parse_u64
    solvela_client.Wallet.keypair solvela_client.Wallet.pubkey native.Mathlib.Decide.ℕ_discrete
    nat_eq string_eq lookup sign_payment_for_402_with_amount
send_chat_request-Completes_example =
    send_chat_request-Completes platform wallet config "url" hello start (reply 402) (reply 200)
      "body" "body" (encode (2500 ∷ 7 ∷ [])) "gateway" payment_required offer 2500 response refl
      refl refl refl refl (λ e h. some-injective "gateway" e h) refl
      (λ max h.
        let same : 10_000_000 ≡ max = some-injective 10_000_000 max h in omega (arith, same))
      refl refl refl refl refl refl

chat_ne_panic_example :
    ((chat list_lru platform hello client start).0 ≢ panic)
    × ((chat_stream list_lru platform hello client start).0 ≢ panic)
chat_ne_panic_example =
    chat_ne_panic list_lru platform solana-IsTotal hello client start wallet-IsValid
