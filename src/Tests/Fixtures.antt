-- ===== src/Tests/Fixtures.antt =====
-- A platform with concrete functions: a unary codec for keys, and servers that ask for a payment, hand
-- out a blockhash, and answer a paid request.
use solvela_client.Base.{
  ℕ, zero, suc, String, true, false, none, some, List, [], ◌∷◌, ◌++◌, ◌==◌, nat_eq, string_eq,
  if◌then◌else◌, length, code,
}
use solvela_client.Base.Outcome.{ok, err}
use solvela_client.Base.Dict.{lookup}
use solvela_client.Protocol.{
  Role, ChatMessage, ChatRequest, ChatResponse, PaymentAccept, Protocol, PaymentRequired,
  CostBreakdown,
}
use solvela_client.Config.{ClientConfig, default_config}
use solvela_client.Wallet.{Bytes, Crypto, Wallet}
use solvela_client.Net.{Answer, Servers, World}
use solvela_client.Payment.{Solana}
use solvela_client.Quality.{Unicode}
use solvela_client.Platform.{Platform, Serde}
use solvela_client.Text.Digits.{to_decimal}

-- Numbers in unary, each closed by a `b`.
abbrev pub encode : List ℕ → String
encode [] = String.[]
encode (zero ∷ ns) = String.◌∷◌ "b" (encode ns)
encode (suc n ∷ ns) = String.◌∷◌ "a" (encode (n ∷ ns))

abbrev pub bump : List ℕ → List ℕ
bump [] = []
bump (n ∷ ns) = suc n ∷ ns

abbrev pub decode : String → List ℕ
decode String.[] = []
decode (String.◌∷◌ c s) = if code c == 98 then 0 ∷ decode s else bump (decode s)

abbrev pub zeros : ℕ → Bytes
zeros zero = []
zeros (suc n) = 0 ∷ zeros n

abbrev pub crypto : Crypto
crypto = record {
  keypair_try_from = λ b. if length b == 64 then ok b else err "length";
  verifying_key = λ secret. secret;
  generate = λ entropy. ok entropy;
  parse_mnemonic = λ s. ok (decode s);
  display_mnemonic = encode;
  to_seed = λ m. zeros 64;
  b58_decode = λ s. ok (decode s);
  b58_encode = encode;
  display_pubkey = encode;
}

abbrev pub protocol : Protocol
protocol = record { solana_network = "solana"; usdc_mint = "mint"; x402_version = 2 }

abbrev pub solana : Solana
solana = record {
  parse_pubkey = λ s. ok (length (decode s) ∷ []);
  display_pubkey = encode;
  find_program_address = λ seeds program. program;
  token_program = 6 ∷ [];
  transfer_checked = λ t. ok (t.amount ∷ []);
  parse_hash = λ s. ok (7 ∷ []);
  new_transaction = λ ix payer kp hash. some (ix ++ hash);
  serialize = λ tx. ok tx;
  base64 = encode;
  base64_text = λ s. s;
  payload_json = λ payload. ok payload.accepted.pay_to;
  display_status = to_decimal;
  parse_rpc = λ s. ok (record { error = none; blockhash = some "hash" });
}

abbrev pub message : String → ChatMessage
message content = record {
  role = Role.user;
  content = content;
  name = none;
  tool_calls = none;
  tool_call_id = none;
}

abbrev pub hello : ChatRequest
hello = record {
  model = "gpt";
  messages = message "hello" ∷ [];
  max_tokens = none;
  temperature = none;
  top_p = none;
  stream = true;
  tools = none;
  tool_choice = none;
}

abbrev pub response : ChatResponse
response = record {
  id = "1";
  object = "chat.completion";
  created = 0;
  model = "gpt";
  choices = record { index = 0; message = message "Good day."; finish_reason = none } ∷ [];
  usage = none;
}

abbrev pub offer : PaymentAccept
offer = record {
  scheme = "exact";
  network = "solana";
  amount = "2500";
  asset = "mint";
  pay_to = "gateway";
  max_timeout_seconds = 300;
  escrow_program_id = none;
}

abbrev pub free_cost : CostBreakdown
free_cost = record {
  provider_cost = "0";
  platform_fee = "0";
  total = "0";
  currency = "USDC";
  fee_percent = 5;
}

abbrev pub payment_required : PaymentRequired
payment_required = record {
  x402_version = 2;
  resource = record { url = "/v1/chat/completions"; method = "POST" };
  accepts = record offer { scheme = "escrow" } ∷ offer ∷ [];
  cost_breakdown = free_cost;
  error = "";
}

abbrev pub serde : Serde
serde = record {
  chat_response = λ s. ok response;
  payment_required = λ s. ok payment_required;
  chat_chunk = λ s. ok (record { model = s; choices = [] });
  models = λ s. ok [];
  role_json = λ r. some "user";
}

abbrev reply : ℕ → Answer
reply status = record {
  delay = 1;
  redirects = 2;
  reply = ok (record { status = status; headers = []; body = ok "body"; events = [] });
}

-- A request for a blockhash or with a payment is answered, any other is asked to pay.
abbrev pub servers : Servers
servers [] = reply 500
servers (r ∷ _) =
    if r.url == "rpc"
    then reply 200
    else elim (lookup "PAYMENT-SIGNATURE" r.headers) [ none ↦ reply 402 | some header ↦ reply 200 ]

abbrev pub unicode : Unicode
unicode = record {
  is_alphanumeric = λ c. if code c == 46 then false else true;
  to_lowercase = λ s. s;
}

abbrev pub platform : Platform
platform = record {
  protocol = protocol;
  crypto = crypto;
  solana = solana;
  serde = serde;
  unicode = unicode;
  ahash = λ texts. length texts;
  sip = λ texts. length texts;
  net = servers;
}

abbrev pub wallet : Wallet
wallet = record { keypair_bytes = zeros 64 }

abbrev pub config : ClientConfig
config = record default_config {
  rpc_url = "rpc";
  expected_recipient = some "gateway";
  enable_cache = true;
  enable_sessions = true;
  enable_quality_check = true;
}

abbrev pub start : World
start = record { clock = 100; sent = []; redirected = 0; signed = [] }
