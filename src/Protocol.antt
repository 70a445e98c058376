-- ===== src/Protocol.antt =====
-- The wire types of the crate `solvela_protocol`, with the fields by which the client, the proxy
-- and the command line build and read them. That crate is not part of the repository: its three
-- constants are the parameter `Protocol`. A value that the program passes on unread (tool calls, a
-- temperature) is a `Json`, the text of a JSON value.
use solvela_client.Base.{ℕ, String, Bool, Option, List}

abbrev pub Json : Type 0
Json = String

pub data Role : Type 0 where
  system user assistant tool : Role

pub record ChatMessage : Type 0 where
  pub role : Role
  pub content : String
  pub name : Option String
  pub tool_calls : Option Json
  pub tool_call_id : Option String

pub record ChatRequest : Type 0 where
  pub model : String
  pub messages : List ChatMessage
  pub max_tokens : Option ℕ
  pub temperature : Option Json
  pub top_p : Option Json
  pub stream : Bool
  pub tools : Option Json
  pub tool_choice : Option Json

pub record ChatChoice : Type 0 where
  pub index : ℕ
  pub message : ChatMessage
  pub finish_reason : Option String

pub record Usage : Type 0 where
  pub prompt_tokens : ℕ
  pub completion_tokens : ℕ
  pub total_tokens : ℕ

pub record ChatResponse : Type 0 where
  pub id : String
  pub object : String
  pub created : ℕ
  pub model : String
  pub choices : List ChatChoice
  pub usage : Option Usage

pub record ChunkChoice : Type 0 where
  pub delta_content : Option String

pub record ChatChunk : Type 0 where
  pub model : String
  pub choices : List ChunkChoice

pub record Resource : Type 0 where
  pub url : String
  pub method : String

pub record PaymentAccept : Type 0 where
  pub scheme : String
  pub network : String
  pub amount : String
  pub asset : String
  pub pay_to : String
  pub max_timeout_seconds : ℕ
  pub escrow_program_id : Option String

pub record CostBreakdown : Type 0 where
  pub provider_cost : String
  pub platform_fee : String
  pub total : String
  pub currency : String
  pub fee_percent : ℕ

pub record PaymentRequired : Type 0 where
  pub x402_version : ℕ
  pub resource : Resource
  pub accepts : List PaymentAccept
  pub cost_breakdown : CostBreakdown
  pub error : String

-- `PayloadData::Direct(SolanaPayload { transaction })`
pub data PayloadData : Type 0 where
  direct : String → PayloadData

pub record PaymentPayload : Type 0 where
  pub x402_version : ℕ
  pub resource : Resource
  pub accepted : PaymentAccept
  pub payload : PayloadData

pub record ModelInfo : Type 0 where
  pub id : String
  pub provider : String
  pub input_cost_per_million : Json
  pub output_cost_per_million : Json
  pub context_window : ℕ

-- `SOLANA_NETWORK`, `USDC_MINT` and `X402_VERSION`
pub record Protocol : Type 0 where
  pub solana_network : String
  pub usdc_mint : String
  pub x402_version : ℕ
