-- ===== src/Platform.antt =====
-- What the client takes from outside the repository: the constants of the protocol crate, the crates
-- for keys, Solana and JSON, the Unicode tables, the two hashers, and the servers.
use solvela_client.Base.{ℕ, String, Option, List}
use solvela_client.Base.Outcome.{Result}
use solvela_client.Protocol.{Protocol, Role, ChatResponse, ChatChunk, PaymentRequired, ModelInfo}
use solvela_client.Wallet.{Crypto}
use solvela_client.Payment.{Solana}
use solvela_client.Quality.{Unicode}
use solvela_client.Net.{Servers}

-- `serde_json` at the types that the client reads and writes.
pub record Serde : Type 0 where
  pub chat_response : String → Result String ChatResponse
  pub payment_required : String → Result String PaymentRequired
  pub chat_chunk : String → Result String ChatChunk
  pub models : String → Result String (List ModelInfo)
  pub role_json : Role → Option String

pub record Platform : Type 0 where
  pub protocol : Protocol
  pub crypto : Crypto
  pub solana : Solana
  pub serde : Serde
  pub unicode : Unicode
  -- `AHasher` and `DefaultHasher`: the digest of the texts hashed in turn
  pub ahash : List String → ℕ
  pub sip : List String → ℕ
  pub net : Servers
