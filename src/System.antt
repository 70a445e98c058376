-- ===== src/System.antt =====
-- A client of crates/solvela-client/src/client.rs together with the monitor of
-- crates/solvela-client/src/balance.rs that was given its `balance_state()`: the two share that
-- number. Calls of the client and rounds of the monitor happen in any order.
pub mod Invariant
pub mod Fallback
use solvela_client.Base.{ℕ, suc, ◌+◌, String}
use solvela_client.Protocol.{ChatRequest, PaymentRequired}
use solvela_client.Wallet.{Bytes}
use solvela_client.Cache.{LruCache}
use solvela_client.Net.{World}
use solvela_client.Platform.{Platform}
use solvela_client.Floats.{Floats}
use solvela_client.Balance.{BalanceMonitor, Watch, poll}
use solvela_client.Handshake.{sign_payment_for_402}
use solvela_client.Client.{SolvelaClient, chat}
use solvela_client.Client.Stream.{chat_stream}
use solvela_client.Client.Queries.{models, estimate_cost}
use solvela_client.Client.Funds.{usdc_balance_of}

module _ (F : Floats) (L : LruCache) where
  -- The number that both share is the client's; the one in `watch` is the monitor's last copy.
  pub record System : Type 0 where
    pub client : SolvelaClient L
    pub watch : Watch F
    pub world : World

module _ (F : Floats) (L : LruCache) (p : Platform) (m : BalanceMonitor F) (ata : Bytes) where
  unfoldable pub chatted : ChatRequest → System F L → System F L
  unfolding chat
  chatted req s = let r = chat L p req s.client s.world in record s { client = r.1; world = r.2 }

  unfoldable pub streamed : ChatRequest → System F L → System F L
  unfolding chat_stream
  streamed req s =
      let r = chat_stream L p req s.client s.world in record s { client = r.1; world = r.2 }

  -- The caller does with the header what it likes; a request that it sends is not one of the client's.
  unfoldable pub signed : PaymentRequired → System F L → System F L
  unfolding sign_payment_for_402
  signed pr s = record s {
    world = (sign_payment_for_402 p s.client.wallet s.client.config pr s.world).1;
  }

  -- A round of the monitor, on the shared number.
  unfoldable pub ticked : ℕ → System F L → System F L
  unfolding poll
  ticked wait s =
      let r =
        poll F p m ata wait (record s.watch { balance_state = s.client.balance_state }, s.world) in
      record {
        client = record s.client { balance_state = r.0.balance_state };
        watch = r.0;
        world = r.1;
      }

  unfoldable pub listed : System F L → System F L
  unfolding models
  listed s = record s { world = (models p s.client.config s.world).1 }

  unfoldable pub estimated : String → System F L → System F L
  unfolding estimate_cost
  estimated model s = record s {
    world = (estimate_cost p s.client.wallet s.client.config model s.world).1;
  }

  unfoldable pub asked : String → System F L → System F L
  unfolding usdc_balance_of
  asked owner s = record s { world = (usdc_balance_of F p s.client.config owner s.world).1 }

  unfoldable pub waited : ℕ → System F L → System F L
  waited time s = record s { world = record s.world { clock = s.world.clock + time } }

  -- The steps that never pay.
  pub data Quiet : System F L → System F L → Type 0 where
    tick : (wait : ℕ) (s : System F L) → Quiet s (ticked wait s)
    list : (s : System F L) → Quiet s (listed s)
    estimate : (model : String) (s : System F L) → Quiet s (estimated model s)
    ask : (owner : String) (s : System F L) → Quiet s (asked owner s)
    wait : (time : ℕ) (s : System F L) → Quiet s (waited time s)

  -- The steps that may pay.
  pub data Chats : System F L → System F L → Type 0 where
    call : (req : ChatRequest) (s : System F L) → Chats s (chatted req s)
    stream : (req : ChatRequest) (s : System F L) → Chats s (streamed req s)
    sign : (pr : PaymentRequired) (s : System F L) → Chats s (signed pr s)

  -- The states that are reached from `s`, by the number of the steps that may pay.
  pub data Run (s : System F L) : ℕ → System F L → Type 0 where
    start : Run s 0 s
    quiet : (n : ℕ) (t u : System F L) → Run s n t → Quiet t u → Run s n u
    chats : (n : ℕ) (t u : System F L) → Run s n t → Chats t u → Run s (suc n) u
