-- ===== src/System/Invariant.antt =====
-- What holds in every state of a client with its monitor, whatever the servers answer and in whatever
-- order the two run.
use solvela_client.Base.{
  ℕ, suc, ◌+◌, ◌*◌, ◌≤◌, ◌<◌, ◌≡◌, refl, inl, inr, some, arith, Option-cases, ◌∙◌,
}
use solvela_client.Base.Outcome.{Outcome, done, fail, panic}
use solvela_client.Text.Digits.{u64_max}
use solvela_client.Error.{ClientError}
use solvela_client.Wallet.{Bytes}
use solvela_client.Net.{World, exchange}
use solvela_client.Platform.{Platform}
use solvela_client.Handshake.Safety.{IsSafe}
use solvela_client.Handshake.Budget.{spent}
use solvela_client.Handshake.Requests.{exchange-requests}
use solvela_client.Cache.{LruCache}
use solvela_client.Floats.{Floats}
use solvela_client.Client.{SolvelaClient, Prepared, prepare, chat, finish, settle}
use solvela_client.Client.Stream.{chat_stream, prepare_stream}
use solvela_client.Client.Safety.{chat-IsSafe, sign_402-IsPayment}
use solvela_client.Client.Spending.{chat-Ends, sign_payment-spent}
use solvela_client.Balance.{BalanceMonitor, fetch_balance, poll}
use solvela_client.Protocol.{ChatRequest, ChatResponse}
use solvela_client.Client.Unpaid.{
  Unpaid, IsSafe-of_Unpaid, spent-of_Unpaid, models-Unpaid, estimate_cost-Unpaid,
  usdc_balance_of-Unpaid,
}
use solvela_client.System.{
  System, chatted, streamed, signed, ticked, listed, estimated, asked, waited, Quiet, Chats, Run,
}

module _ (L : LruCache) where
  -- The wallet and the configuration of a client are kept.
  abbrev pub Same : SolvelaClient L → SolvelaClient L → Type 0
  Same a b = (b.wallet ≡ a.wallet) × (b.config ≡ a.config)

module _ (L : LruCache) (p : Platform) where
  finish-Same :
      (client : SolvelaClient L) (prepared : Prepared L)
      (r : Outcome ClientError ChatResponse × World)
      → Same L client prepared.client
      → Same L client (finish L p prepared r).1
  unfolding finish settle
  finish-Same client prepared (done response, w) same = same
  finish-Same client prepared (fail e, w) same = same
  finish-Same client prepared (panic, w) same = same

  chat-Same :
      (req : ChatRequest) (client : SolvelaClient L) (w : World)
      → Same L client (chat L p req client w).1
  unfolding chat prepare
  chat-Same req client w = elim (Option-cases (prepare L p client req w.clock).cached) [
    | inl missed ↦
        rw (chat, missed) (finish-Same client (prepare L p client req w.clock) _ (refl, refl))
    | inr (cached, hit) ↦ rw (chat, hit) (refl, refl)
  ]

  chat_stream-Same :
      (req : ChatRequest) (client : SolvelaClient L) (w : World)
      → Same L client (chat_stream L p req client w).1
  unfolding chat_stream prepare_stream
  chat_stream-Same req client w = (refl, refl)

module _ (F : Floats) (L : LruCache) (p : Platform) (m : BalanceMonitor F) (ata : Bytes) where
  Quiet-Unpaid :
      (s t : System F L) → Quiet F L p m ata s t → Same L s.client t.client × Unpaid s.world t.world
  unfolding ticked listed estimated asked waited poll fetch_balance exchange
  Quiet-Unpaid _ _ (Quiet.tick wait s) = (
    (refl, refl),
    record {
      signed = refl;
      sent = inr (_, refl, refl);
      few = exchange-requests p.net _ (record s.world { clock = s.world.clock + wait });
    },
  )
  Quiet-Unpaid _ _ (Quiet.list s) = ((refl, refl), models-Unpaid p s.client.config s.world)
  Quiet-Unpaid _ _ (Quiet.estimate model s) =
      ((refl, refl), estimate_cost-Unpaid p s.client.wallet s.client.config model s.world)
  Quiet-Unpaid _ _ (Quiet.ask owner s) =
      ((refl, refl), usdc_balance_of-Unpaid F p s.client.config owner s.world)
  Quiet-Unpaid _ _ (Quiet.wait time s) =
      ((refl, refl), record { signed = refl; sent = inl refl; few = omega arith })

  Chats-Same : (s t : System F L) → Chats F L p m ata s t → Same L s.client t.client
  unfolding chatted streamed signed
  Chats-Same _ _ (Chats.call req s) = chat-Same L p req s.client s.world
  Chats-Same _ _ (Chats.stream req s) = chat_stream-Same L p req s.client s.world
  Chats-Same _ _ (Chats.sign pr s) = (refl, refl)

  Chats-IsSafe :
      (s t : System F L)
      → Chats F L p m ata s t
      → IsSafe p s.client.wallet s.client.config s.world
      → IsSafe p s.client.wallet s.client.config t.world
  unfolding chatted streamed signed
  Chats-IsSafe _ _ (Chats.call req s) safe = (chat-IsSafe L p req s.client s.world safe).0
  Chats-IsSafe _ _ (Chats.stream req s) safe = (chat-IsSafe L p req s.client s.world safe).1
  Chats-IsSafe _ _ (Chats.sign pr s) safe =
      (sign_402-IsPayment p s.client.wallet s.client.config pr s.world safe).0

  Chats-spent :
      (s t : System F L) (max : ℕ)
      → Chats F L p m ata s t
      → s.client.config.max_payment_amount ≡ some max
      → max < u64_max
      → spent t.world ≤ spent s.world + 2 * max
  unfolding chatted streamed signed
  Chats-spent _ _ max (Chats.call req s) capped small =
      (chat-Ends L p req s.client s.world max capped small).1
  Chats-spent _ _ max (Chats.stream req s) capped small =
      let bound = (chat-Ends L p req s.client s.world max capped small).2 in omega (arith, bound)
  Chats-spent _ _ max (Chats.sign pr s) capped small =
      let bound = sign_payment-spent p s.client.wallet s.client.config max capped pr s.world in
      omega (arith, bound)

  Run-Same : (s t : System F L) (n : ℕ) → Run F L p m ata s n t → Same L s.client t.client
  Run-Same s _ _ Run.start = (refl, refl)
  Run-Same s _ _ (Run.quiet n t u run step) =
      let (w, c) = Run-Same s t n run in
      let (w', c') = (Quiet-Unpaid t u step).0 in (w' ∙ w, c' ∙ c)
  Run-Same s _ _ (Run.chats n t u run step) =
      let (w, c) = Run-Same s t n run in let (w', c') = Chats-Same t u step in (w' ∙ w, c' ∙ c)

  -- In every state that a client and its monitor reach by any calls of the client, `sign_payment_for_402`
  -- included, and rounds of the monitor, in any order: the client has the wallet and the configuration it began with; and if at
  -- the start all that was signed was allowed by the configuration and all payment headers that had
  -- been sent were payments so allowed, this still holds.
  pub Run-IsSafe :
      (s t : System F L) (n : ℕ)
      → Run F L p m ata s n t
      → IsSafe p s.client.wallet s.client.config s.world
      → Same L s.client t.client × IsSafe p s.client.wallet s.client.config t.world
  Run-IsSafe s _ n Run.start safe = ((refl, refl), safe)
  Run-IsSafe s _ _ (Run.quiet n t u run step) safe = (
    Run-Same s u _ (Run.quiet n t u run step),
    IsSafe-of_Unpaid p s.client.wallet s.client.config t.world u.world (Quiet-Unpaid t u step).1
        (Run-IsSafe s t n run safe).1,
  )
  Run-IsSafe s _ _ (Run.chats n t u run step) safe =
      let ((w, c), before) = Run-IsSafe s t n run safe in
      (
        Run-Same s u _ (Run.chats n t u run step),
        rw (← w, ← c) (Chats-IsSafe t u step (rw (w, c) before)),
      )

  -- With a payment cap below the largest 64-bit number: a client and its monitor that have made `n`
  -- chats, streaming chats and calls of `sign_payment_for_402`, with any queries and rounds between
  -- them, have signed transfers of at most `2 * n` times the cap in all.
  pub Run-spent :
      (s t : System F L) (n max : ℕ)
      → Run F L p m ata s n t
      → s.client.config.max_payment_amount ≡ some max
      → max < u64_max
      → spent t.world ≤ spent s.world + 2 * n * max
  Run-spent s _ _ max Run.start capped small = omega arith
  Run-spent s _ _ max (Run.quiet n t u run step) capped small =
      let before = Run-spent s t n max run capped small in
      let same = spent-of_Unpaid p t.world u.world (Quiet-Unpaid t u step).1 in
      omega (arith, before, same)
  Run-spent s _ _ max (Run.chats n t u run step) capped small =
      let before = Run-spent s t n max run capped small in
      let here = Chats-spent t u max step (rw (Run-Same s t n run).1 capped) small in
      sum n max (spent s.world) (spent t.world) (spent u.world) before here
    where
      sum : (n max a b c : ℕ) → b ≤ a + 2 * n * max → c ≤ b + 2 * max → c ≤ a + 2 * suc n * max
      sum n max a b c h k = omega arith
