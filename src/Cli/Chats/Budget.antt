-- ===== src/Cli/Chats/Budget.antt =====
-- What the chat command of crates/solvela-client-cli/src/commands/chat.rs may spend.
use solvela_client.Base.{
  ℕ, ◌+◌, ◌≤◌, String, Bool, false, not, ◌&&◌, Option, none, some, List, [], ◌∷◌, ◌≡◌, refl, arith,
  unwrap_or, Option-cases, inl, inr, ◌≢◌,
}
use solvela_client.Base.Outcome.{Outcome, Result, ok, err, done, map_fail}
use solvela_client.Base.Exec.{lift, bind-post, if-post, Keeps, Keeps-bind, continue}
use solvela_client.Text.{is_empty}
use solvela_client.Protocol.{ChatChunk, ChatRequest, ChatResponse, ChunkChoice}
use solvela_client.Error.{ClientError}
use solvela_client.Config.{default_max_payment_amount_atomic, configure, set, build_config}
use solvela_client.Wallet.{Wallet}
use solvela_client.KeyFile.{WalletArgs, load_wallet}
use solvela_client.Net.{World}
use solvela_client.Platform.{Platform}
use solvela_client.Cache.{LruCache}
use solvela_client.Handshake.Safety.{IsSafe}
use solvela_client.Handshake.Budget.{spent}
use solvela_client.Client.{SolvelaClient, chat, new}
use solvela_client.Client.Stream.{chat_stream}
use solvela_client.Client.Safety.{chat-IsSafe}
use solvela_client.Client.Spending.{chat-Limited}
use solvela_client.Cli.{
  GatewayArgs, RpcArgs, Host, Shell, Command, flush_stdout, loaded, ClientConfig, explain,
}
use solvela_client.Cli.Chats.{
  chat_config, chat_request, on_client, print_choices, print_chunks, close_stream, print_stream,
  print_response, print_json, talk, run,
}

-- A command that only writes.
abbrev Writes : {A : Type 0} → Command A → Type 1
Writes m = (P : World → Type 0) → Keeps (λ (s : Shell). P s.world) m

module _ (host : Host) where
  print_choices-Writes : (choices : List ChunkChoice) → Writes (print_choices host choices)
  unfolding print_choices
  print_choices-Writes [] P s h = h
  print_choices-Writes (choice ∷ rest) P s h = elim (Option-cases choice.delta_content) [
    | inl silent ↦ rw silent (print_choices-Writes rest P s h)
    | inr (content, said) ↦ rw said (
        Keeps-bind (λ (t : Shell). P t.world) (flush_stdout host) _ (λ t k. k)
          (λ _. print_choices-Writes rest P) (record s { stdout = content ∷ s.stdout }) h)
  ]

  print_chunks-Writes :
      (chunks : List (Result ClientError ChatChunk)) (model_name : String)
      → Writes (print_chunks host model_name chunks)
  unfolding print_chunks
  print_chunks-Writes [] model_name P s h = h
  print_chunks-Writes (err e ∷ rest) model_name P s h = h
  print_chunks-Writes (ok chunk ∷ rest) model_name P s h =
      Keeps-bind (λ (t : Shell). P t.world) (print_choices host chunk.choices) _
        (print_choices-Writes chunk.choices P) (λ _. print_chunks-Writes rest _ P) s h

  print_stream-Writes :
      (stream : List (Result ClientError ChatChunk)) → Writes (print_stream host stream)
  unfolding print_stream
  print_stream-Writes stream P =
      Keeps-bind (λ (t : Shell). P t.world) (print_chunks host "" stream) (close_stream host)
        (print_chunks-Writes stream "" P)
        (λ model_name s h.
          if-post (λ _ (t : Shell). P t.world) (is_empty model_name) _ _ _ (λ _. h) (λ _. h))

  print_response-Writes : (resp : ChatResponse) → Writes (print_response host resp)
  unfolding print_response
  print_response-Writes resp P s h = ground arith

  print_json-Writes : (resp : ChatResponse) → Writes (print_json host resp)
  unfolding print_json
  print_json-Writes resp P s h =
      Keeps-bind (λ (t : Shell). P t.world) (lift _) _ (λ t k. k) (λ output t k. k) s h

-- The cap: the one that was given, or the default.
abbrev pub cap : Option ℕ → ℕ
cap max_payment = unwrap_or max_payment default_max_payment_amount_atomic

chat_config-cap :
    (gateway_args : GatewayArgs) (rpc_args : RpcArgs) (max_payment : Option ℕ)
    → let config = chat_config gateway_args rpc_args max_payment in
      (config.max_payment_amount ≡ some (cap max_payment)) × (config.enable_quality_check ≡ false)
unfolding configure set build_config
chat_config-cap gateway_args rpc_args none = (refl, refl)
chat_config-cap gateway_args rpc_args (some max) = (refl, refl)

module _ (L : LruCache) (p : Platform) (host : Host) where
  -- Between two worlds: no payment that the configuration forbids, and at most the cap spent.
  abbrev pub Kept : SolvelaClient L → ℕ → World → World → Type 0
  Kept client max v w = IsSafe p client.wallet client.config w × (spent w ≤ spent v + max)

  talk-Kept :
      (no_stream : Bool) (req : ChatRequest) (client : SolvelaClient L) (max : ℕ) (s : Shell)
      → client.config.max_payment_amount ≡ some max
      → client.config.enable_quality_check ≡ false
      → IsSafe p client.wallet client.config s.world
      → Kept client max s.world (talk L p host no_stream req client s).1.world
  unfolding talk
  talk-Kept no_stream req client max s capped unchecked safe =
      let (called, streamed) = chat-Limited L p req client s.world max capped unchecked in
      let (called_safe, streamed_safe) = chat-IsSafe L p req client s.world safe in
      if-post Q (host.stdout_is_terminal && not no_stream) _ _ s
        (λ _.
          bind-post Q (on_client _ (chat_stream L p req client)) (print_stream host) s
            (λ stream _. print_stream-Writes host stream P _ (streamed_safe, streamed))
            (λ _ _. (streamed_safe, streamed)) (λ _. (streamed_safe, streamed)))
        (λ _.
          if-post Q host.stdout_is_terminal _ _ s
            (λ _.
              bind-post Q (on_client _ (chat L p req client)) (print_response host) s
                (λ resp _. print_response-Writes host resp P _ (called_safe, called))
                (λ _ _. (called_safe, called)) (λ _. (called_safe, called)))
            (λ _.
              bind-post Q (on_client _ (chat L p req client)) (print_json host) s
                (λ resp _. print_json-Writes host resp P _ (called_safe, called))
                (λ _ _. (called_safe, called)) (λ _. (called_safe, called))))
    where
      P : World → Type 0
      P = Kept client max s.world

      Q : Outcome String (Unit {0}) → Shell → Type 0
      Q _ t = P t.world

  opened-Kept :
      (built : Option String) (w : Wallet) (config : ClientConfig) (max : ℕ) (no_stream : Bool)
      (req : ChatRequest) (s : Shell)
      → config.max_payment_amount ≡ some max
      → config.enable_quality_check ≡ false
      → IsSafe p w config s.world
      → let opened : Outcome String (SolvelaClient L) =
          map_fail (explain host "failed to create client: ") (new L built w config) in
        let t = (continue opened (talk L p host no_stream req) s).1 in
        IsSafe p w config t.world × (spent t.world ≤ spent s.world + max)
  unfolding new
  opened-Kept none w config max no_stream req s capped unchecked safe =
      talk-Kept no_stream req _ max s capped unchecked safe
  opened-Kept (some e) w config max no_stream req s capped unchecked safe = (safe, omega arith)

  -- However a chat command ends and whatever the servers answer: if all that was signed and sent
  -- before is allowed by its configuration for its wallet, so is all that is signed and sent after
  -- it, and its own transfers come to at most the cap in all, which is `--max-payment`, or the
  -- default where that is not given; and if no wallet can be loaded, it has done nothing to the
  -- world.
  pub run-Kept :
      (prompt model : String) (no_stream : Bool) (max_payment : Option ℕ) (wallet_args : WalletArgs)
      (gateway_args : GatewayArgs) (rpc_args : RpcArgs) (s : Shell)
      → let config = chat_config gateway_args rpc_args max_payment in
        let after =
          run L p host prompt model no_stream max_payment wallet_args gateway_args rpc_args s in
        ((w : Wallet)
          → load_wallet p.crypto host.os s.files wallet_args ≡ done w
          → IsSafe p w config s.world
          → IsSafe p w config after.1.world
            × (spent after.1.world ≤ spent s.world + cap max_payment))
        × (((w : Wallet) → load_wallet p.crypto host.os s.files wallet_args ≢ done w)
            → after.1.world ≡ s.world)
  unfolding run
  run-Kept prompt model no_stream max_payment wallet_args gateway_args rpc_args s = (
    λ w found safe.
        let (capped, unchecked) = chat_config-cap gateway_args rpc_args max_payment in
        rw found (
          opened-Kept host.http_built w (chat_config gateway_args rpc_args max_payment)
            (cap max_payment) no_stream (chat_request prompt model) s capped unchecked safe),
    λ missing.
        bind-post (λ (_ : Outcome String (Unit {0})) (t : Shell). t.world ≡ s.world)
          (loaded p host wallet_args) _ s (λ w found. absurd (missing w found)) (λ _ _. refl)
          (λ _. refl),
  )
