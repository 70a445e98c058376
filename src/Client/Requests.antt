-- ===== src/Client/Requests.antt =====
-- How many requests one chat of crates/solvela-client/src/client.rs sends.
use solvela_client.Base.{
  ℕ, ◌+◌, ◌*◌, ◌≤◌, String, ◌≡◌, refl, arith, inl, inr, Option-cases, nat_eq, ◌==◌, List,
}
use solvela_client.Base.Outcome.{Outcome, done, fail, panic}
use solvela_client.Base.Exec.{pure, if-post}
use solvela_client.Protocol.{ChatRequest, ChatResponse}
use solvela_client.Error.{ClientError}
use solvela_client.Config.{ClientConfig}
use solvela_client.Wallet.{Wallet}
use solvela_client.Cache.{LruCache}
use solvela_client.Net.{HttpResponse, World, requests, send}
use solvela_client.Platform.{Platform}
use solvela_client.Handshake.{
  text, parse_402, sign_payment_for_402_with_amount, send_chat_request, retry_if_degraded,
  sign_payment_for_402,
}
use solvela_client.Client.{SolvelaClient, Prepared, prepare, finish, fetch, chat, chat_url}
use solvela_client.Client.Stream.{stream_headers, open_stream, chat_stream}
use solvela_client.Handshake.Requests.{
  Sends, Sends-bind, Sends-lift, send-Sends, sign-Sends, send_chat_request-Sends, retry_loop-Sends,
}

module _ (p : Platform) (wallet : Wallet) (config : ClientConfig) where
  abbrev chat_bound : ℕ
  chat_bound = 3 + 3 * config.max_quality_retries

  fetch-Sends : (req : ChatRequest) → Sends chat_bound (fetch p wallet config req)
  unfolding fetch retry_if_degraded
  fetch-Sends req =
      let retries = 3 * config.max_quality_retries in
      Sends-bind 3 retries (send_chat_request p wallet config (chat_url config) req) _
        (send_chat_request-Sends p wallet config (chat_url config) req)
        (λ (response, paid) w.
          if-post (λ _ v. requests v ≤ requests w + 11 * retries) config.enable_quality_check _
            (pure response) w
            (λ _.
              retry_loop-Sends p wallet config config.max_quality_retries (chat_url config) req
                response paid w)
            (λ _. omega arith))

  stream_headers-Sends : (resp : HttpResponse) → Sends 1 (stream_headers p wallet config resp)
  unfolding stream_headers sign_payment_for_402
  stream_headers-Sends resp w =
      let Q = λ (_ : Outcome ClientError (List (String × String))) (v : World).
        requests v ≤ requests w + 11 * 1 in
      if-post Q (resp.status == 200) _ _ w (λ _. omega arith)
        (λ _.
          if-post Q (resp.status == 402) _ _ w
            (λ _.
              Sends-lift 1 (text resp) _
                (λ body. Sends-lift 1 (parse_402 p wallet config body) _ (λ pr.
                  Sends-bind 1 0 (sign_payment_for_402 p wallet config pr) _
                    (Sends-bind 1 0 (sign_payment_for_402_with_amount p wallet config pr) _
                      (sign-Sends p wallet config pr) (λ (header, amount) v. omega arith))
                    (λ header v. omega arith)))
                w)
            (λ _. omega arith))

  open_stream-Sends : (req : ChatRequest) → Sends 3 (open_stream p wallet config req)
  unfolding open_stream
  open_stream-Sends req =
      Sends-bind 1 2 (send ClientError.network p.net _) _ (send-Sends _ p.net _) (λ resp.
        Sends-bind 1 1 (stream_headers p wallet config resp) _ (stream_headers-Sends resp)
          (λ headers.
            Sends-bind 1 0 (send ClientError.network p.net _) _ (send-Sends _ p.net _)
              (λ streamed v. omega arith)))

module _ (L : LruCache) (p : Platform) where
  finish-sent :
      (prepared : Prepared L) (r : Outcome ClientError ChatResponse × World)
      → (finish L p prepared r).2 ≡ r.1
  unfolding finish
  finish-sent prepared (done response, w) = refl
  finish-sent prepared (fail e, w) = refl
  finish-sent prepared (panic, w) = refl

  -- Whatever the servers answer, the redirects that the HTTP crate follows on its own included: a chat
  -- sends at most 33 requests, and 33 more for each quality retry that the configuration allows; a
  -- streaming chat sends at most 33. These are three calls of `send()` with ten redirects each.
  pub chat-sent :
      (req : ChatRequest) (client : SolvelaClient L) (w : World)
      → (requests (chat L p req client w).2
          ≤ requests w + 33 * (1 + client.config.max_quality_retries))
        × (requests (chat_stream L p req client w).2 ≤ requests w + 33)
  unfolding chat chat_stream
  chat-sent req client w = (
    elim (Option-cases (prepare L p client req w.clock).cached) [
      | inl missed ↦
          let prepared = prepare L p client req w.clock in
          let bound = fetch-Sends p client.wallet client.config prepared.request w in
          rw
            (
              chat,
              missed,
              finish-sent prepared (fetch p client.wallet client.config prepared.request w),
            )
            (omega (arith, bound))
      | inr (cached, hit) ↦ rw (chat, hit) (omega arith)
    ],
    open_stream-Sends p client.wallet client.config _ w,
  )
