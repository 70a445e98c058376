-- ===== src/Client/Safety.antt =====
-- The safety of the whole client of crates/solvela-client/src/client.rs: no action of it signs or
-- sends a payment that its configuration does not allow.
use solvela_client.Base.{
  String, List, [], ◌∷◌, ◌≡◌, inl, inr, Bool-cases, Option-cases, nat_eq, ◌==◌, false, true,
}
use solvela_client.Base.Outcome.{Outcome, Result, done, fail, panic, done-injective}
use solvela_client.Base.Exec.{Exec, lift, pure, ◌>>=◌, bind-post, if-post, Keeps, Keeps-bind}
use solvela_client.Protocol.{ChatRequest, ChatResponse, ChatChunk, PaymentRequired}
use solvela_client.Error.{ClientError}
use solvela_client.Config.{ClientConfig}
use solvela_client.Wallet.{Wallet}
use solvela_client.Cache.{LruCache}
use solvela_client.Net.{HttpResponse, World, send}
use solvela_client.Platform.{Platform}
use solvela_client.Handshake.{
  post, payment_signature, text, parse_402, sign_payment_for_402_with_amount, send_chat_request,
  sign_payment_for_402,
}
use solvela_client.Handshake.Safety.{
  IsSafe, IsClean, IsPayment, sign-IsSafe, sign-IsPayment, paid-IsClean,
}
use solvela_client.Handshake.Flows.{
  send_chat_request-IsSafe, retry_if_degraded-IsSafe, send-IsSafe, post-IsClean,
}
use solvela_client.Client.{SolvelaClient, Prepared, prepare, finish, fetch, chat, chat_url}
use solvela_client.Client.Stream.{stream_headers, open_stream, chat_stream}

module _ (p : Platform) (wallet : Wallet) (config : ClientConfig) where
  abbrev Safe : World → Type 0
  Safe = IsSafe p wallet config

  fetch-IsSafe : (req : ChatRequest) → Keeps Safe (fetch p wallet config req)
  unfolding fetch
  fetch-IsSafe req =
      Keeps-bind Safe (send_chat_request p wallet config (chat_url config) req) _
        (send_chat_request-IsSafe p wallet config (chat_url config) req)
        (λ (response, paid) v s.
          if-post (λ _ u. Safe u) config.enable_quality_check _ (pure response) v
            (λ _. retry_if_degraded-IsSafe p wallet config (chat_url config) req response paid v s)
            (λ _. s))

  pub sign_402-IsPayment :
      (pr : PaymentRequired) (w : World)
      → Safe w
      → Safe (sign_payment_for_402 p wallet config pr w).1
        × ((header : String)
            → (sign_payment_for_402 p wallet config pr w).0 ≡ done header
            → IsPayment p wallet config header)
  unfolding sign_payment_for_402
  sign_402-IsPayment pr w safe =
      let signed = sign-IsSafe p wallet config pr w safe in
      bind-post Signed (sign_payment_for_402_with_amount p wallet config pr) _ w
        (λ (header, amount) e. (
          signed,
          λ header' h.
              let same : header ≡ header' = done-injective header header' h in
              rw same at (sign-IsPayment p wallet config pr w header amount e),
        ))
        (λ _ _. (signed, λ header h. cc)) (λ _. (signed, λ header h. cc))
    where
      Signed : Outcome ClientError String → World → Type 0
      Signed o v = Safe v × ((header : String) → o ≡ done header → IsPayment p wallet config header)

  -- The headers of a streaming request are clean, and so is the world after they are made.
  abbrev Ready : Outcome ClientError (List (String × String)) → World → Type 0
  Ready o w =
      Safe w
      × ((headers : List (String × String)) (url : String) (req : ChatRequest)
          → o ≡ done headers
          → IsClean p wallet config (post url headers req))

  stream_headers-Ready :
      (resp : HttpResponse) (w : World)
      → Safe w
      → Ready (stream_headers p wallet config resp w).0 (stream_headers p wallet config resp w).1
  unfolding stream_headers
  stream_headers-Ready resp w safe = elim (Bool-cases (resp.status == 200)) [
    | inl ok_status ↦ rw ok_status (safe, λ headers url req h. plain headers url req (cc h))
    | inr other ↦ elim (Bool-cases (resp.status == 402)) [
      | inl asked ↦
          rw (other, asked)
            (bind-post Ready (lift (text resp)) _ w
              (λ body _.
                bind-post Ready (lift (parse_402 p wallet config body)) _ w (λ pr _. pay pr) stopped
                  (λ _. halted))
              stopped (λ _. halted))
      | inr neither ↦ rw (other, neither) (safe, λ headers url req h. cc)
    ]
  ]
    where
      plain :
          (headers : List (String × String)) (url : String) (req : ChatRequest)
          → headers ≡ []
          → IsClean p wallet config (post url headers req)
      plain headers url req e = rw e (post-IsClean p wallet config url req)

      halted : Ready panic w
      halted = (safe, λ headers url req h. cc)

      stopped :
          {A : Type 0} {o : Outcome ClientError A} (e : ClientError) → o ≡ fail e → Ready (fail e) w
      stopped e _ = (safe, λ headers url req h. cc)

      pay :
          (pr : PaymentRequired)
          → let m : Exec World ClientError (List (String × String)) =
              sign_payment_for_402 p wallet config pr
              >>= (λ header. pure ((payment_signature, header) ∷ [])) in
            Ready (m w).0 (m w).1
      pay pr =
          let (signed, payment) = sign_402-IsPayment pr w safe in
          bind-post Ready (sign_payment_for_402 p wallet config pr) _ w
            (λ header e. (
              signed,
              λ headers url req h.
                  let made = (payment_signature, header) ∷ [] in
                  let same : made ≡ headers = done-injective made headers h in
                  rw⁻¹ same (paid-IsClean p wallet config url header req (payment header e)),
            ))
            (λ x _. (signed, λ headers url req h. cc)) (λ _. (signed, λ headers url req h. cc))

  pub open_stream-IsSafe : (req : ChatRequest) → Keeps Safe (open_stream p wallet config req)
  unfolding open_stream
  open_stream-IsSafe req w safe =
      let probe = post (chat_url config) [] (record req { stream = false }) in
      let sent =
        send-IsSafe p wallet config ClientError.network probe
          (post-IsClean p wallet config (chat_url config) (record req { stream = false })) w safe in
      bind-post Q (send ClientError.network p.net probe) _ w
        (λ resp _.
          let (ready, clean) = stream_headers-Ready resp _ sent in
          bind-post Q (stream_headers p wallet config resp) _ _
            (λ headers e.
              let request = post (chat_url config) headers (record req { stream = true }) in
              let streamed =
                send-IsSafe p wallet config ClientError.network request
                  (clean headers (chat_url config) (record req { stream = true }) e) _ ready in
              bind-post Q (send ClientError.network p.net request) _ _ (λ stream_resp _. streamed)
                (λ _ _. streamed) (λ _. streamed))
            (λ _ _. ready) (λ _. ready))
        (λ _ _. sent) (λ _. sent)
    where
      Q : Outcome ClientError (List (Result ClientError ChatChunk)) → World → Type 0
      Q o v = Safe v

module _ (L : LruCache) (p : Platform) where
  finish-IsSafe :
      (prepared : Prepared L) (wallet : Wallet) (config : ClientConfig)
      (r : Outcome ClientError ChatResponse × World)
      → IsSafe p wallet config r.1
      → IsSafe p wallet config (finish L p prepared r).2
  unfolding finish
  finish-IsSafe prepared wallet config (done response, w) safe = safe
  finish-IsSafe prepared wallet config (fail e, w) safe = safe
  finish-IsSafe prepared wallet config (panic, w) safe = safe

  -- Whatever the servers answer and whatever the cache and the sessions hold, a chat and a streaming
  -- chat keep this: every transfer that the key has signed was built for a supported offer, to the
  -- expected recipient if there is one, for its amount, which is within the cap if there is one;
  -- and every payment header that has left the program encodes such a transfer, signed.
  pub chat-IsSafe :
      (req : ChatRequest) (client : SolvelaClient L) (w : World)
      → IsSafe p client.wallet client.config w
      → IsSafe p client.wallet client.config (chat L p req client w).2
        × IsSafe p client.wallet client.config (chat_stream L p req client w).2
  unfolding chat chat_stream
  chat-IsSafe req client w safe = (
    elim (Option-cases (prepare L p client req w.clock).cached) [
      | inl missed ↦
          rw (chat, missed)
            (finish-IsSafe (prepare L p client req w.clock) client.wallet client.config _
              (fetch-IsSafe p client.wallet client.config _ w safe))
      | inr (cached, hit) ↦ rw (chat, hit) safe
    ],
    open_stream-IsSafe p client.wallet client.config _ w safe,
  )
