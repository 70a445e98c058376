-- ===== src/Client/Stream.antt =====
-- crates/solvela-client/src/client.rs: the streaming chat, and the stream of chunks that it returns.
use solvela_client.Base.{
  ℕ, String, ◌<>◌, true, false, List, [], ◌∷◌, ◌==◌, nat_eq, string_eq, if◌then◌else◌,
}
use solvela_client.Base.Outcome.{Outcome, Result, ok, err, done, fail}
use solvela_client.Base.Exec.{Exec, pure, raise, lift, ◌>>=◌}
use solvela_client.Text.{trim}
use solvela_client.Protocol.{ChatRequest, ChatChunk}
use solvela_client.Error.{ClientError}
use solvela_client.Config.{ClientConfig}
use solvela_client.Cache.{LruCache}
use solvela_client.Wallet.{Wallet}
use solvela_client.Net.{HttpResponse, World, is_success, send}
use solvela_client.Platform.{Platform}
use solvela_client.Handshake.{
  post, payment_signature, text, text_or_default, parse_402, sign_payment_for_402,
}
use solvela_client.Client.{SolvelaClient, chat_url, balance_guard, session_lookup, record_session}

-- One event of the stream.
unfoldable pub read_chunk :
    (String → Result String ChatChunk) → String → Result ClientError ChatChunk
read_chunk parse event = elim (parse event) [
  | err e ↦ err (ClientError.stream_error ("failed to parse SSE chunk: " <> e))
  | ok chunk ↦ ok chunk
]

-- The stream, as the list of the items that `unfold` yields from the events.
unfoldable pub read_events :
    (String → Result String ChatChunk)
    → List (Result String String)
    → List (Result ClientError ChatChunk)
unfolding string_eq
read_events parse [] = []
read_events parse (err e ∷ rest) =
    err (ClientError.stream_error ("SSE error: " <> e)) ∷ read_events parse rest
read_events parse (ok event ∷ rest) =
    let later = read_events parse rest in
    if trim event == "[DONE]" then [] else read_chunk parse (trim event) ∷ later

module _ (p : Platform) (wallet : Wallet) (config : ClientConfig) where
  -- The headers of the streaming request: a payment if the probe was answered with 402.
  unfoldable pub stream_headers : HttpResponse → Exec World ClientError (List (String × String))
  unfolding nat_eq
  stream_headers probe_resp =
      if probe_resp.status == 200
      then pure []
      else if probe_resp.status == 402
      then (do
        body ← lift (text probe_resp)
        payment_required ← lift (parse_402 p wallet config body)
        payment_header ← sign_payment_for_402 p wallet config payment_required
        pure ((payment_signature, payment_header) ∷ []))
      else raise (ClientError.gateway probe_resp.status (text_or_default probe_resp))

  unfoldable pub open_events :
      HttpResponse → Outcome ClientError (List (Result ClientError ChatChunk))
  open_events stream_resp =
      if is_success stream_resp.status
      then done (read_events p.serde.chat_chunk stream_resp.events)
      else fail (ClientError.gateway stream_resp.status (text_or_default stream_resp))

  -- From the probe on.
  unfoldable pub open_stream :
      ChatRequest → Exec World ClientError (List (Result ClientError ChatChunk))
  open_stream req = do
    probe_resp ←
        send ClientError.network p.net (post (chat_url config) [] (record req { stream = false }))
    headers ← stream_headers probe_resp
    stream_resp ←
        send ClientError.network p.net
          (post (chat_url config) headers (record req { stream = true }))
    lift (open_events stream_resp)

module _ (L : LruCache) where
  -- The effective request, and the client with its session looked up and recorded.
  unfoldable pub prepare_stream :
      Platform → SolvelaClient L → ChatRequest → ℕ → ChatRequest × SolvelaClient L
  prepare_stream p client req now =
      let guarded = balance_guard client.config client.balance_state req in
      let session = session_lookup p.sip client.session_store guarded.0 guarded.1 now in
      (
        session.1,
        record client { session_store = record_session p.ahash session.0 session.2 session.1 },
      )

  unfoldable pub chat_stream :
      Platform
      → ChatRequest
      → SolvelaClient L
      → World
      → Outcome ClientError (List (Result ClientError ChatChunk)) × SolvelaClient L × World
  chat_stream p req client w =
      let prepared = prepare_stream p client req w.clock in
      let opened = open_stream p client.wallet client.config prepared.0 w in
      (opened.0, prepared.1, opened.1)
