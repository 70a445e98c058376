-- ===== src/Net.antt =====
-- The world outside the program: a clock, the servers that are called over HTTP, and the uses of
-- the wallet's key. The servers are a parameter, a function from all requests sent so far to the
-- next answer, so that a theorem holds whatever they answer. Time passes while an answer is awaited.
use solvela_client.Base.{ℕ, ◌+◌, String, Bool, ◌&&◌, List, ◌∷◌, leb, ltb, length, min}
use solvela_client.Base.Outcome.{Result, try}
use solvela_client.Base.Exec.{Exec}
use solvela_client.Wallet.{Bytes}
use solvela_client.Protocol.{ChatRequest}
use solvela_client.Error.{NetError}

-- The body of a request: none, a chat request as JSON, a JSON-RPC call, or raw bytes.
pub data Payload : Type 0 where
  no_body : Payload
  chat : ChatRequest → Payload
  rpc : String → List String → Payload
  raw : Bytes → Payload

pub record HttpRequest : Type 0 where
  pub method : String
  pub url : String
  pub headers : List (String × String)
  pub payload : Payload

-- `body` is what `text()` gives, and `events` what the crate `eventsource_stream` makes of the
-- body: the data of each event, or the text of an error.
pub record HttpResponse : Type 0 where
  pub status : ℕ
  pub headers : List (String × String)
  pub body : Result NetError String
  pub events : List (Result String String)

-- What the servers do with one `send()`: the time they take, the redirects they give, and the answer
-- in the end.
pub record Answer : Type 0 where
  pub delay : ℕ
  pub redirects : ℕ
  pub reply : Result NetError HttpResponse

-- The arguments of `spl_token::instruction::transfer_checked`.
pub record Transfer : Type 0 where
  pub source : Bytes
  pub mint : Bytes
  pub destination : Bytes
  pub authority : Bytes
  pub amount : ℕ
  pub decimals : ℕ

-- `sent` and `signed` hold the last entry first: the requests that the program gave to `send()`, and
-- the transfers for which the wallet's key signed a transaction. `redirected` counts the requests that
-- the crate `reqwest` has sent on its own, to follow a redirect: each is made from the one before, with no
-- payment header that it did not have.
pub record World : Type 0 where
  pub clock : ℕ
  pub sent : List HttpRequest
  pub redirected : ℕ
  pub signed : List Transfer

abbrev pub Servers : Type 0
Servers = List HttpRequest → Answer

-- `StatusCode::is_success`
abbrev pub is_success : ℕ → Bool
is_success status = leb 200 status && ltb status 300

-- No client sets a redirect policy; the crate's own follows this many redirects of one request.
abbrev pub max_redirects : ℕ
max_redirects = 10

-- The requests that have left the program.
abbrev pub requests : World → ℕ
requests w = length w.sent + w.redirected

-- `send().await`
unfoldable pub exchange : Servers → HttpRequest → World → Result NetError HttpResponse × World
exchange net request w =
    let answer = net (request ∷ w.sent) in
    (
      answer.reply,
      record w {
        clock = w.clock + answer.delay;
        sent = request ∷ w.sent;
        redirected = w.redirected + min max_redirects answer.redirects;
      },
    )

-- The same, with what the caller makes of an error.
unfoldable pub send {ℓ} :
    {E : Type ℓ} → (NetError → E) → Servers → HttpRequest → Exec World E HttpResponse
unfolding exchange
send f net request w = (try f (exchange net request w).0, (exchange net request w).1)
