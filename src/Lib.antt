-- ===== src/Lib.antt =====
-- A model of the Solvela client: a Rust library that chats with a gateway and pays it with USDC on
-- Solana by the x402 handshake, and a proxy that adds the payments to the requests of another
-- program.
--
-- The parts, and the files that model them:
-- - Config: crates/solvela-client/src/config.rs. `ClientConfig` and the builder; one call of a
--   setter is a `Setting`, applied by `set`.
-- - Wallet: crates/solvela-client/src/wallet.rs, over the crates for keys, mnemonics and base58.
-- - Session: crates/solvela-client/src/session.rs. `get_or_create` holds a read lock and then a
--   write lock; what it does under the write lock is `create`.
-- - Cache: crates/solvela-client/src/cache.rs, over an interface for the crate `lru`, whose laws
--   and a list that obeys them are in Cache/Lru.
-- - Quality: crates/solvela-client/src/quality.rs, the detection of degraded answers.
-- - Error: crates/solvela-client/src/error.rs.
-- - Payment and Signer: crates/solvela-client/src/signer.rs. Payment has what is computed, Signer
--   what acts on the world.
-- - Handshake: in crates/solvela-client/src/client.rs the methods that pay, from
--   `sign_payment_for_402` to `retry_if_degraded`.
-- - Client: the rest of crates/solvela-client/src/client.rs: `new` and `chat` in Client,
--   `chat_stream` in Client/Stream, `models` and `estimate_cost` in Client/Queries, the queries of
--   balances in Client/Funds.
-- - Balance: crates/solvela-client/src/balance.rs, the monitor that polls the balance.
-- - System: a client and its monitor together. Both run on the shared balance and the world; a step
--   is one call of the client or one round of the monitor.
-- - Proxy: crates/solvela-client-proxy/src/proxy.rs, with the router and its limit of a body's size in
--   Proxy/Router, and its start in Proxy/Startup, from
--   crates/solvela-client-proxy/src/main.rs.
-- - KeyFile: crates/solvela-client-cli-args/src/lib.rs, where the programs keep the wallet's key.
-- - Cli: crates/solvela-client-cli/src/main.rs and commands/: Cli/Wallets, Cli/Models, Cli/Doctor and
--   Cli/Chats have a command each, Cli/Main the choice of one and the exit status. A command acts on
--   a shell: the files, the lines that are typed, what has been written, and the world.
--
-- Base and Text are the shared types, the standard library's strings, sorting and number parsing, and
-- their lemmas. Protocol has the wire types. Net has the world: a clock, all requests sent, and all
-- transfers that the wallet's key has signed; the servers are a function of the requests sent so
-- far, so a theorem holds for every behaviour of theirs. Platform collects what is not in the
-- repository: protocol constants, key and Solana crates, JSON, Unicode tables, hashers, servers.
-- Floats is the language's floating-point numbers, a parameter with laws. Tests has a concrete
-- platform and runs the theorems on it.
--
-- An action of the client is a function from a state to an outcome and a state. An outcome is a
-- value, an error or a panic. A chat prepares its request (balance, session, cache), acts on the
-- world through the handshake, and then stores what it learned, as the method's six steps do. The
-- client's other tasks do not run between the steps of one chat; a session's race between two
-- tasks is stated of the two steps of `get_or_create`. The monitor's loop has no end: it is modelled
-- by what it has done after any number of rounds with any time between them.
--
-- The HTTP crate follows redirects on its own, by default ten for one request, and no client changes
-- that. The log of requests has what the program gives to `send()`; the requests that are sent again
-- after a redirect are counted beside it, and the bounds on requests include them.
--
-- Numbers: u64 values are natural numbers with their wrap-around or saturation written out; the
-- parser of amounts rejects what does not fit. Instants and durations are in nanoseconds. No
-- definition runs on fuel: the retries count down `max_quality_retries`, the rest is structural.
--
-- Not modelled: parsing the command line, logging, binding a port and the HTTP server's own loop,
-- which are libraries; the formatting of `Debug`; a failure to write to an output.
pub mod Base
pub mod Text
pub mod Protocol
pub mod Error
pub mod Config
pub mod Session
pub mod System
pub mod Quality
pub mod Cache
pub mod Wallet
pub mod Net
pub mod Payment
pub mod Signer
pub mod Platform
pub mod Handshake
pub mod Client
pub mod Cli
pub mod Tests
pub mod Proxy
pub mod KeyFile
pub mod Floats
pub mod Balance
