-- ===== src/Client/Model.antt =====
-- The request that a chat of crates/solvela-client/src/client.rs sends: which model it asks for.
use solvela_client.Base.{
  ℕ, String, Bool, true, false, Option, none, some, List, ◌≡◌, refl, arith, ◌==◌, nat_eq,
  if◌then◌else◌, or_option, unwrap_or,
}
use solvela_client.Protocol.{ChatRequest}
use solvela_client.Config.{ClientConfig}
use solvela_client.Session.{SessionStore, find_live, create, get_or_create, derive_session_id}
use solvela_client.Cache.{LruCache}
use solvela_client.Platform.{Platform}
use solvela_client.Client.{SolvelaClient, balance_guard, session_lookup, prepare}

-- The model of the conversation's session, if there is one.
abbrev pub session_model : (List String → ℕ) → Option SessionStore → ChatRequest → ℕ → Option String
session_model sip none req now = none
session_model sip (some store) req now =
    elim (find_live store (derive_session_id sip req.messages) now) [
      | none ↦ none
      | some info ↦ some info.model
    ]

-- The free model, if the balance is known to be zero.
abbrev pub free_model : ClientConfig → ℕ → Option String
free_model config balance = if balance == 0 then config.free_fallback_model else none

balance_guard_lem :
    (config : ClientConfig) (balance : ℕ) (req : ChatRequest)
    → balance_guard config balance req ≡ elim (free_model config balance) [
      | none ↦ (false, req)
      | some m ↦ (true, record req { model = m })
    ]
unfolding balance_guard
balance_guard_lem config balance req = ground arith

session_lookup_lem :
    (sip : List String → ℕ) (store : Option SessionStore) (used : Bool) (req : ChatRequest)
    (now : ℕ)
    → (session_lookup sip store used req now).1 ≡ (
        if used
        then req
        else record req { model = unwrap_or (session_model sip store req now) req.model })
unfolding session_lookup get_or_create create
session_lookup_lem sip none true req now = refl
session_lookup_lem sip none false req now = refl
session_lookup_lem sip (some store) true req now = refl
session_lookup_lem sip (some store) false req now = ground arith

-- The request is the caller's, not streaming, with one model: the free one if it is configured and
-- the balance is known to be zero; else the one of the conversation's session, if it has a session
-- that has not expired; else the caller's.
pub prepare-request :
    (L : LruCache) (p : Platform) (client : SolvelaClient L) (req : ChatRequest) (now : ℕ)
    → (prepare L p client req now).request ≡ record req {
      stream = false;
      model =
          unwrap_or
            (or_option
              (free_model client.config client.balance_state)
              (session_model p.sip client.session_store req now))
            req.model;
    }
unfolding prepare
prepare-request L p client req now =
    let plain : ChatRequest = record req { stream = false } in
    let guarded = balance_guard_lem client.config client.balance_state plain in
    rw (session_lookup_lem p.sip client.session_store _ _ now, guarded) (ground arith)
