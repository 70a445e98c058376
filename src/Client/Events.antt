-- ===== src/Client/Events.antt =====
-- The stream of chunks of crates/solvela-client/src/client.rs.
use solvela_client.Base.{String, List, [], ◌∷◌, ◌++◌, ◌≡◌, ◌≢◌, refl, arith, All, string_eq, ◌<>◌}
use mathlib.Core.List.{map}
use solvela_client.Base.Outcome.{Result, ok, err}
use solvela_client.Text.{trim}
use solvela_client.Protocol.{ChatChunk}
use solvela_client.Error.{ClientError}
use solvela_client.Client.Stream.{read_chunk, read_events}

-- An event that does not end the stream.
abbrev IsChunk : Result String String → Type 0
IsChunk (ok event) = trim event ≢ "[DONE]"
IsChunk (err e) = Unit

-- The item of an event.
abbrev pub item :
    (String → Result String ChatChunk) → Result String String → Result ClientError ChatChunk
item parse (ok event) = read_chunk parse (trim event)
item parse (err e) = err (ClientError.stream_error ("SSE error: " <> e))

-- The stream has one item for each event before the first whose trimmed data is the end mark, in
-- their order, and none for that event or any after it. An event in error, or one that is no chunk,
-- is an item in error, and does not end the stream.
pub read_events_lem :
    (parse : String → Result String ChatChunk) (before after : List (Result String String))
    (last : String)
    → All IsChunk before
    → trim last ≡ "[DONE]"
    → (read_events parse before ≡ map (item parse) before)
      × (read_events parse (before ++ (ok last ∷ after)) ≡ map (item parse) before)
unfolding read_events
read_events_lem parse [] after last chunks end = (refl, rw (read_events, end) refl)
read_events_lem parse (ok event ∷ before) after last (chunk, chunks) end =
    let (alone, stopped) = read_events_lem parse before after last chunks end in
    (ground arith, ground arith)
read_events_lem parse (err e ∷ before) after last (chunk, chunks) end =
    let (alone, stopped) = read_events_lem parse before after last chunks end in
    (ground arith, ground arith)
