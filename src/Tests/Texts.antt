-- ===== src/Tests/Texts.antt =====
-- The theorems on the detection of degraded answers, on the builder and on the stream's events.
use mathlib.Core.List.{map}
use solvela_client.Base.{
  Char, String, List, [], ◌∷◌, ◌++◌, some, ◌≡◌, ◌≢◌, refl, arith, unwrap_or, code, string_eq, ap,
}
use solvela_client.Base.Outcome.{Result, ok, err}
use solvela_client.Text.{trim, last_char, char_count}
use solvela_client.Config.{Setting, configure, trim_slashes, default_config}
use solvela_client.Config.Laws.{configure-gateway, last_gateway}
use solvela_client.Quality.{aggregate_content, is_degraded}
use solvela_client.Quality.Rules.{Verdict, is_degraded-Verdict}
use solvela_client.Client.Stream.{read_events}
use solvela_client.Client.Events.{item, read_events_lem}
use solvela_client.Tests.Fixtures.{unicode, response, serde}

is_degraded-Verdict_example :
    Verdict unicode (aggregate_content response) (is_degraded unicode response)
is_degraded-Verdict_example = is_degraded-Verdict unicode response

abbrev settings : List Setting
settings = Setting.max_payment_amount 5 ∷ Setting.gateway_url "http://a//" ∷ []

configure-gateway_example :
    ((configure settings).gateway_url
      ≡ trim_slashes (unwrap_or (last_gateway settings) default_config.gateway_url))
    × ((c : Char) → last_char (configure settings).gateway_url ≡ some c → code c ≢ 47)
configure-gateway_example = configure-gateway settings

abbrev before : List (Result String String)
before = ok "{}" ∷ err "reset" ∷ []

differ : trim "{}" ≢ "[DONE]"
unfolding trim char_count
differ h =
    let sizes : char_count "{}" ≡ char_count "[DONE]" = ap char_count h in
    absurd (omega (arith, sizes))

read_events_lem_example :
    (read_events serde.chat_chunk before ≡ map (item serde.chat_chunk) before)
    × (read_events serde.chat_chunk (before ++ (ok " [DONE] " ∷ ok "{}" ∷ []))
        ≡ map (item serde.chat_chunk) before)
unfolding trim
read_events_lem_example =
    read_events_lem serde.chat_chunk before (ok "{}" ∷ []) " [DONE] " (differ, (tt, tt)) refl
