-- ===== src/Cli/Chats/Output.antt =====
-- What a streamed chat of crates/solvela-client-cli/src/commands/chat.rs shows.
use solvela_client.Base.{
  String, ◌<>◌, List, [], ◌∷◌, Option, none, some, ◌≡◌, refl, if◌then◌else◌, arith, Option-cases,
  inl, inr, true, Bool-cases, ◌∙◌, ap,
}
use solvela_client.Base.Outcome.{Result, ok, err, Outcome, done, fail}
use solvela_client.Text.{is_empty}
use solvela_client.Protocol.{ChatChunk, ChunkChoice}
use solvela_client.Error.{ClientError}
use solvela_client.Cli.{Host, Shell, explain}
use solvela_client.Cli.Chats.{print_choices, print_chunks, print_stream, close_stream}
use solvela_client.Base.Exec.{continue}

-- The texts of a chunk, and of the chunks before the first failure, the last text first, on top of
-- what was written before.
abbrev pub choice_texts : List ChunkChoice → List String → List String
choice_texts [] written = written
choice_texts (choice ∷ rest) written = elim choice.delta_content [
  | none ↦ choice_texts rest written
  | some content ↦ choice_texts rest (content ∷ written)
]

abbrev pub chunk_texts : List (Result ClientError ChatChunk) → List String → List String
chunk_texts [] written = written
chunk_texts (err e ∷ rest) written = written
chunk_texts (ok chunk ∷ rest) written = chunk_texts rest (choice_texts chunk.choices written)

-- The first failure.
abbrev pub first_failure : List (Result ClientError ChatChunk) → Option ClientError
first_failure [] = none
first_failure (err e ∷ rest) = some e
first_failure (ok chunk ∷ rest) = first_failure rest

-- The first model name that is not empty.
abbrev pub first_model : List (Result ClientError ChatChunk) → String
first_model [] = ""
first_model (err e ∷ rest) = ""
first_model (ok chunk ∷ rest) = if is_empty chunk.model then first_model rest else chunk.model

module _ (host : Host) (flushes : (written : List String) → host.refuse_flush written ≡ none) where
  print_choices-texts :
      (choices : List ChunkChoice) (s : Shell)
      → print_choices host choices s
        ≡ (done tt, record s { stdout = choice_texts choices s.stdout })
  unfolding print_choices
  print_choices-texts [] s = refl
  print_choices-texts (choice ∷ rest) s = elim (Option-cases choice.delta_content) [
    | inl silent ↦ rw silent (print_choices-texts rest s)
    | inr (content, said) ↦
        rw (said, flushes (content ∷ s.stdout))
          (print_choices-texts rest (record s { stdout = content ∷ s.stdout }))
  ]

  abbrev model_after : String → List (Result ClientError ChatChunk) → String
  model_after model_name chunks = if is_empty model_name then first_model chunks else model_name

  model_after-cons :
      (model_name : String) (chunk : ChatChunk) (rest : List (Result ClientError ChatChunk))
      → model_after (if is_empty model_name then chunk.model else model_name) rest
        ≡ model_after model_name (ok chunk ∷ rest)
  model_after-cons model_name chunk rest = ground arith

  -- How the loop ends, by the model name that it knows at the end.
  abbrev ended :
      List (Result ClientError ChatChunk) → Shell → String → Outcome String String × Shell
  ended chunks s model_name = (
    elim (first_failure chunks) [
      | none ↦ done model_name
      | some e ↦ fail (explain host "stream chunk error: " e)
    ],
    record s { stdout = chunk_texts chunks s.stdout },
  )

  print_chunks-texts :
      (chunks : List (Result ClientError ChatChunk)) (model_name : String) (s : Shell)
      → print_chunks host model_name chunks s ≡ ended chunks s (model_after model_name chunks)
  unfolding print_chunks
  print_chunks-texts [] model_name s = elim (Bool-cases (is_empty model_name)) [
    | inl nameless ↦ rw (nameless, empty_text model_name nameless) refl
    | inr named ↦ rw named refl
  ]
    where
      empty_text : (t : String) → is_empty t ≡ true → t ≡ ""
      empty_text String.[] h = refl
      empty_text (String.◌∷◌ c t) h = absurd (cc h)
  print_chunks-texts (err e ∷ rest) model_name s = refl
  print_chunks-texts (ok chunk ∷ rest) model_name s =
      let t : Shell = record s { stdout = choice_texts chunk.choices s.stdout } in
      rw (print_choices-texts chunk.choices s) (
        print_chunks-texts rest (if is_empty model_name then chunk.model else model_name) t
        ∙ ap (ended rest t) (model_after-cons model_name chunk rest))

  -- The end of a streamed chat, by how the loop has ended.
  closing :
      (failure : Option ClientError) (model_name : String) (s : Shell)
      → let looped : Outcome String String = elim failure [
        | none ↦ done model_name
        | some e ↦ fail (explain host "stream chunk error: " e)
      ] in
        continue looped (close_stream host) s ≡ elim failure [
          | some e ↦ (fail (explain host "stream chunk error: " e), s)
          | none ↦ (
            done tt,
            record s {
              stdout = "\n" ∷ s.stdout;
              stderr =
                  if is_empty model_name
                  then s.stderr
                  else (("[model: " <> (model_name <> "]")) <> "\n") ∷ s.stderr;
            },
          )
        ]
  closing (some e) model_name s = refl
  closing none model_name s = elim (Bool-cases (is_empty model_name)) [
    | inl nameless ↦ rw nameless refl
    | inr named ↦ rw named refl
  ]

  -- If every flush succeeds, a streamed chat writes the texts of the chunks, in their order, up to the
  -- first failure. If there is one, the command fails with it; else it ends the line, and names on
  -- the error output the first model name that is not empty, if any.
  pub print_stream_lem :
      (stream : List (Result ClientError ChatChunk)) (s : Shell)
      → print_stream host stream s ≡ elim (first_failure stream) [
        | some e ↦ (
          fail (explain host "stream chunk error: " e),
          record s { stdout = chunk_texts stream s.stdout },
        )
        | none ↦ (
          done tt,
          record s {
            stdout = "\n" ∷ chunk_texts stream s.stdout;
            stderr =
                if is_empty (first_model stream)
                then s.stderr
                else (("[model: " <> (first_model stream <> "]")) <> "\n") ∷ s.stderr;
          },
        )
      ]
  unfolding print_stream
  print_stream_lem stream s =
      rw (print_stream, print_chunks-texts stream "" s)
        (closing (first_failure stream) (first_model stream)
          (record s { stdout = chunk_texts stream s.stdout }))
