-- ===== src/Tests/Messages.antt =====
-- internal/api/messages_stream.go at fixed inputs, along messages_stream_test.go.
use zealish_router.Base.{
  Run, live, failed, ℕ, ◌≡◌, refl, Bool, true, false, String, some, none, List, [], ◌∷◌, ltb, pos,
}
use zealish_router.Wire.{Delta, StreamChunk}
use zealish_router.Messages.{
  MessageStream, MessageEvent, Signal, received, idle, relay_messages, relay, new_stream, emit,
  start, close_block, open_block, text_piece, tool_piece, tool_deltas, delta, choices, chunk,
  finish,
}
use zealish_router.Messages.Grammar.{over, reads, read_from}
use zealish_router.Messages.Legal.{Ensures}
use zealish_router.Messages.Brackets.{relay_messages-reads}

abbrev delta_chunk : Delta → StreamChunk
delta_chunk d = record {
  id = "c1";
  model = "m";
  choices = record { delta = some d; finish_reason = none } ∷ [];
  usage = none;
}

abbrev says : String → Signal
says text = received (delta_chunk (record { text = some text; tool_calls = [] }))

abbrev argues : ℕ → String → String → Signal
argues i id text = received (
    delta_chunk (record {
      text = none;
      tool_calls = record { index = some (pos i); id = id; name = id; arguments = text } ∷ [];
    }))

abbrev always : ℕ → Bool
always n = true

-- Two calls whose arguments alternate.
abbrev alternating : List Signal
alternating = says "hi" ∷ argues 0 "a" "1" ∷ idle ∷ argues 1 "b" "2" ∷ argues 0 "" "3" ∷ []

abbrev written : Run MessageStream → List MessageEvent
written (live m) = m.sent
written (failed m) = m.sent

-- The third fragment names block 1 after that block has been stopped.
alternating_not_strict : reads true (written (relay_messages always "m" alternating)) ≡ none
unfolding relay_messages relay new_stream emit start close_block open_block text_piece tool_piece
    tool_deltas delta choices chunk finish reads read_from
alternating_not_strict = refl

relay_messages-reads_example :
    Ensures (λ m. reads false m.sent ≡ some over) (relay_messages (λ n. ltb n 5) "m" alternating)
relay_messages-reads_example = relay_messages-reads (λ n. ltb n 5) "m" alternating
