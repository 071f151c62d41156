-- ===== src/Tests/Responses.antt =====
-- internal/api/responses_stream.go at fixed inputs, along responses_stream_test.go.
use zealish_router.Base.{
  ℕ, ◌≡◌, refl, Bool, true, String, some, none, List, [], ◌∷◌, ltb, pos, map, Run, live, failed,
}
use zealish_router.Wire.{Delta, StreamChunk}
use zealish_router.Messages.{Signal, received, idle}
use zealish_router.Responses.{
  ResponseItem, ResponseStream, relay_responses, relay, new_response, put_frame, start, close_item,
  open_text_item, text_piece, announce_call, tool_deltas, choices, chunk, finish_stream,
}
use zealish_router.Responses.Client.{Reads, over}
use zealish_router.Responses.Legal.{Ensures}
use zealish_router.Responses.Stream.{relay_responses-Reads}

abbrev delta_chunk : Delta → StreamChunk
delta_chunk d = record {
  id = "c1";
  model = "m";
  choices = record { delta = some d; finish_reason = none } ∷ [];
  usage = none;
}

abbrev says : String → Signal
says text = received (delta_chunk (record { text = some text; tool_calls = [] }))

abbrev argues : ℕ → String → String → Signal
argues i id text = received (
    delta_chunk (record {
      text = none;
      tool_calls = record { index = some (pos i); id = id; name = id; arguments = text } ∷ [];
    }))

-- Two calls whose arguments alternate.
abbrev alternating : List Signal
alternating = says "hi" ∷ argues 0 "a" "1" ∷ idle ∷ argues 1 "b" "2" ∷ argues 0 "" "3" ∷ []

abbrev items : Run ResponseStream → List (String × String)
items (live m) = map (λ (i : ResponseItem). (i.id, i.arguments)) m.done
items (failed m) = []

abbrev always : ℕ → Bool
always n = true

-- The last fragment of the first call becomes part of the second call, and both have one id.
calls_mixed :
    items (relay_responses always "m" alternating)
    ≡ ("msg_resp_c1", "") ∷ ("fc_resp_c1", "1") ∷ ("fc_resp_c1", "23") ∷ []
unfolding relay_responses relay new_response put_frame start close_item open_text_item text_piece
    announce_call tool_deltas choices chunk finish_stream
calls_mixed = refl

relay_responses-Reads_example :
    Ensures (λ m. Reads m.sent over) (relay_responses (λ n. ltb n 6) "m" alternating)
relay_responses-Reads_example = relay_responses-Reads (λ n. ltb n 6) "m" alternating
