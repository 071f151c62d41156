-- ===== src/Tests/Pump.antt =====
-- internal/provider/anthropic.go at fixed inputs.
use zealish_router.Base.{ℕ, ◌≡◌, refl, String, Option, some, none, List, [], ◌∷◌, pos, map}
use zealish_router.Wire.{Delta, StreamChunk}
use zealish_router.Messages.{relay_messages}
use zealish_router.Pump.{pump_anthropic}
use zealish_router.Pump.Pieces.{
  said, called, argued, pieces_of, scan_chunks, scan_choices, scan_calls, wire,
}
use zealish_router.Pump.Heard.{always}
use zealish_router.Pump.Related.{Yields, signal_of, arrived}
use zealish_router.Pump.RoundTrip.{relay_messages-pump_anthropic}

abbrev delta_chunk : Delta → StreamChunk
delta_chunk d = record {
  id = "c1";
  model = "m";
  choices = record { delta = some d; finish_reason = none } ∷ [];
  usage = none;
}

abbrev says : String → StreamChunk
says text = delta_chunk (record { text = some text; tool_calls = [] })

abbrev argues : ℕ → String → String → StreamChunk
argues i id text = delta_chunk (record {
  text = none;
  tool_calls = record { index = some (pos i); id = id; name = id; arguments = text } ∷ [];
})

-- The upstream numbers its calls 4 and 2, and their arguments alternate.
abbrev ticks : List (Option StreamChunk)
ticks =
    some (says "hi")
    ∷ some (argues 4 "a" "1")
    ∷ none
    ∷ some (argues 2 "b" "2")
    ∷ some (argues 4 "" "3")
    ∷ []

ticks_say :
    pieces_of (arrived ticks)
    ≡ said "hi"
      ∷ called 0 "a" "a"
      ∷ argued 0 "1"
      ∷ called 1 "b" "b"
      ∷ argued 1 "2"
      ∷ argued 0 "3"
      ∷ []
unfolding pieces_of arrived scan_chunks scan_choices scan_calls
ticks_say = refl

relay_messages-pump_anthropic_example :
    Yields
      (λ m. pieces_of (pump_anthropic always "r" (map wire m.sent)) ≡ pieces_of (arrived ticks))
      (relay_messages always "m" (map signal_of ticks))
relay_messages-pump_anthropic_example = relay_messages-pump_anthropic "m" "r" ticks
