-- ===== src/Messages/Brackets.antt =====
-- Whatever the upstream sends, and wherever a write fails, the events keep to the dialect's order.
use zealish_router.Base.{
  ◌>>=◌, bind_rule, if_either, ℕ, ◌≡◌, refl, Bool, false, Option, none, some, List, [], ◌∷◌,
  if◌then◌else◌, String, str_eq,
}
use zealish_router.Wire.{StreamChunk, ToolCall, Delta, Choice, TokenUsage, to_message_usage}
use zealish_router.Messages.{
  message_delta, message_stop, ping, MessageStream, new_stream, emit, start, close_block,
  text_piece, announce, fragment, tool_piece, tool_deltas, delta, delta_of, note_reason, choices,
  note_usage, chunk, bare_chunk, report, usage_or_none, finish, relay, relay_messages, Signal,
  received, idle, cancelled,
}
use zealish_router.Messages.Grammar.{Phase, before, closing, over, between, inside, read, reads}
use zealish_router.Messages.Legal.{
  Readable, position, Sound, Ensures, new_stream-Sound, emit_rule, Ready, start-Ready, next_index,
  Closed, close_block-Closed, text_piece-Ready, Announced, announce-Announced, fragment-Ready,
}

module _ (writes : ℕ → Bool) where
  tool_deltas-Ready :
      (calls : List ToolCall) (m : MessageStream)
      → Ready m
      → Ensures Ready (tool_deltas writes calls m)
  unfolding tool_deltas tool_piece
  tool_deltas-Ready [] m r = r
  tool_deltas-Ready (call ∷ calls) m r =
      bind_rule Readable Ready Ready (announce writes call m >>= fragment writes call)
        (tool_deltas writes calls)
        (bind_rule Readable (Announced call) Ready (announce writes call m) (fragment writes call)
          (announce-Announced writes call m r) (fragment-Ready writes call))
        (tool_deltas-Ready calls)

  delta_of-Ready :
      (d : Option Delta) (m : MessageStream) → Ready m → Ensures Ready (delta_of writes d m)
  unfolding delta
  delta_of-Ready none m r = r
  delta_of-Ready (some d) m r =
      bind_rule Readable Ready Ready (text_piece writes d.text m) (tool_deltas writes d.tool_calls)
        (text_piece-Ready writes d.text m r) (tool_deltas-Ready d.tool_calls)

  note_reason-Ready :
      (reason : Option String) (m : MessageStream) → Ready m → Ready (note_reason writes reason m)
  note_reason-Ready none m r = r
  note_reason-Ready (some reason) m r = if_either Ready (str_eq reason "") r (
    record {
      at = r.0.at;
      held = r.0.held;
      fresh = r.0.fresh;
      first = r.0.first;
      tools = r.0.tools;
    },
    r.1,
  )

  choices-Ready :
      (cs : List Choice) (m : MessageStream) → Ready m → Ensures Ready (choices writes cs m)
  unfolding choices
  choices-Ready [] m r = r
  choices-Ready (c ∷ cs) m r =
      bind_rule Readable Ready Ready (delta_of writes c.delta m)
        (λ m'. choices writes cs (note_reason writes c.finish_reason m'))
        (delta_of-Ready c.delta m r)
        (λ m' r'.
          choices-Ready cs (note_reason writes c.finish_reason m')
            (note_reason-Ready c.finish_reason m' r'))

  note_usage-Sound :
      (u : Option TokenUsage) (m : MessageStream) → Sound m → Sound (note_usage writes u m)
  note_usage-Sound none m s = s
  note_usage-Sound (some u) m s = record {
    at = s.at;
    held = s.held;
    fresh = s.fresh;
    first = s.first;
    tools = s.tools;
  }

  chunk-Ready : (c : StreamChunk) (m : MessageStream) → Sound m → Ensures Ready (chunk writes c m)
  unfolding chunk
  chunk-Ready c m s =
      bind_rule Readable Ready Ready (start writes c (note_usage writes c.usage m))
        (choices writes c.choices)
        (start-Ready writes c (note_usage writes c.usage m) (note_usage-Sound c.usage m s))
        (choices-Ready c.choices)

  -- The end of the message.
  abbrev Ended : MessageStream → Type 0
  Ended m = reads false m.sent ≡ some over

  abbrev Reported : MessageStream → Type 0
  Reported m = reads false m.sent ≡ some closing

  report-Reported : (m : MessageStream) → Closed m → Ensures Reported (report writes m)
  report-Reported m c =
      emit_rule writes Reported
        (message_delta (if str_eq m.stop "" then "end_turn" else m.stop)
          (usage_or_none writes (to_message_usage m.usage)))
        m (between (next_index m)) closing c.at refl (λ h. h)

  finish-Ended : (m : MessageStream) → Sound m → Ensures Ended (finish writes m)
  unfolding finish
  finish-Ended m s =
      let begun = start writes (bare_chunk writes m.model) m in
      let shut = begun >>= close_block writes in
      bind_rule Readable Reported Ended (shut >>= report writes) (emit writes message_stop)
        (bind_rule Readable Closed Reported shut (report writes)
          (bind_rule Readable Ready Closed begun (close_block writes)
            (start-Ready writes (bare_chunk writes m.model) m s) (close_block-Closed writes))
          report-Reported)
        (λ m' h. emit_rule writes Ended message_stop m' closing over h refl (λ k. k))

  read_ping : (p : Phase) → read false p ping ≡ some p
  read_ping before = refl
  read_ping closing = refl
  read_ping over = refl
  read_ping (between n) = refl
  read_ping (inside n) = refl

  ping-Sound : (m : MessageStream) → Sound m → Ensures Sound (emit writes ping m)
  ping-Sound m s =
      emit_rule writes Sound ping m (position m) (position m) s.at (read_ping (position m))
        (λ k. record { at = k; held = s.held; fresh = s.fresh; tools = s.tools; first = s.first })

  relay-Ended :
      (signals : List Signal) (m : MessageStream) → Sound m → Ensures Ended (relay writes signals m)
  unfolding relay
  relay-Ended [] m s = finish-Ended m s
  relay-Ended (received c ∷ signals) m s =
      bind_rule Readable Ready Ended (chunk writes c m) (relay writes signals) (chunk-Ready c m s)
        (λ m' r. relay-Ended signals m' r.0)
  relay-Ended (idle ∷ signals) m s =
      bind_rule Readable Sound Ended (emit writes ping m) (relay writes signals) (ping-Sound m s)
        (relay-Ended signals)
  relay-Ended (cancelled ∷ signals) m s = rw s.at refl

-- Whatever chunks arrive, and whichever write fails, the events that were written keep to the
-- dialect's order, with blocks numbered from 0 and each delta naming a block already opened; when
-- no error is returned, they are a whole message.
pub relay_messages-reads :
    (writes : ℕ → Bool) (model : String) (signals : List Signal)
    → Ensures (λ m. reads false m.sent ≡ some over) (relay_messages writes model signals)
unfolding relay_messages new_stream
relay_messages-reads writes model signals =
    relay-Ended writes signals (new_stream model) (new_stream-Sound model)
