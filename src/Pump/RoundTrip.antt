-- ===== src/Pump/RoundTrip.antt =====
-- What a stream says survives the translation to the Messages dialect and back.
use zealish_router.Base.{
  ◌>>=◌, bind_rule, ◌≡◌, refl, ◌∙◌, ap, true, Option, none, some, List, [], ◌∷◌, map, if◌then◌else◌,
  if_either, String, str_eq,
}
use zealish_router.Wire.{ToolCall, Delta, Choice, StreamChunk, TokenUsage, to_message_usage}
use zealish_router.Messages.{
  message_stop, ping, MessageStream, new_stream, emit, start, close_block, text_piece, announce,
  fragment, tool_piece, tool_deltas, delta, delta_of, note_reason, choices, note_usage, chunk,
  bare_chunk, report, finish, relay, relay_messages, usage_or_none,
}
use zealish_router.Pump.{new_pump, pump, pump_anthropic}
use zealish_router.Pump.Link.{Link-new}
use zealish_router.Pump.Pieces.{
  Scan, new_scan, scan_text, scan_new, scan_call, scan_calls, scan_delta, scan_choices, scan_chunks,
  pieces_of, wire,
}
use zealish_router.Pump.Heard.{always, after, heard, heard_ping, heard_reason, heard_end}
use zealish_router.Pump.Related.{
  signal_of, arrived, Yields, Never, Related, related, start-Related, close_block-Related,
  text_piece-Related, Assigned, announce-Related, fragment-Related,
}

module _ (model : String) where
  tool_deltas-Related :
      (cs : List ToolCall) (m : MessageStream) (s : Scan)
      → Related model m s
      → Yields (λ m'. Related model m' (scan_calls cs s)) (tool_deltas always cs m)
  unfolding tool_deltas tool_piece scan_calls
  tool_deltas-Related [] m s r = r
  tool_deltas-Related (c ∷ cs) m s r =
      bind_rule Never (λ m'. Related model m' (scan_call c s))
        (λ m'. Related model m' (scan_calls cs (scan_call c s)))
        (announce always c m >>= fragment always c) (tool_deltas always cs)
        (bind_rule Never (Assigned model c s) (λ m'. Related model m' (scan_call c s))
          (announce always c m) (fragment always c) (announce-Related model c m s r)
          (λ m' q. fragment-Related model c m' (scan_new c s) q.0 q.1))
        (λ m' q. tool_deltas-Related cs m' (scan_call c s) q)

  delta_of-Related :
      (d : Option Delta) (m : MessageStream) (s : Scan)
      → Related model m s
      → Yields (λ m'. Related model m' (scan_delta d s)) (delta_of always d m)
  unfolding delta
  delta_of-Related none m s r = r
  delta_of-Related (some d) m s r =
      bind_rule Never (λ m'. Related model m' (scan_text d.text s))
        (λ m'. Related model m' (scan_delta (some d) s)) (text_piece always d.text m)
        (tool_deltas always d.tool_calls) (text_piece-Related model d.text m s r)
        (λ m' q. tool_deltas-Related d.tool_calls m' (scan_text d.text s) q)

  note_reason-Related :
      (reason : Option String) (m : MessageStream) (s : Scan)
      → Related model m s
      → Related model (note_reason always reason m) s
  note_reason-Related none m s r = r
  note_reason-Related (some reason) m s r =
      if_either (λ m'. Related model m' s) (str_eq reason "") r
        (record { running = r.running; link = r.link })

  choices-Related :
      (cs : List Choice) (m : MessageStream) (s : Scan)
      → Related model m s
      → Yields (λ m'. Related model m' (scan_choices cs s)) (choices always cs m)
  unfolding choices scan_choices
  choices-Related [] m s r = r
  choices-Related (c ∷ cs) m s r =
      bind_rule Never (λ m'. Related model m' (scan_delta c.delta s))
        (λ m'. Related model m' (scan_choices cs (scan_delta c.delta s)))
        (delta_of always c.delta m)
        (λ m'. choices always cs (note_reason always c.finish_reason m'))
        (delta_of-Related c.delta m s r)
        (λ m' q.
          choices-Related cs (note_reason always c.finish_reason m') (scan_delta c.delta s)
            (note_reason-Related c.finish_reason m' (scan_delta c.delta s) q))

  note_usage-Related :
      (u : Option TokenUsage) (m : MessageStream) (s : Scan)
      → Related model m s
      → Related model (note_usage always u m) s
  note_usage-Related none m s r = r
  note_usage-Related (some u) m s r = record { running = r.running; link = r.link }

  chunk-Related :
      (c : StreamChunk) (m : MessageStream) (s : Scan)
      → Related model m s
      → Yields (λ m'. Related model m' (scan_choices c.choices s)) (chunk always c m)
  unfolding chunk
  chunk-Related c m s r =
      bind_rule Never (λ m'. Related model m' s) (λ m'. Related model m' (scan_choices c.choices s))
        (start always c (note_usage always c.usage m)) (choices always c.choices)
        (start-Related model c (note_usage always c.usage m) s (note_usage-Related c.usage m s r))
        (λ m' q. choices-Related c.choices m' s q)

  -- After the end, what has been said is still what the pump says.
  abbrev Same : Scan → MessageStream → Type 0
  Same s m = (heard model m.sent).pieces ≡ s.pieces

  report-Same :
      (m : MessageStream) (s : Scan)
      → Related model m s
      → Yields (λ m'. Same s m' × ((after model m'.sent).running ≡ true)) (report always m)
  unfolding emit
  report-Same m s r =
      let reason = if str_eq m.stop "" then "end_turn" else m.stop in
      let usage = usage_or_none always (to_message_usage m.usage) in
      let (running, quiet) = heard_reason model m.sent r.running reason usage in
      (ap (λ t. t.pieces) quiet ∙ r.link.same, running)

  ended-Same :
      (m : MessageStream) (s : Scan)
      → Same s m × ((after model m.sent).running ≡ true)
      → Yields (Same s) (emit always message_stop m)
  unfolding emit
  ended-Same m s (h, running) = ap (λ t. t.pieces) (heard_end model m.sent running) ∙ h

  finish-Same :
      (m : MessageStream) (s : Scan) → Related model m s → Yields (Same s) (finish always m)
  unfolding finish
  finish-Same m s r =
      let begun = start always (bare_chunk always m.model) m in
      let shut = begun >>= close_block always in
      bind_rule Never (λ m'. Same s m' × ((after model m'.sent).running ≡ true)) (Same s)
        (shut >>= report always) (emit always message_stop)
        (bind_rule Never (λ m'. Related model m' s)
          (λ m'. Same s m' × ((after model m'.sent).running ≡ true)) shut (report always)
          (bind_rule Never (λ m'. Related model m' s) (λ m'. Related model m' s) begun
            (close_block always) (start-Related model (bare_chunk always m.model) m s r)
            (λ m' q. close_block-Related model m' s q))
          (λ m' q. report-Same m' s q))
        (λ m' q. ended-Same m' s q)

  ping-Related :
      (m : MessageStream) (s : Scan)
      → Related model m s
      → Yields (λ m'. Related model m' s) (emit always ping m)
  unfolding emit
  ping-Related m s r = related model _ s m.sent ping refl (heard_ping model m.sent r.running) r.link

  relay-Same :
      (ticks : List (Option StreamChunk)) (m : MessageStream) (s : Scan)
      → Related model m s
      → Yields (Same (scan_chunks (arrived ticks) s)) (relay always (map signal_of ticks) m)
  unfolding relay scan_chunks arrived
  relay-Same [] m s r = finish-Same m s r
  relay-Same (none ∷ ticks) m s r =
      bind_rule Never (λ m'. Related model m' s) (Same (scan_chunks (arrived ticks) s))
        (emit always ping m) (relay always (map signal_of ticks)) (ping-Related m s r)
        (λ m' q. relay-Same ticks m' s q)
  relay-Same (some c ∷ ticks) m s r =
      bind_rule Never (λ m'. Related model m' (scan_choices c.choices s))
        (Same (scan_chunks (arrived ticks) (scan_choices c.choices s))) (chunk always c m)
        (relay always (map signal_of ticks)) (chunk-Related c m s r)
        (λ m' q. relay-Same ticks m' (scan_choices c.choices s) q)

-- A stream that is relayed in the Messages dialect and read back by the pump of the provider says
-- the same: the same texts, the same tool calls in the same order, and for each the same fragments
-- of its arguments; whatever chunks arrive, with idle ticks anywhere between them, if no write fails
-- and the request is not cancelled.
pub relay_messages-pump_anthropic :
    (sent_model read_model : String) (ticks : List (Option StreamChunk))
    → Yields
        (λ m.
          pieces_of (pump_anthropic always read_model (map wire m.sent))
          ≡ pieces_of (arrived ticks))
        (relay_messages always sent_model (map signal_of ticks))
unfolding relay_messages new_stream pieces_of scan_chunks pump_anthropic after heard new_pump pump
relay_messages-pump_anthropic sent_model read_model ticks =
    relay-Same read_model ticks (new_stream sent_model) new_scan
      (record { running = refl; link = Link-new (after read_model []).tools refl refl })
