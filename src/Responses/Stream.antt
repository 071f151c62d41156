-- ===== src/Responses/Stream.antt =====
-- Whatever the upstream sends, and wherever a write fails, a client can follow the stream.
use zealish_router.Base.{
  ℕ, refl, String, Bool, Option, none, some, List, [], ◌∷◌, str_eq, if_either, ◌>>=◌, bind_rule,
  arith, inl, inr, ◌⊎◌,
}
use zealish_router.Wire.{ToolCall, TokenUsage, Delta, Choice, StreamChunk}
use zealish_router.Messages.{Signal, received, idle, cancelled}
use zealish_router.Responses.{
  ResponseStream, heartbeat, response_incomplete, response_completed, new_response, put_frame,
  start, close_item, text_piece, announce_call, argue, tool_deltas, delta_of, note_reason, choices,
  note_usage, chunk, terminate, finish_stream, relay, relay_responses, envelope, to_response_usage,
}
use zealish_router.Responses.Client.{over, Reads}
use zealish_router.Responses.Client
use zealish_router.Responses.Legal.{
  Readable, Ensures, Ready, Fresh, Closed, frame_rule, event_rule, start-Ready,
}
use zealish_router.Responses.Items.{close_item-Closed}
use zealish_router.Responses.Pieces.{
  text_piece-Ready, Announced, announce_call-Announced, argue-Ready,
}

module _ (writes : ℕ → Bool) where
  tool_deltas-Ready :
      (calls : List ToolCall) (m : ResponseStream)
      → Ready m
      → Ensures Ready (tool_deltas writes calls m)
  unfolding tool_deltas
  tool_deltas-Ready [] m r = r
  tool_deltas-Ready (call ∷ calls) m r =
      bind_rule Readable Ready Ready (announce_call writes call m >>= argue writes call)
        (tool_deltas writes calls)
        (bind_rule Readable (Announced call) Ready (announce_call writes call m) (argue writes call)
          (announce_call-Announced writes call m r) (argue-Ready writes call))
        (tool_deltas-Ready calls)

  delta_of-Ready :
      (d : Option Delta) (m : ResponseStream) → Ready m → Ensures Ready (delta_of writes d m)
  delta_of-Ready none m r = r
  delta_of-Ready (some d) m r =
      bind_rule Readable Ready Ready (text_piece writes d.text m) (tool_deltas writes d.tool_calls)
        (text_piece-Ready writes d.text m r) (tool_deltas-Ready d.tool_calls)

  note_reason-Ready :
      (reason : Option String) (m : ResponseStream) → Ready m → Ready (note_reason reason m)
  note_reason-Ready none m r = r
  note_reason-Ready (some reason) m r =
      if_either Ready (str_eq reason "") {y = record m { finish = reason }} r (record {
        at = r.at;
        on = r.on;
        held = r.held;
        kind = r.kind;
        count = r.count;
        tools = r.tools;
      })

  choices-Ready :
      (cs : List Choice) (m : ResponseStream) → Ready m → Ensures Ready (choices writes cs m)
  unfolding choices
  choices-Ready [] m r = r
  choices-Ready (c ∷ cs) m r =
      bind_rule Readable Ready Ready (delta_of writes c.delta m)
        (λ m'. choices writes cs (note_reason c.finish_reason m')) (delta_of-Ready c.delta m r)
        (λ m' q.
          choices-Ready cs (note_reason c.finish_reason m')
            (note_reason-Ready c.finish_reason m' q))

  abbrev Begun : ResponseStream → Type 0
  Begun m = Fresh m ⊎ Ready m

  note_usage-Begun : (u : Option TokenUsage) (m : ResponseStream) → Begun m → Begun (note_usage u m)
  note_usage-Begun none m s = s
  note_usage-Begun (some u) m (inl f) = inl (record {
    at = f.at;
    seq = f.seq;
    off = f.off;
    closed = f.closed;
    unopened = f.unopened;
    index = f.index;
    empty = f.empty;
    tools = f.tools;
  })
  note_usage-Begun (some u) m (inr r) = inr (record {
    at = r.at;
    on = r.on;
    held = r.held;
    kind = r.kind;
    count = r.count;
    tools = r.tools;
  })

  chunk-Ready : (c : StreamChunk) (m : ResponseStream) → Begun m → Ensures Ready (chunk writes c m)
  unfolding chunk
  chunk-Ready c m s =
      bind_rule Readable Ready Ready (start writes c.id c.model (note_usage c.usage m))
        (choices writes c.choices)
        (start-Ready writes c.id c.model (note_usage c.usage m) (note_usage-Begun c.usage m s))
        (choices-Ready c.choices)

  abbrev Ended : ResponseStream → Type 0
  Ended m = Reads m.sent over

  terminate-Ended : (m : ResponseStream) → Closed m → Ensures Ended (terminate writes m)
  terminate-Ended m c =
      let final = record (envelope "completed" m.done m) { usage = to_response_usage m.usage } in
      if_either (Ensures Ended) (str_eq m.finish "length")
        (event_rule writes Ended
          (response_incomplete
            (record final { status = "incomplete"; incomplete = some "max_output_tokens" }))
          m _ _ c.at (Client.cut_short refl refl) (λ h. h))
        (event_rule writes Ended (response_completed final) m _ _ c.at (Client.completed refl refl)
          (λ h. h))

  finish_stream-Ended : (m : ResponseStream) → Begun m → Ensures Ended (finish_stream writes m)
  unfolding finish_stream
  finish_stream-Ended m s =
      bind_rule Readable Closed Ended (start writes "" m.model m >>= close_item writes)
        (terminate writes)
        (bind_rule Readable Ready Closed (start writes "" m.model m) (close_item writes)
          (start-Ready writes "" m.model m s) (close_item-Closed writes))
        terminate-Ended

  heartbeat-Begun : (m : ResponseStream) → Begun m → Ensures Begun (put_frame writes heartbeat m)
  heartbeat-Begun m (inl f) = frame_rule writes Begun heartbeat m _ _ f.at Client.beat (λ h.
      inl (record {
        at = h;
        seq = f.seq;
        off = f.off;
        closed = f.closed;
        unopened = f.unopened;
        index = f.index;
        empty = f.empty;
        tools = f.tools;
      }))
  heartbeat-Begun m (inr r) = frame_rule writes Begun heartbeat m _ _ r.at Client.beat (λ h.
      inr (record {
        at = h;
        on = r.on;
        held = r.held;
        kind = r.kind;
        count = r.count;
        tools = r.tools;
      }))

  readable : (m : ResponseStream) → Begun m → Readable m
  readable m (inl f) = (_, f.at)
  readable m (inr r) = (_, r.at)

  relay-Ended :
      (signals : List Signal) (m : ResponseStream)
      → Begun m
      → Ensures Ended (relay writes signals m)
  unfolding relay
  relay-Ended [] m s = finish_stream-Ended m s
  relay-Ended (received c ∷ signals) m s =
      bind_rule Readable Ready Ended (chunk writes c m) (relay writes signals) (chunk-Ready c m s)
        (λ m' r. relay-Ended signals m' (inr r))
  relay-Ended (idle ∷ signals) m s =
      bind_rule Readable Begun Ended (put_frame writes heartbeat m) (relay writes signals)
        (heartbeat-Begun m s) (relay-Ended signals)
  relay-Ended (cancelled ∷ signals) m s = readable m s

new_response-Fresh : (model : String) → Fresh (new_response model)
unfolding new_response
new_response-Fresh model = record {
  at = Client.start;
  seq = refl;
  off = refl;
  closed = refl;
  unopened = refl;
  index = refl;
  empty = refl;
  tools = λ i k h. absurd (ground (arith, h));
}

-- Whatever chunks arrive, and whichever write fails, a client can follow the frames that were
-- written: the events are numbered 1, 2, 3 and so on, an item's number is that of the items done
-- before it, each item is reported done with the sum of the pieces that were sent while it was open,
-- and, when no error is returned, the response ends with exactly the items that were reported done.
pub relay_responses-Reads :
    (writes : ℕ → Bool) (model : String) (signals : List Signal)
    → Ensures (λ m. Reads m.sent over) (relay_responses writes model signals)
unfolding relay_responses
relay_responses-Reads writes model signals =
    relay-Ended writes signals (new_response model) (inl (new_response-Fresh model))
