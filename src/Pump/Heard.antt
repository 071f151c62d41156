-- ===== src/Pump/Heard.antt =====
-- What the pump makes of each event of a Messages stream.
use zealish_router.Base.{
  ℕ, ◌≡◌, refl, ◌∙◌, Bool, true, false, none, some, List, [], ◌∷◌, ◌++◌, map, if◌then◌else◌, arith,
  String, pos, find_int, str_eq,
}
use zealish_router.Wire.{MessageUsage, finish_reason, from_message_usage}
use zealish_router.Messages.{
  text_block, tool_block, MessageEvent, message_start, block_start, text_delta, input_delta,
  block_stop, message_delta, message_stop, ping,
}
use mathlib.Core.List.{map-append}
use zealish_router.Pump.{
  Pump, ToolCallStream, new_pump, pump, handle, send, Event, merge_usage, say, call, no_delta,
  start_call,
}
use zealish_router.Pump.Pieces.{
  Scan, new_scan, scan_text, scan_call, scan_calls, scan_choices, scan_chunks, scan_chunks-append,
  wire,
}

abbrev pub always : ℕ → Bool
always n = true

pump-append :
    (es : List Event) (e : Event) (p : Pump)
    → pump always (es ++ e ∷ []) p ≡ (
        if (pump always es p).running then handle always e (pump always es p) else pump always es p)
unfolding pump
pump-append [] e p = refl
pump-append (d ∷ es) e p = pump-append es e (if p.running then handle always d p else p)

module _ (model : String) where
  -- The pump after these events, and the scan of its chunks.
  unfoldable pub after : List MessageEvent → Pump
  after es = pump always (map wire es) (new_pump model)

  unfoldable pub heard : List MessageEvent → Scan
  heard es = scan_chunks (after es).out new_scan

  after-append :
      (es : List MessageEvent) (e : MessageEvent)
      → (after es).running ≡ true
      → after (es ++ e ∷ []) ≡ handle always (wire e) (after es)
  unfolding after
  after-append es e h =
      rw (map-append wire es (e ∷ [])) (pump-append (map wire es) (wire e) (new_pump model) ∙ rw h)

  -- What an event does to a pump that runs: which scan and which calls it leaves.
  pub record Leaves (es : List MessageEvent) (e : MessageEvent) (calls : ToolCallStream) (s : Scan)
      : Type 0 where
    pub running : (after (es ++ e ∷ [])).running ≡ true
    pub tools : (after (es ++ e ∷ [])).tools ≡ calls
    pub scan : heard (es ++ e ∷ []) ≡ s

  abbrev pub Quiet : List MessageEvent → MessageEvent → Type 0
  Quiet es e = Leaves es e (after es).tools (heard es)

  module _ (es : List MessageEvent) (h : (after es).running ≡ true) where
    pub heard_start : (id name : String) → Quiet es (message_start id name)
    unfolding heard handle
    heard_start id name = ground (arith, after-append es (message_start id name) h, h)

    pub heard_stop : (i : ℕ) → Quiet es (block_stop i)
    unfolding heard handle
    heard_stop i = ground (arith, after-append es (block_stop i) h, h)

    pub heard_ping : Quiet es ping
    unfolding heard handle
    heard_ping = ground (arith, after-append es ping h, h)

    pub heard_block : (i : ℕ) → Quiet es (block_start i text_block)
    unfolding heard handle
    heard_block i = ground (arith, after-append es (block_start i text_block) h, h)

    pub heard_text :
        (i : ℕ) (text : String)
        → str_eq text "" ≡ false
        → Leaves es (text_delta i text) (after es).tools (scan_text (some text) (heard es))
    unfolding heard handle send scan_choices scan_calls
    heard_text i text k = ground (
      arith,
      after-append es (text_delta i text) h,
      h,
      scan_chunks-append (after es).out
          (record {
            id = (after es).id;
            model = (after es).model;
            choices = record { delta = some (say text); finish_reason = none } ∷ [];
            usage = none;
          })
          new_scan,
    )

    pub heard_call :
        (i : ℕ) (id name : String)
        → Leaves es
            (block_start i (tool_block id name))
            (start_call (pos i) id name (after es).tools).1
            (scan_call (start_call (pos i) id name (after es).tools).0 (heard es))
    unfolding heard handle send scan_choices scan_calls
    heard_call i id name = ground (
      arith,
      after-append es (block_start i (tool_block id name)) h,
      h,
      scan_chunks-append (after es).out
          (record {
            id = (after es).id;
            model = (after es).model;
            choices =
                record {
                  delta = some (call (start_call (pos i) id name (after es).tools).0);
                  finish_reason = none;
                }
                ∷ [];
            usage = none;
          })
          new_scan,
    )

    pub heard_arguments :
        (i k : ℕ) (text : String)
        → find_int (pos i) (after es).tools.index ≡ some k
        → Leaves es (input_delta i text) (after es).tools (
            scan_call
              (record { index = some (pos k); id = ""; name = ""; arguments = text })
              (heard es))
    unfolding heard handle send scan_choices scan_calls
    heard_arguments i k text f = ground (
      arith,
      after-append es (input_delta i text) h,
      h,
      f,
      scan_chunks-append (after es).out
          (record {
            id = (after es).id;
            model = (after es).model;
            choices =
                record {
                  delta = some (
                      call (record { index = some (pos k); id = ""; name = ""; arguments = text }));
                  finish_reason = none;
                }
                ∷ [];
            usage = none;
          })
          new_scan,
    )

    -- The last two events say nothing.
    pub heard_reason :
        (reason : String) (usage : MessageUsage)
        → ((after (es ++ message_delta reason usage ∷ [])).running ≡ true)
          × (heard (es ++ message_delta reason usage ∷ []) ≡ heard es)
    unfolding heard handle send scan_choices scan_calls
    heard_reason reason usage = ground (
      arith,
      after-append es (message_delta reason usage) h,
      h,
      scan_chunks-append (after es).out
          (record {
            id = (after es).id;
            model = (after es).model;
            choices =
                record { delta = some no_delta; finish_reason = some (finish_reason reason) } ∷ [];
            usage = some (from_message_usage (merge_usage (after es).usage (some usage)));
          })
          new_scan,
    )

    pub heard_end : heard (es ++ message_stop ∷ []) ≡ heard es
    unfolding heard handle
    heard_end = ground (arith, after-append es message_stop h, h)
