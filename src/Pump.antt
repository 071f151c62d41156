-- ===== src/Pump.antt =====
-- internal/provider/anthropic.go (`pumpAnthropic`) and the tool call stream of
-- internal/provider/anthropic_tools.go: the events of a Messages upstream become chunks. An event is
-- what JSON decoding gives; one that does not decode is skipped by the source and is no event here.
-- `listening n` says whether the consumer takes the chunk of number n before the context ends.
pub mod Pieces
pub mod Heard
pub mod Link
pub mod Related
pub mod RoundTrip
use zealish_router.Base.{
  ℕ, ◌+◌, String, Bool, true, false, ◌&&◌, Option, none, some, List, [], ◌∷◌, ◌++◌, ltb,
  if◌then◌else◌, str_eq, ℤ, pos, length, IntMap, find_int, put_int,
}
use zealish_router.Wire.{
  ToolCall, Delta, Choice, StreamChunk, TokenUsage, MessageUsage, no_usage, from_message_usage,
  finish_reason,
}

pub record EventDelta : Type 0 where
  pub kind : String
  pub text : String
  pub partial_json : String
  pub stop_reason : String

pub record EventBlock : Type 0 where
  pub kind : String
  pub id : String
  pub name : String

pub record EventMessage : Type 0 where
  pub id : String
  pub model : String
  pub usage : Option MessageUsage

pub record Event : Type 0 where
  pub kind : String
  pub index : ℤ
  pub delta : Option EventDelta
  pub content_block : Option EventBlock
  pub message : Option EventMessage
  pub usage : Option MessageUsage

-- `toolCallStream`
pub record ToolCallStream : Type 0 where
  pub index : IntMap ℕ
  pub next : ℕ

abbrev pub new_tool_calls : ToolCallStream
new_tool_calls = record { index = []; next = 0 }

abbrev pub start_call : ℤ → String → String → ToolCallStream → ToolCall × ToolCallStream
start_call block id name s = (
  record { index = some (pos s.next); id = id; name = name; arguments = "" },
  record { index = put_int block s.next s.index; next = s.next + 1 },
)

abbrev pub call_fragment : Option ℕ → String → Option ToolCall
call_fragment none partial = none
call_fragment (some i) partial =
    some (record { index = some (pos i); id = ""; name = ""; arguments = partial })

abbrev pub argue_call : ℤ → String → ToolCallStream → Option ToolCall
argue_call block partial s = call_fragment (find_int block s.index) partial

abbrev pub merge_one : ℕ → ℕ → ℕ
merge_one old new = if ltb 0 new then new else old

-- `mergeAnthropicUsage`
unfoldable pub merge_usage : MessageUsage → Option MessageUsage → MessageUsage
merge_usage dst none = dst
merge_usage dst (some src) = record {
  input = merge_one dst.input src.input;
  output = merge_one dst.output src.output;
  cache_read = merge_one dst.cache_read src.cache_read;
  cache_creation = merge_one dst.cache_creation src.cache_creation;
}

-- `running` is false after the callback of `scanSSE` has returned false.
pub record Pump : Type 0 where
  pub id : String
  pub model : String
  pub usage : MessageUsage
  pub tools : ToolCallStream
  pub running : Bool
  pub out : List StreamChunk

unfoldable pub new_pump : String → Pump
new_pump model = record {
  id = "";
  model = model;
  usage = no_usage;
  tools = new_tool_calls;
  running = true;
  out = [];
}

abbrev pub say : String → Delta
say text = record { text = some text; tool_calls = [] }

abbrev pub call : ToolCall → Delta
call c = record { text = none; tool_calls = c ∷ [] }

abbrev pub no_delta : Delta
no_delta = record { text = none; tool_calls = [] }

module _ (listening : ℕ → Bool) where
  unfoldable pub send : Choice → Option TokenUsage → Pump → Pump
  send choice usage p =
      if listening (length p.out)
      then record p {
        out =
            p.out
            ++ record { id = p.id; model = p.model; choices = choice ∷ []; usage = usage } ∷ [];
      }
      else record p { running = false }

  abbrev pub open_message : Option EventMessage → Pump → Pump
  open_message none p = p
  open_message (some m) p = record p {
    id = m.id;
    model = if str_eq m.model "" then p.model else m.model;
    usage = merge_usage p.usage m.usage;
  }

  abbrev pub open_content : ℤ → Option EventBlock → Pump → Pump
  open_content index none p = p
  open_content index (some b) p =
      let (c, tools) = start_call index b.id b.name p.tools in
      if str_eq b.kind "tool_use"
      then send (record { delta = some (call c); finish_reason = none }) none
          (record p { tools = tools })
      else p

  abbrev pub send_call : Option ToolCall → Pump → Pump
  send_call none p = p
  send_call (some c) p = send (record { delta = some (call c); finish_reason = none }) none p

  abbrev pub take_delta : ℤ → Option EventDelta → Pump → Pump
  take_delta index none p = p
  take_delta index (some d) p =
      if str_eq d.kind "input_json_delta"
      then send_call (argue_call index d.partial_json p.tools) p
      else if str_eq d.text ""
      then p
      else send (record { delta = some (say d.text); finish_reason = none }) none p

  abbrev pub reason_of : Option EventDelta → String
  reason_of none = ""
  reason_of (some d) = finish_reason d.stop_reason

  abbrev pub close_message : Event → Pump → Pump
  close_message e p =
      let usage = merge_usage p.usage e.usage in
      send (record { delta = some no_delta; finish_reason = some (reason_of e.delta) })
        (some (from_message_usage usage)) (record p { usage = usage })

  -- The switch on the type of an event.
  unfoldable pub handle : Event → Pump → Pump
  handle e p =
      if str_eq e.kind "message_start"
      then open_message e.message p
      else if str_eq e.kind "content_block_start"
      then open_content e.index e.content_block p
      else if str_eq e.kind "content_block_delta"
      then take_delta e.index e.delta p
      else if str_eq e.kind "message_delta"
      then close_message e p
      else if str_eq e.kind "message_stop"
      then record p { running = false }
      else if str_eq e.kind "error"
      then record p { running = false }
      else p

  unfoldable pub pump : List Event → Pump → Pump
  pump [] p = p
  pump (e ∷ es) p = pump es (if p.running then handle e p else p)

  unfoldable pub pump_anthropic : String → List Event → List StreamChunk
  pump_anthropic model es = (pump es (new_pump model)).out
