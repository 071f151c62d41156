-- ===== src/Messages.antt =====
-- internal/api/messages_stream.go: the chunks of an upstream become the events of the Messages
-- dialect. `writes n` says whether the write of number n succeeds; after a failed write the source
-- returns the error, and nothing more is written.
pub mod Grammar
pub mod Legal
pub mod Brackets
use zealish_router.Base.{
  Run, live, failed, ◌>>=◌, ℕ, ◌+◌, String, Bool, true, false, not, ◌&&◌, Option, none, some, List,
  [], ◌∷◌, ◌++◌, if◌then◌else◌, str_eq, ℤ, pos, length, is_bound, IntMap, find_int, put_int,
}
use zealish_router.Wire.{
  ToolCall, Delta, Choice, StreamChunk, TokenUsage, MessageUsage, no_usage, to_message_usage,
  stop_reason,
}

pub data Block : Type 0 where
  text_block : Block
  tool_block : String → String → Block

pub data MessageEvent : Type 0 where
  message_start : String → String → MessageEvent
  block_start : ℕ → Block → MessageEvent
  text_delta input_delta : ℕ → String → MessageEvent
  block_stop : ℕ → MessageEvent
  message_delta : String → MessageUsage → MessageEvent
  message_stop ping : MessageEvent

pub record MessageStream : Type 0 where
  pub id : String
  pub model : String
  pub started : Bool
  pub opened : Bool
  pub block_open : Bool
  pub text_open : Bool
  pub block_index : ℕ
  pub tool_blocks : IntMap ℕ
  pub stop : String
  pub usage : Option TokenUsage
  pub sent : List MessageEvent

unfoldable pub new_stream : String → MessageStream
new_stream model = record {
  id = "";
  model = model;
  started = false;
  opened = false;
  block_open = false;
  text_open = false;
  block_index = 0;
  tool_blocks = [];
  stop = "";
  usage = none;
  sent = [];
}

abbrev pub is_text : Block → Bool
is_text text_block = true
is_text (tool_block id name) = false

abbrev pub index_of : ToolCall → ℤ
index_of call = elim call.index [ none ↦ pos 0 | some i ↦ i ]

-- What the loop of `relayMessages` selects. The list of signals ends when the channel is closed.
pub data Signal : Type 0 where
  received : StreamChunk → Signal
  idle cancelled : Signal

module _ (writes : ℕ → Bool) where
  unfoldable pub emit : MessageEvent → MessageStream → Run MessageStream
  emit e m =
      if writes (length m.sent) then live (record m { sent = m.sent ++ e ∷ [] }) else failed m

  unfoldable pub start : StreamChunk → MessageStream → Run MessageStream
  start c m =
      let model = if str_eq c.model "" then m.model else c.model in
      if m.started
      then live m
      else emit (message_start c.id model) (record m { started = true; id = c.id; model = model })

  unfoldable pub close_block : MessageStream → Run MessageStream
  close_block m =
      if m.block_open
      then emit (block_stop m.block_index) (record m { block_open = false })
      else live m

  abbrev pub begin_block : Block → MessageStream → Run MessageStream
  begin_block block m =
      let index = if m.opened then m.block_index + 1 else m.block_index in
      emit (block_start index block) (record m {
        block_index = index;
        opened = true;
        block_open = true;
        text_open = is_text block;
      })

  -- The kind of the open block is `text_open`; it is read only while a block is open.
  unfoldable pub open_block : Block → MessageStream → Run MessageStream
  open_block block m =
      if m.block_open && (m.text_open && is_text block)
      then live m
      else close_block m >>= begin_block block

  unfoldable pub text_piece : Option String → MessageStream → Run MessageStream
  text_piece none m = live m
  text_piece (some text) m =
      if str_eq text ""
      then live m
      else open_block text_block m >>= λ m'. emit (text_delta m'.block_index text) m'

  -- `m.toolBlocks[idx]`, which is 0 for a missing key.
  abbrev pub block_of : Option ℕ → ℕ
  block_of none = 0
  block_of (some b) = b

  abbrev pub announce : ToolCall → MessageStream → Run MessageStream
  announce call m =
      if is_bound (find_int (index_of call) m.tool_blocks)
      then live m
      else open_block (tool_block call.id call.name) m >>= λ m'.
          live (record m' { tool_blocks = put_int (index_of call) m'.block_index m'.tool_blocks })

  abbrev pub fragment : ToolCall → MessageStream → Run MessageStream
  fragment call m =
      if str_eq call.arguments ""
      then live m
      else emit (input_delta (block_of (find_int (index_of call) m.tool_blocks)) call.arguments) m

  unfoldable pub tool_piece : ToolCall → MessageStream → Run MessageStream
  tool_piece call m = announce call m >>= fragment call

  unfoldable pub tool_deltas : List ToolCall → MessageStream → Run MessageStream
  tool_deltas [] m = live m
  tool_deltas (call ∷ calls) m = tool_piece call m >>= tool_deltas calls

  unfoldable pub delta : Delta → MessageStream → Run MessageStream
  delta d m = text_piece d.text m >>= tool_deltas d.tool_calls

  abbrev pub delta_of : Option Delta → MessageStream → Run MessageStream
  delta_of none m = live m
  delta_of (some d) m = delta d m

  abbrev pub note_reason : Option String → MessageStream → MessageStream
  note_reason none m = m
  note_reason (some reason) m =
      if str_eq reason "" then m else record m { stop = stop_reason reason }

  unfoldable pub choices : List Choice → MessageStream → Run MessageStream
  choices [] m = live m
  choices (c ∷ cs) m = delta_of c.delta m >>= λ m'. choices cs (note_reason c.finish_reason m')

  abbrev pub note_usage : Option TokenUsage → MessageStream → MessageStream
  note_usage none m = m
  note_usage (some u) m = record m { usage = some u }

  unfoldable pub chunk : StreamChunk → MessageStream → Run MessageStream
  chunk c m = start c (note_usage c.usage m) >>= choices c.choices

  abbrev pub bare_chunk : String → StreamChunk
  bare_chunk model = record { id = ""; model = model; choices = []; usage = none }

  abbrev pub usage_or_none : Option MessageUsage → MessageUsage
  usage_or_none none = no_usage
  usage_or_none (some u) = u

  abbrev pub report : MessageStream → Run MessageStream
  report m =
      emit
        (message_delta (if str_eq m.stop "" then "end_turn" else m.stop)
          (usage_or_none (to_message_usage m.usage)))
        m

  unfoldable pub finish : MessageStream → Run MessageStream
  finish m = start (bare_chunk m.model) m >>= close_block >>= report >>= emit message_stop

  unfoldable pub relay : List Signal → MessageStream → Run MessageStream
  relay [] m = finish m
  relay (received c ∷ signals) m = chunk c m >>= relay signals
  relay (idle ∷ signals) m = emit ping m >>= relay signals
  relay (cancelled ∷ signals) m = failed m

  unfoldable pub relay_messages : String → List Signal → Run MessageStream
  relay_messages model signals = relay signals (new_stream model)
