-- ===== src/Responses.antt =====
-- internal/api/responses_stream.go: the chunks of an upstream become the numbered events of the
-- Responses dialect. `writes n` says whether the write of frame n succeeds. The fields of an envelope
-- that repeat the request, and the time of creation, are left out.
pub mod Client
pub mod Legal
pub mod Items
pub mod Pieces
pub mod Stream
use zealish_router.Base.{
  ℕ, ◌+◌, String, append, starts_with, Bool, true, false, not, ◌&&◌, Option, none, some, List, [],
  ◌∷◌, ◌++◌, if◌then◌else◌, str_eq, length, is_bound, IntMap, find_int, put_int, Run, live, failed,
  ◌>>=◌,
}
use zealish_router.Wire.{
  ToolCall, Delta, Choice, StreamChunk, TokenUsage, PromptDetails, CompletionDetails,
}
use zealish_router.Messages.{Signal, received, idle, cancelled, index_of}

-- `no_item` is the type of the zero value.
pub data ItemKind : Type 0 where
  no_item message_item call_item : ItemKind

-- `text` is the one part of the content of a message.
pub record ResponseItem : Type 0 where
  pub kind : ItemKind
  pub id : String
  pub role : String
  pub call_id : String
  pub name : String
  pub status : String
  pub text : String
  pub arguments : String

abbrev pub zero_item : ResponseItem
zero_item = record {
  kind = no_item;
  id = "";
  role = "";
  call_id = "";
  name = "";
  status = "";
  text = "";
  arguments = "";
}

pub record ResponseUsage : Type 0 where
  pub input : ℕ
  pub output : ℕ
  pub total : ℕ
  pub details : Option PromptDetails
  pub output_details : Option CompletionDetails

abbrev pub to_response_usage : Option TokenUsage → Option ResponseUsage
to_response_usage none = none
to_response_usage (some u) = some (record {
  input = u.prompt;
  output = u.completion;
  total = u.total;
  details = u.details;
  output_details = u.completion_details;
})

-- `incomplete` is the reason of the incomplete details.
pub record Response : Type 0 where
  pub id : String
  pub status : String
  pub model : String
  pub output : List ResponseItem
  pub usage : Option ResponseUsage
  pub incomplete : Option String

pub data ResponseEvent : Type 0 where
  response_created response_in_progress response_incomplete response_completed :
      Response → ResponseEvent
  item_added item_done : ℕ → ResponseItem → ResponseEvent
  text_delta text_done arguments_delta arguments_done : String → ℕ → String → ResponseEvent

-- What is written: a comment that keeps the connection alive, or an event with its sequence number.
pub data Frame : Type 0 where
  heartbeat : Frame
  numbered : ℕ → ResponseEvent → Frame

pub record ResponseStream : Type 0 where
  pub id : String
  pub model : String
  pub seq : ℕ
  pub started : Bool
  pub item_open : Bool
  pub item_index : ℕ
  pub opened : Bool
  pub item : ResponseItem
  pub text : String
  pub args : String
  pub tool_items : IntMap ℕ
  pub done : List ResponseItem
  pub finish : String
  pub usage : Option TokenUsage
  pub sent : List Frame

unfoldable pub new_response : String → ResponseStream
new_response model = record {
  id = "";
  model = model;
  seq = 0;
  started = false;
  item_open = false;
  item_index = 0;
  opened = false;
  item = zero_item;
  text = "";
  args = "";
  tool_items = [];
  done = [];
  finish = "";
  usage = none;
  sent = [];
}

abbrev pub response_id : String → String
response_id id =
    if str_eq id ""
    then "resp_unknown"
    else if starts_with id "resp_"
    then id
    else append "resp_" id

abbrev pub arguments_or_empty : String → String
arguments_or_empty args = if str_eq args "" then "{}" else args

-- `m.toolItems[idx]`, which is 0 for a missing key.
abbrev pub item_of : Option ℕ → ℕ
item_of none = 0
item_of (some k) = k

abbrev pub envelope : String → List ResponseItem → ResponseStream → Response
envelope status output m = record {
  id = m.id;
  status = status;
  model = m.model;
  output = output;
  usage = none;
  incomplete = none;
}

abbrev pub advance_item : ResponseStream → ResponseStream
advance_item m = record m {
  item_index = if m.opened then m.item_index + 1 else m.item_index;
  opened = true;
  item_open = true;
}

abbrev pub new_text_item : ResponseStream → ResponseItem
new_text_item m = record zero_item {
  kind = message_item;
  id = append "msg_" m.id;
  role = "assistant";
  status = "in_progress";
}

abbrev pub is_message : ItemKind → Bool
is_message message_item = true
is_message _ = false

abbrev pub new_call_item : ToolCall → ResponseStream → ResponseItem
new_call_item call m = record zero_item {
  kind = call_item;
  id = append "fc_" m.id;
  call_id = call.id;
  name = call.name;
  status = "in_progress";
}

abbrev pub note_reason : Option String → ResponseStream → ResponseStream
note_reason none m = m
note_reason (some reason) m = if str_eq reason "" then m else record m { finish = reason }

abbrev pub note_usage : Option TokenUsage → ResponseStream → ResponseStream
note_usage none m = m
note_usage (some u) m = record m { usage = some u }

module _ (writes : ℕ → Bool) where
  -- `NamedEvent` and `Heartbeat` of the writer.
  unfoldable pub put_frame : Frame → ResponseStream → Run ResponseStream
  put_frame f m =
      if writes (length m.sent) then live (record m { sent = m.sent ++ f ∷ [] }) else failed m

  abbrev pub event : ResponseEvent → ResponseStream → Run ResponseStream
  event e m = put_frame (numbered (m.seq + 1) e) (record m { seq = m.seq + 1 })

  abbrev pub begin : ResponseStream → Run ResponseStream
  begin m =
      let r = envelope "in_progress" [] m in
      event (response_created r) m >>= event (response_in_progress r)

  unfoldable pub start : String → String → ResponseStream → Run ResponseStream
  start id model m =
      if m.started
      then live m
      else begin (record m {
        started = true;
        id = response_id id;
        model = if str_eq model "" then m.model else model;
      })

  abbrev pub finish_item : ResponseItem → ResponseStream → Run ResponseStream
  finish_item item m = event (item_done m.item_index item) (record m { item = item }) >>= λ m'.
      live (record m' { done = m'.done ++ m'.item ∷ [] })

  -- The switch on the type of the item.
  abbrev pub complete_item : ItemKind → ResponseStream → Run ResponseStream
  complete_item no_item m = finish_item m.item m
  complete_item message_item m = event (text_done m.item.id m.item_index m.text) m >>= λ m'.
      finish_item (record m'.item { status = "completed"; text = m'.text }) m'
  complete_item call_item m =
      let args = arguments_or_empty m.args in
      event (arguments_done m.item.id m.item_index args) m >>= λ m'.
      finish_item (record m'.item { status = "completed"; arguments = args }) m'

  unfoldable pub close_item : ResponseStream → Run ResponseStream
  close_item m =
      if m.item_open then complete_item m.item.kind (record m { item_open = false }) else live m

  abbrev pub announce_item : ResponseStream → Run ResponseStream
  announce_item m = event (item_added m.item_index m.item) m

  abbrev pub begin_text_item : ResponseStream → Run ResponseStream
  begin_text_item m = announce_item (record (advance_item m) { item = new_text_item m; text = "" })

  unfoldable pub open_text_item : ResponseStream → Run ResponseStream
  open_text_item m =
      if m.item_open && is_message m.item.kind then live m else close_item m >>= begin_text_item

  unfoldable pub text_piece : Option String → ResponseStream → Run ResponseStream
  text_piece none m = live m
  text_piece (some text) m =
      if str_eq text ""
      then live m
      else open_text_item m >>= λ m'.
          event (text_delta m'.item.id m'.item_index text)
            (record m' { text = append m'.text text })

  abbrev pub begin_call_item : ToolCall → ResponseStream → Run ResponseStream
  begin_call_item call m =
      let next = advance_item m in
      announce_item (record next {
        item = new_call_item call m;
        args = "";
        tool_items = put_int (index_of call) next.item_index m.tool_items;
      })

  unfoldable pub announce_call : ToolCall → ResponseStream → Run ResponseStream
  announce_call call m =
      if is_bound (find_int (index_of call) m.tool_items)
      then live m
      else close_item m >>= begin_call_item call

  abbrev pub argue : ToolCall → ResponseStream → Run ResponseStream
  argue call m =
      let index = item_of (find_int (index_of call) m.tool_items) in
      if str_eq call.arguments ""
      then live m
      else event (arguments_delta m.item.id index call.arguments)
          (record m { args = append m.args call.arguments })

  unfoldable pub tool_deltas : List ToolCall → ResponseStream → Run ResponseStream
  tool_deltas [] m = live m
  tool_deltas (call ∷ calls) m = announce_call call m >>= argue call >>= tool_deltas calls

  abbrev pub delta_of : Option Delta → ResponseStream → Run ResponseStream
  delta_of none m = live m
  delta_of (some d) m = text_piece d.text m >>= tool_deltas d.tool_calls

  unfoldable pub choices : List Choice → ResponseStream → Run ResponseStream
  choices [] m = live m
  choices (c ∷ cs) m = delta_of c.delta m >>= λ m'. choices cs (note_reason c.finish_reason m')

  unfoldable pub chunk : StreamChunk → ResponseStream → Run ResponseStream
  chunk c m = start c.id c.model (note_usage c.usage m) >>= choices c.choices

  abbrev pub terminate : ResponseStream → Run ResponseStream
  terminate m =
      let final = record (envelope "completed" m.done m) { usage = to_response_usage m.usage } in
      if str_eq m.finish "length"
      then event
          (response_incomplete
            (record final { status = "incomplete"; incomplete = some "max_output_tokens" }))
          m
      else event (response_completed final) m

  unfoldable pub finish_stream : ResponseStream → Run ResponseStream
  finish_stream m = start "" m.model m >>= close_item >>= terminate

  unfoldable pub relay : List Signal → ResponseStream → Run ResponseStream
  relay [] m = finish_stream m
  relay (received c ∷ signals) m = chunk c m >>= relay signals
  relay (idle ∷ signals) m = put_frame heartbeat m >>= relay signals
  relay (cancelled ∷ signals) m = failed m

  unfoldable pub relay_responses : String → List Signal → Run ResponseStream
  relay_responses model signals = relay signals (new_response model)
