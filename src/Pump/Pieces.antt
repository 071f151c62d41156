-- ===== src/Pump/Pieces.antt =====
-- What a sequence of chunks says: its texts, its tool calls in the order in which they first appear,
-- and the fragments of their arguments. The numbers that the upstream gives its calls do not matter.
use zealish_router.Base.{
  ℕ, ◌+◌, ◌≡◌, refl, String, Option, none, some, List, [], ◌∷◌, ◌++◌, if◌then◌else◌, str_eq, ℤ, pos,
  is_bound, IntMap, find_int, put_int,
}
use zealish_router.Wire.{ToolCall, Delta, Choice, StreamChunk, no_usage}
use zealish_router.Messages.{
  Block, text_block, tool_block, MessageEvent, message_start, block_start, text_delta, input_delta,
  block_stop, message_delta, message_stop, ping, index_of,
}
use zealish_router.Pump.{EventBlock, Event}

pub data Piece : Type 0 where
  said : String → Piece
  called : ℕ → String → String → Piece
  argued : ℕ → String → Piece

pub record Scan : Type 0 where
  pub numbers : IntMap ℕ
  pub next : ℕ
  pub pieces : List Piece

abbrev pub new_scan : Scan
new_scan = record { numbers = []; next = 0; pieces = [] }

abbrev pub scan_text : Option String → Scan → Scan
scan_text none s = s
scan_text (some text) s =
    if str_eq text "" then s else record s { pieces = s.pieces ++ said text ∷ [] }

abbrev pub scan_new : ToolCall → Scan → Scan
scan_new c s = if is_bound (find_int (index_of c) s.numbers) then s else record {
  numbers = put_int (index_of c) s.next s.numbers;
  next = s.next + 1;
  pieces = s.pieces ++ called s.next c.id c.name ∷ [];
}

abbrev pub argued_by : Option ℕ → String → List Piece
argued_by none text = []
argued_by (some k) text = argued k text ∷ []

abbrev pub scan_arguments : ToolCall → Scan → Scan
scan_arguments c s =
    if str_eq c.arguments ""
    then s
    else record s { pieces = s.pieces ++ argued_by (find_int (index_of c) s.numbers) c.arguments }

abbrev pub scan_call : ToolCall → Scan → Scan
scan_call c s = scan_arguments c (scan_new c s)

unfoldable pub scan_calls : List ToolCall → Scan → Scan
scan_calls [] s = s
scan_calls (c ∷ cs) s = scan_calls cs (scan_call c s)

abbrev pub scan_delta : Option Delta → Scan → Scan
scan_delta none s = s
scan_delta (some d) s = scan_calls d.tool_calls (scan_text d.text s)

unfoldable pub scan_choices : List Choice → Scan → Scan
scan_choices [] s = s
scan_choices (c ∷ cs) s = scan_choices cs (scan_delta c.delta s)

unfoldable pub scan_chunks : List StreamChunk → Scan → Scan
scan_chunks [] s = s
scan_chunks (c ∷ cs) s = scan_chunks cs (scan_choices c.choices s)

unfoldable pub pieces_of : List StreamChunk → List Piece
pieces_of cs = (scan_chunks cs new_scan).pieces

pub scan_chunks-append :
    (cs : List StreamChunk) (c : StreamChunk) (s : Scan)
    → scan_chunks (cs ++ c ∷ []) s ≡ scan_choices c.choices (scan_chunks cs s)
unfolding scan_chunks
scan_chunks-append [] c s = refl
scan_chunks-append (d ∷ cs) c s = scan_chunks-append cs c (scan_choices d.choices s)

abbrev bare : String → ℤ → Event
bare kind index = record {
  kind = kind;
  index = index;
  delta = none;
  content_block = none;
  message = none;
  usage = none;
}

abbrev wire_block : Block → EventBlock
wire_block text_block = record { kind = "text"; id = ""; name = "" }
wire_block (tool_block id name) = record { kind = "tool_use"; id = id; name = name }

-- The JSON of an event, as the other side decodes it.
abbrev pub wire : MessageEvent → Event
wire (message_start id model) = record (bare "message_start" (pos 0)) {
  message = some (record { id = id; model = model; usage = some no_usage });
}
wire (block_start index block) = record (bare "content_block_start" (pos index)) {
  content_block = some (wire_block block);
}
wire (text_delta index text) = record (bare "content_block_delta" (pos index)) {
  delta = some (record { kind = "text_delta"; text = text; partial_json = ""; stop_reason = "" });
}
wire (input_delta index text) = record (bare "content_block_delta" (pos index)) {
  delta =
      some (record { kind = "input_json_delta"; text = ""; partial_json = text; stop_reason = "" });
}
wire (block_stop index) = bare "content_block_stop" (pos index)
wire (message_delta reason usage) = record (bare "message_delta" (pos 0)) {
  delta = some (record { kind = ""; text = ""; partial_json = ""; stop_reason = reason });
  usage = some usage;
}
wire message_stop = bare "message_stop" (pos 0)
wire ping = bare "ping" (pos 0)
