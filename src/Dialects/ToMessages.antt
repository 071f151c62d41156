-- ===== src/Dialects/ToMessages.antt =====
-- internal/provider/anthropic.go and anthropic_tools.go: a chat request becomes a request of the
-- Messages dialect. `valid` is json.Valid, `encode` the JSON of a content.
use zealish_router.Base.{
  ℕ, ◌+◌, ◌-◌, String, append, Bool, false, ◌&&◌, ◌||◌, not, Option, none, some, List, [], ◌∷◌,
  ◌++◌, if◌then◌else◌, str_eq, starts_with, find?, len, slice, ltb, leb,
}
use zealish_router.Wire.{ToolCall}
use zealish_router.Dialects.{
  Source, Content, absent, plain, opaque, listed, ResultBlock, result_text, ContentBlock,
  text_block, image_block, tool_use, tool_result, Turn, Tool, ToolChoice, MessagesRequest, Part,
  text_part, image_part, other_part, ChatContent, no_content, chat_text, chat_opaque, chat_parts,
  as_sent, ChatMessage, ChatChoice, choice_word, choice_function, ChatTool, ChatRequest,
}

abbrev pub default_max_tokens : ℕ
default_max_tokens = 4096

abbrev pub empty_schema : String
empty_schema = "{\"type\":\"object\",\"properties\":{}}"

abbrev pub with_suffix : String → String → String → Option Source
with_suffix meta suffix data_ =
    if leb (len suffix) (len meta) && str_eq (slice meta (len meta - len suffix) (len meta)) suffix
    then some (record {
      kind = "base64";
      media = slice meta 0 (len meta - len suffix);
      data_ = data_;
      url = "";
    })
    else none

-- The text before the comma, and the text after it.
abbrev pub data_source : String → Option ℕ → Option Source
data_source rest none = none
data_source rest (some comma) =
    with_suffix (slice rest 0 comma) ";base64" (slice rest (comma + 1) (len rest))

abbrev pub inline_source : String → Option Source
inline_source rest = data_source rest (find? rest ",")

unfoldable pub to_source : String → Option Source
to_source url =
    if str_eq url ""
    then none
    else if starts_with url "data:"
    then inline_source (slice url (len "data:") (len url))
    else some (record { kind = "url"; media = ""; data_ = ""; url = url })

abbrev pub put_image : Option Source → List ContentBlock → List ContentBlock
put_image none blocks = blocks
put_image (some s) blocks = image_block (some s) ∷ blocks

unfoldable pub part_blocks : List Part → List ContentBlock
part_blocks [] = []
part_blocks (text_part text ∷ parts) = text_block text ∷ part_blocks parts
part_blocks (image_part none ∷ parts) = part_blocks parts
part_blocks (image_part (some url) ∷ parts) = put_image (to_source url) (part_blocks parts)
part_blocks (other_part ∷ parts) = part_blocks parts

abbrev pub or_empty_text : List ContentBlock → Content ContentBlock
or_empty_text [] = plain ""
or_empty_text (b ∷ blocks) = listed (b ∷ blocks)

-- The blocks of a tool's result, read as parts.
unfoldable pub read_parts : List ResultBlock → List Part
read_parts [] = []
read_parts (result_text text ∷ blocks) = text_part text ∷ read_parts blocks
read_parts (b ∷ blocks) = other_part ∷ read_parts blocks

unfoldable pub to_content : ChatContent → Content ContentBlock
to_content no_content = plain ""
to_content (chat_text text) = plain text
to_content (chat_opaque raw) = opaque raw
to_content (chat_parts parts) = or_empty_text (part_blocks parts)
to_content (as_sent blocks) = or_empty_text (part_blocks (read_parts blocks))

abbrev pub text_blocks : ChatContent → List ContentBlock
text_blocks (chat_text text) = if str_eq text "" then [] else text_block text ∷ []
text_blocks _ = []

abbrev pub is_system : String → Bool
is_system role = str_eq role "system" || str_eq role "developer"

abbrev pub is_result : String → Bool
is_result role = str_eq role "tool" || str_eq role "function"

abbrev pub message_system : ChatContent → List String
message_system (chat_text text) = text ∷ []
message_system _ = []

unfoldable pub system_of : List ChatMessage → List String
system_of [] = []
system_of (m ∷ ms) =
    let rest = system_of ms in if is_system m.role then message_system m.content ++ rest else rest

-- strings.Join with an empty line.
unfoldable pub join : List String → String
join [] = ""
join (s ∷ []) = s
join (s ∷ t ∷ ss) = append s (append "\n\n" (join (t ∷ ss)))

abbrev pub system_content : List String → Content ContentBlock
system_content [] = absent
system_content (s ∷ ss) = plain (join (s ∷ ss))

unfoldable pub to_tools : List ChatTool → List Tool
to_tools [] = []
to_tools (t ∷ tools) =
    let rest = to_tools tools in
    if (not (str_eq t.kind "") && not (str_eq t.kind "function")) || str_eq t.name ""
    then rest
    else record {
      name = t.name;
      description = t.description;
      schema = if str_eq t.parameters "" then empty_schema else t.parameters;
    }
      ∷ rest

abbrev pub tools_of : Option (List ChatTool) → List Tool
tools_of none = []
tools_of (some tools) = to_tools tools

abbrev pub kind_only : String → Option ToolChoice
kind_only kind = some (record { kind = kind; name = "" })

unfoldable pub to_choice : Option ChatChoice → Option ToolChoice
to_choice none = none
to_choice (some (choice_word word)) =
    if str_eq word "auto"
    then kind_only "auto"
    else if str_eq word "none"
    then kind_only "none"
    else if str_eq word "required" || str_eq word "any"
    then kind_only "any"
    else none
to_choice (some (choice_function name)) =
    if str_eq name "" then none else some (record { kind = "tool"; name = name })

abbrev pub if_tools : List Tool → Option ToolChoice → Option ToolChoice
if_tools [] choice = none
if_tools (t ∷ tools) choice = choice

abbrev pub limit_of : Option ℕ → ℕ
limit_of none = default_max_tokens
limit_of (some n) = if ltb 0 n then n else default_max_tokens

-- The request that `ChatCompletion` and `ChatCompletionStream` of internal/router/router.go hand to a
-- route's provider: a copy with the model of the route.
abbrev pub to_upstream : String → ChatRequest → ChatRequest
to_upstream model r = record r { model = model }

module _ (valid : String → Bool) (encode : ChatContent → String) where
  abbrev pub valid_input : String → String
  valid_input arguments = if valid arguments then arguments else "{}"

  unfoldable pub call_blocks : List ToolCall → List ContentBlock
  call_blocks [] = []
  call_blocks (c ∷ calls) = tool_use c.id c.name (valid_input c.arguments) ∷ call_blocks calls

  -- `toAnthropicAssistant`
  abbrev pub assistant_content : ChatContent → List ToolCall → Content ContentBlock
  assistant_content content [] = to_content content
  assistant_content content (c ∷ calls) = listed (text_blocks content ++ call_blocks (c ∷ calls))

  abbrev pub result_text_of : ChatContent → String
  result_text_of (chat_text text) = text
  result_text_of no_content = ""
  result_text_of content = encode content

  -- `toAnthropicToolResult`
  abbrev pub result_turns : ChatMessage → List Turn
  result_turns m =
      if str_eq m.tool_call_id ""
      then []
      else record {
        role = "user";
        content = listed (tool_result m.tool_call_id (plain (result_text_of m.content)) false ∷ []);
      }
        ∷ []

  -- The switch on the role.
  unfoldable pub message_turns : ChatMessage → List Turn
  message_turns m =
      if is_system m.role
      then []
      else if is_result m.role
      then result_turns m
      else if str_eq m.role "assistant"
      then record { role = "assistant"; content = assistant_content m.content m.tool_calls } ∷ []
      else record { role = m.role; content = to_content m.content } ∷ []

  unfoldable pub to_turns : List ChatMessage → List Turn
  to_turns [] = []
  to_turns (m ∷ ms) = message_turns m ++ to_turns ms

  -- `toAnthropic`
  unfoldable pub to_messages_request : ChatRequest → MessagesRequest
  to_messages_request r =
      let tools = tools_of r.tools in
      record {
        model = r.model;
        turns = to_turns r.messages;
        system = system_content (system_of r.messages);
        max_tokens = limit_of r.max_tokens;
        stop = r.stop;
        tools = tools;
        tool_choice = if_tools tools (to_choice r.tool_choice);
      }
