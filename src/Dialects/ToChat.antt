-- ===== src/Dialects/ToChat.antt =====
-- internal/api/messages.go: a request of the Messages dialect becomes a chat request.
use zealish_router.Base.{
  String, append, Bool, true, false, ◌&&◌, Option, none, some, List, [], ◌∷◌, ◌++◌, if◌then◌else◌,
  str_eq, ltb, ◌==◌, pos, length, len,
}
use zealish_router.Wire.{ToolCall}
use zealish_router.Dialects.{
  Source, Content, absent, plain, opaque, listed, ResultBlock, result_text, result_image,
  result_other, ContentBlock, text_block, image_block, tool_use, tool_result, other_block, Turn,
  Tool, ToolChoice, MessagesRequest, Part, text_part, image_part, ChatContent, no_content,
  chat_text, chat_opaque, chat_parts, as_sent, ChatMessage, ChatChoice, choice_word,
  choice_function, ChatTool, ChatRequest,
}

-- `SystemText`: the texts of the array form, joined by an empty line.
abbrev pub join_texts : String → String → String
join_texts text rest =
    if str_eq text ""
    then rest
    else if str_eq rest ""
    then text
    else append text (append "\n\n" rest)

unfoldable pub system_texts : List ContentBlock → String
system_texts [] = ""
system_texts (text_block text ∷ blocks) = join_texts text (system_texts blocks)
system_texts (b ∷ blocks) = system_texts blocks

unfoldable pub system_text : Content ContentBlock → String
system_text absent = ""
system_text (plain text) = text
system_text (opaque raw) = ""
system_text (listed blocks) = system_texts blocks

abbrev pub source_url : Source → String
source_url s =
    if str_eq s.kind "base64"
    then if str_eq s.data_ ""
      then ""
      else append "data:"
          (append (if str_eq s.media "" then "image/png" else s.media) (append ";base64," s.data_))
    else if str_eq s.kind "url"
    then s.url
    else ""

unfoldable pub image_url_of : Option Source → String
image_url_of none = ""
image_url_of (some s) = source_url s

abbrev pub arguments_of : String → String
arguments_of input = if str_eq input "" then "{}" else if str_eq input "null" then "{}" else input

-- `none` where an unknown block makes the source return the content unread.
abbrev pub put_part : String → Option (List Part) → Option (List Part)
put_part url none = none
put_part url (some parts) =
    if str_eq url "" then some parts else some (image_part (some url) ∷ parts)

abbrev pub put_text : String → Option (List Part) → Option (List Part)
put_text text none = none
put_text text (some parts) = some (text_part text ∷ parts)

unfoldable pub result_parts : List ResultBlock → Option (List Part)
result_parts [] = some []
result_parts (result_text text ∷ blocks) = put_text text (result_parts blocks)
result_parts (result_image source ∷ blocks) = put_part (image_url_of source) (result_parts blocks)
result_parts (result_other ∷ blocks) = none

abbrev pub result_listed : List ResultBlock → Option (List Part) → ChatContent
result_listed raw none = as_sent raw
result_listed raw (some []) = as_sent raw
result_listed raw (some (text_part text ∷ [])) = chat_text text
result_listed raw (some parts) = chat_parts parts

unfoldable pub tool_result_content : Content ResultBlock → ChatContent
tool_result_content absent = no_content
tool_result_content (plain text) = chat_text text
tool_result_content (opaque raw) = chat_opaque raw
tool_result_content (listed blocks) = result_listed blocks (result_parts blocks)

-- What the loop of `toOpenAIMessages` collects.
pub record Gathered : Type 0 where
  pub out : List ChatMessage
  pub parts : List Part
  pub calls : List ToolCall
  pub text : String

abbrev pub nothing_yet : Gathered
nothing_yet = record { out = []; parts = []; calls = []; text = "" }

abbrev pub result_message : String → ChatContent → Bool → ChatMessage
result_message id content is_error = record {
  role = "tool";
  content = content;
  tool_calls = [];
  tool_call_id = id;
  failed_result = is_error;
}

abbrev pub new_call : String → String → String → Gathered → ToolCall
new_call id name input g = record {
  index = some (pos (length g.calls));
  id = id;
  name = name;
  arguments = arguments_of input;
}

unfoldable pub gather_block : ContentBlock → Gathered → Gathered
gather_block (text_block text) g = record g {
  text = append g.text text;
  parts = g.parts ++ text_part text ∷ [];
}
gather_block (image_block source) g =
    let url = image_url_of source in
    if str_eq url "" then g else record g { parts = g.parts ++ image_part (some url) ∷ [] }
gather_block (tool_use id name input) g = record g {
  calls = g.calls ++ new_call id name input g ∷ [];
}
gather_block (tool_result id content is_error) g = record g {
  out = g.out ++ result_message id (tool_result_content content) is_error ∷ [];
}
gather_block other_block g = g

unfoldable pub gather_blocks : List ContentBlock → Gathered → Gathered
gather_blocks [] g = g
gather_blocks (b ∷ blocks) g = gather_blocks blocks (gather_block b g)

abbrev pub is_empty {ℓ} : {A : Type ℓ} → List A → Bool
is_empty [] = true
is_empty (x ∷ xs) = false

abbrev pub message : String → ChatContent → ChatMessage
message role content = record {
  role = role;
  content = content;
  tool_calls = [];
  tool_call_id = "";
  failed_result = false;
}

-- A turn of one text keeps the compact form.
abbrev pub parts_content : Gathered → ChatContent
parts_content g =
    if (length g.parts == 1) && ltb 0 (len g.text) then chat_text g.text else chat_parts g.parts

abbrev pub call_message : Gathered → ChatMessage
call_message g =
    record (message "assistant" (if str_eq g.text "" then no_content else chat_text g.text)) {
      tool_calls = g.calls;
    }

unfoldable pub messages_of : String → Gathered → List ChatMessage
messages_of role g =
    if is_empty g.calls
    then if is_empty g.parts then g.out else g.out ++ message role (parts_content g) ∷ []
    else g.out ++ call_message g ∷ []

unfoldable pub to_chat_messages : Turn → List ChatMessage
to_chat_messages t = elim t.content [
  | absent ↦ message t.role no_content ∷ []
  | plain text ↦ message t.role (chat_text text) ∷ []
  | opaque raw ↦ message t.role (chat_opaque raw) ∷ []
  | listed blocks ↦ messages_of t.role (gather_blocks blocks nothing_yet)
]

unfoldable pub to_chat_turns : List Turn → List ChatMessage
to_chat_turns [] = []
to_chat_turns (t ∷ turns) = to_chat_messages t ++ to_chat_turns turns

unfoldable pub chat_tools : List Tool → List ChatTool
chat_tools [] = []
chat_tools (t ∷ tools) =
    let rest = chat_tools tools in
    if str_eq t.name ""
    then rest
    else record {
      kind = "function";
      name = t.name;
      description = t.description;
      parameters = t.schema;
    }
      ∷ rest

abbrev pub or_no_field {ℓ} : {A : Type ℓ} → List A → Option (List A)
or_no_field [] = none
or_no_field (x ∷ xs) = some (x ∷ xs)

unfoldable pub to_chat_tools : List Tool → Option (List ChatTool)
to_chat_tools tools = or_no_field (chat_tools tools)

unfoldable pub to_chat_choice : Option ToolChoice → Option ChatChoice
to_chat_choice none = none
to_chat_choice (some c) =
    if str_eq c.kind "auto"
    then some (choice_word "auto")
    else if str_eq c.kind "none"
    then some (choice_word "none")
    else if str_eq c.kind "any"
    then some (choice_word "required")
    else if str_eq c.kind "tool"
    then if str_eq c.name "" then none else some (choice_function c.name)
    else none

abbrev pub with_tools : Option (List ChatTool) → Option ChatChoice → Option ChatChoice
with_tools none choice = none
with_tools (some tools) choice = choice

-- `toOpenAIRequest`
unfoldable pub to_chat_request : MessagesRequest → ChatRequest
to_chat_request r =
    let system = system_text r.system in
    record {
      model = r.model;
      messages =
          (if str_eq system "" then [] else message "system" (chat_text system) ∷ [])
          ++ to_chat_turns r.turns;
      max_tokens = if ltb 0 r.max_tokens then some r.max_tokens else none;
      stop = r.stop;
      tools = to_chat_tools r.tools;
      tool_choice = with_tools (to_chat_tools r.tools) (to_chat_choice r.tool_choice);
    }
