-- ===== src/Dialects.antt =====
-- The requests of the two dialects (pkg/anthropic/types.go, pkg/openai/types.go), after JSON decoding.
-- Raw JSON that is passed through without being read is a text. Sampling parameters, and the extra
-- fields that no translator reads, are left out.
pub mod ToChat
pub mod ToMessages
pub mod Atoms
pub mod Collected
pub mod Kept
pub mod Prompt
pub mod Requests
pub mod Replies
pub mod Replied
use zealish_router.Base.{ℕ, ℤ, String, Bool, Option, List}
use zealish_router.Wire.{ToolCall}

-- An empty `data`, `url` or `media` is a field that is absent.
pub record Source : Type 0 where
  pub kind : String
  pub media : String
  pub data_ : String
  pub url : String

-- A raw content: absent, a text, an array that decodes, or JSON of another shape.
pub data Content (A : Type 0) : Type 0 where
  absent : Content A
  plain opaque : String → Content A
  listed : List A → Content A

-- A block within the result of a tool.
pub data ResultBlock : Type 0 where
  result_text : String → ResultBlock
  result_image : Option Source → ResultBlock
  result_other : ResultBlock

-- The input of a call is raw JSON, empty where it is absent.
pub data ContentBlock : Type 0 where
  text_block : String → ContentBlock
  image_block : Option Source → ContentBlock
  tool_use : String → String → String → ContentBlock
  tool_result : String → Content ResultBlock → Bool → ContentBlock
  other_block : ContentBlock

pub record Turn : Type 0 where
  pub role : String
  pub content : Content ContentBlock

-- An empty schema is one that is absent.
pub record Tool : Type 0 where
  pub name : String
  pub description : String
  pub schema : String

pub record ToolChoice : Type 0 where
  pub kind : String
  pub name : String

pub record MessagesRequest : Type 0 where
  pub model : String
  pub turns : List Turn
  pub system : Content ContentBlock
  pub max_tokens : ℕ
  pub stop : List String
  pub tools : List Tool
  pub tool_choice : Option ToolChoice

-- A part of a content of the chat dialect; an image part may lack its URL.
pub data Part : Type 0 where
  text_part : String → Part
  image_part : Option String → Part
  other_part : Part

-- The content of a chat message; `as_sent` is the result of a tool that is passed on unread.
pub data ChatContent : Type 0 where
  no_content : ChatContent
  chat_text chat_opaque : String → ChatContent
  chat_parts : List Part → ChatContent
  as_sent : List ResultBlock → ChatContent

-- `tool_call_id` is empty where the message has none.
pub record ChatMessage : Type 0 where
  pub role : String
  pub content : ChatContent
  pub tool_calls : List ToolCall
  pub tool_call_id : String
  pub failed_result : Bool

-- The choice of the chat dialect: a word, or the name of a function.
pub data ChatChoice : Type 0 where
  choice_word choice_function : String → ChatChoice

-- A tool of the chat dialect; its kind is the type field.
pub record ChatTool : Type 0 where
  pub kind : String
  pub name : String
  pub description : String
  pub parameters : String

-- `tools` is `none` where the request has no such field.
pub record ChatRequest : Type 0 where
  pub model : String
  pub messages : List ChatMessage
  pub max_tokens : Option ℕ
  pub stop : List String
  pub tools : Option (List ChatTool)
  pub tool_choice : Option ChatChoice
