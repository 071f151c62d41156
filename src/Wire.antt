-- ===== src/Wire.antt =====
-- The parts of the two wire dialects (pkg/openai/types.go, pkg/anthropic/types.go) that the stream
-- translators read, after JSON decoding: a content that is no plain text is `none`, and a tool_calls
-- field that does not decode is the empty list.
pub mod Usage
use zealish_router.Base.{
  ℕ, ◌+◌, ◌-◌, String, ◌||◌, Option, none, some, List, ltb, if◌then◌else◌, str_eq, ℤ,
}

-- `id`, `name` and `arguments` are empty where the fragment has none.
pub record ToolCall : Type 0 where
  pub index : Option ℤ
  pub id : String
  pub name : String
  pub arguments : String

pub record Delta : Type 0 where
  pub text : Option String
  pub tool_calls : List ToolCall

pub record PromptDetails : Type 0 where
  pub cached : ℕ
  pub written : ℕ

pub record CompletionDetails : Type 0 where
  pub reasoning : ℕ

pub record TokenUsage : Type 0 where
  pub prompt : ℕ
  pub completion : ℕ
  pub total : ℕ
  pub details : Option PromptDetails
  pub completion_details : Option CompletionDetails

pub record Choice : Type 0 where
  pub delta : Option Delta
  pub finish_reason : Option String

pub record StreamChunk : Type 0 where
  pub id : String
  pub model : String
  pub choices : List Choice
  pub usage : Option TokenUsage

pub record MessageUsage : Type 0 where
  pub input : ℕ
  pub output : ℕ
  pub cache_read : ℕ
  pub cache_creation : ℕ

abbrev pub no_usage : MessageUsage
no_usage = record { input = 0; output = 0; cache_read = 0; cache_creation = 0 }

abbrev pub cached_of : Option PromptDetails → ℕ
cached_of none = 0
cached_of (some d) = d.cached

abbrev pub written_of : Option PromptDetails → ℕ
written_of none = 0
written_of (some d) = d.written

-- `toAnthropicUsage`: a negative rest is 0, as is a difference of natural numbers.
unfoldable pub to_message_usage : Option TokenUsage → Option MessageUsage
to_message_usage none = none
to_message_usage (some u) = some (record {
  input = u.prompt - cached_of u.details - written_of u.details;
  output = u.completion;
  cache_read = cached_of u.details;
  cache_creation = written_of u.details;
})

-- `fromAnthropicUsage`
unfoldable pub from_message_usage : MessageUsage → TokenUsage
from_message_usage u =
    let prompt = u.input + u.cache_read + u.cache_creation in
    record {
      prompt = prompt;
      completion = u.output;
      total = prompt + u.output;
      completion_details = none;
      details =
          if ltb 0 u.cache_read || ltb 0 u.cache_creation
          then some (record { cached = u.cache_read; written = u.cache_creation })
          else none;
    }

-- `stopReason` of internal/api/messages.go
unfoldable pub stop_reason : String → String
stop_reason reason =
    if str_eq reason "length"
    then "max_tokens"
    else if str_eq reason "tool_calls" || str_eq reason "function_call"
    then "tool_use"
    else if str_eq reason ""
    then ""
    else "end_turn"

-- `finishReason` of internal/provider/anthropic.go
unfoldable pub finish_reason : String → String
finish_reason reason =
    if str_eq reason "max_tokens"
    then "length"
    else if str_eq reason "tool_use"
    then "tool_calls"
    else if str_eq reason ""
    then ""
    else "stop"
