-- ===== src/Dialects/Replies.antt =====
-- Whole responses: `fromAnthropic` of internal/provider/anthropic.go makes a chat response of what an
-- upstream of the Messages dialect answers, `toAnthropicResponse` of internal/api/messages.go turns a
-- chat response into that dialect. `valid` is json.Valid.
use zealish_router.Base.{
  ℕ, ◌+◌, String, append, Bool, ◌||◌, Option, none, some, List, [], ◌∷◌, ◌++◌, if◌then◌else◌,
  str_eq, pos,
}
use zealish_router.Wire.{
  ToolCall, TokenUsage, MessageUsage, to_message_usage, from_message_usage, stop_reason,
  finish_reason,
}
use zealish_router.Dialects.{
  ContentBlock, text_block, tool_use, ChatContent, chat_text, ChatMessage,
}
use zealish_router.Dialects.ToChat.{message}

pub record MessageReply : Type 0 where
  pub id : String
  pub model : String
  pub content : List ContentBlock
  pub stop : Option String
  pub usage : Option MessageUsage

pub record ReplyChoice : Type 0 where
  pub message : Option ChatMessage
  pub finish : Option String

pub record ChatReply : Type 0 where
  pub id : String
  pub model : String
  pub choices : List ReplyChoice
  pub usage : Option TokenUsage

-- The texts of the blocks, one after the other.
unfoldable pub reply_text : List ContentBlock → String
reply_text [] = ""
reply_text (text_block text ∷ blocks) = append text (reply_text blocks)
reply_text (b ∷ blocks) = reply_text blocks

-- `argumentsOf` of internal/provider/anthropic_tools.go.
abbrev pub call_arguments : String → String
call_arguments input = if str_eq input "" || str_eq input "null" then "{}" else input

-- `toolCallsFrom`, with the number of calls so far.
unfoldable pub calls_from : ℕ → List ContentBlock → List ToolCall
calls_from n [] = []
calls_from n (tool_use id name input ∷ blocks) =
    record { index = some (pos n); id = id; name = name; arguments = call_arguments input }
    ∷ calls_from (n + 1) blocks
calls_from n (b ∷ blocks) = calls_from n blocks

abbrev pub finish_of : Option String → String
finish_of none = ""
finish_of (some reason) = finish_reason reason

abbrev pub usage_from : Option MessageUsage → Option TokenUsage
usage_from none = none
usage_from (some u) = some (from_message_usage u)

unfoldable pub from_message_reply : MessageReply → ChatReply
from_message_reply r = record {
  id = r.id;
  model = r.model;
  choices =
      record {
        message = some (record (message "assistant" (chat_text (reply_text r.content))) {
          tool_calls = calls_from 0 r.content;
        });
        finish = some (finish_of r.stop);
      }
      ∷ [];
  usage = usage_from r.usage;
}

abbrev pub reply_texts : ChatContent → List ContentBlock
reply_texts (chat_text text) = if str_eq text "" then [] else text_block text ∷ []
reply_texts _ = []

abbrev pub stop_of : Option String → Option String
stop_of none = none
stop_of (some reason) = if str_eq reason "" then none else some (stop_reason reason)

module _ (valid : String → Bool) where
  unfoldable pub tool_use_blocks : List ToolCall → List ContentBlock
  tool_use_blocks [] = []
  tool_use_blocks (c ∷ calls) =
      tool_use c.id c.name (if valid c.arguments then c.arguments else "{}") ∷ tool_use_blocks calls

  abbrev pub message_blocks : Option ChatMessage → List ContentBlock
  message_blocks none = []
  message_blocks (some m) = reply_texts m.content ++ tool_use_blocks m.tool_calls

  unfoldable pub to_message_reply : ChatReply → MessageReply
  to_message_reply r = elim r.choices [
    | [] ↦ record {
      id = r.id;
      model = r.model;
      content = [];
      stop = none;
      usage = to_message_usage r.usage;
    }
    | c ∷ _ ↦ record {
      id = r.id;
      model = r.model;
      content = message_blocks c.message;
      stop = stop_of c.finish;
      usage = to_message_usage r.usage;
    }
  ]
