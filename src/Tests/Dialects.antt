-- ===== src/Tests/Dialects.antt =====
-- The translations of requests at fixed inputs, along messages_test.go and anthropic_test.go.
use zealish_router.Base.{
  ◌≡◌, refl, inl, inr, String, Bool, true, false, not, some, List, [], ◌∷◌, str_eq, arith,
}
use zealish_router.Dialects.{
  plain, listed, ContentBlock, text_block, image_block, tool_use, tool_result, Turn,
  MessagesRequest, ChatContent, result_text,
}
use zealish_router.Dialects.ToChat.{
  to_chat_request, to_chat_turns, to_chat_messages, messages_of, gather_blocks, gather_block,
  tool_result_content, result_parts, image_url_of,
}
use zealish_router.Dialects.ToMessages.{
  to_messages_request, to_upstream, to_turns, message_turns, to_source, to_content, part_blocks,
}
use zealish_router.Dialects.Atoms.{CarriedTurns}
use zealish_router.Wire.{to_message_usage, from_message_usage, stop_reason, finish_reason}
use zealish_router.Dialects.Replies.{
  MessageReply, to_message_reply, from_message_reply, reply_text, calls_from, tool_use_blocks,
}
use zealish_router.Dialects.Replied.{Conveys, to_message_reply-from_message_reply}
use zealish_router.Dialects.Requests.{Preserves, to_messages_request-Preserves}

abbrev valid : String → Bool
valid text = not (str_eq text "")

abbrev encode : ChatContent → String
encode _ = "[...]"

abbrev turn : String → List ContentBlock → Turn
turn role blocks = record { role = role; content = listed blocks }

abbrev asked : MessagesRequest
asked = record {
  model = "claude";
  turns =
      turn "user" (text_block "What is the weather?" ∷ [])
      ∷ turn "assistant" (text_block "Let me look." ∷ tool_use "t1" "weather" "{}" ∷ [])
      ∷ turn "user" (tool_result "t1" (plain "no signal") true ∷ text_block "And now?" ∷ [])
      ∷ [];
  system = plain "Be brief.";
  max_tokens = 100;
  stop = [];
  tools = record { name = "weather"; description = ""; schema = "" } ∷ [];
  tool_choice = some (record { kind = "any"; name = "" });
}

abbrev asked_carried : CarriedTurns valid asked.turns
asked_carried = (
  (inl refl, (tt, tt)),
  ((inr refl, (tt, ((refl, refl), tt))), ((inl refl, (refl, (tt, tt))), tt)),
)

to_messages_request-Preserves_example :
    Preserves "claude-opus" asked
      (to_messages_request valid encode (to_upstream "claude-opus" (to_chat_request asked)))
to_messages_request-Preserves_example =
    to_messages_request-Preserves valid encode "claude-opus" asked asked_carried (omega arith)

-- The mark of a failed tool, and the parts of its result, do not reach the upstream.
failed_result :
    to_turns valid encode (
      to_chat_turns (
        turn "user" (tool_result "t1" (listed (result_text "a" ∷ result_text "b" ∷ [])) true ∷ [])
        ∷ []))
    ≡ turn "user" (tool_result "t1" (plain "[...]") false ∷ []) ∷ []
unfolding to_turns message_turns to_chat_turns to_chat_messages messages_of gather_blocks
    gather_block tool_result_content result_parts
failed_result = refl

-- An image in the request comes back as it was.
inline_image :
    to_turns valid encode (
      to_chat_turns (
        turn "user" (
          image_block
            (some (record { kind = "base64"; media = "image/gif"; data_ = "R0lG"; url = "" }))
          ∷ [])
        ∷ []))
    ≡ turn "user" (
        image_block
          (some (record { kind = "base64"; media = "image/gif"; data_ = "R0lG"; url = "" }))
        ∷ [])
      ∷ []
unfolding to_turns message_turns to_chat_turns to_chat_messages messages_of gather_blocks
    gather_block image_url_of to_source to_content part_blocks
inline_image = refl

abbrev answer : MessageReply
answer = record {
  id = "r1";
  model = "claude";
  content = text_block "Let me look." ∷ tool_use "t1" "weather" "{}" ∷ text_block " Wait." ∷ [];
  stop = some "stop_sequence";
  usage = some (record { input = 3; output = 9; cache_read = 0; cache_creation = 5 });
}

-- The texts are joined before the call, and the reason becomes the end of the turn.
answer_normal : to_message_reply valid (from_message_reply answer) ≡ record answer {
  content = text_block "Let me look. Wait." ∷ tool_use "t1" "weather" "{}" ∷ [];
  stop = some "end_turn";
}
unfolding to_message_reply from_message_reply reply_text calls_from tool_use_blocks to_message_usage
    from_message_usage stop_reason finish_reason
answer_normal = refl

to_message_reply-from_message_reply_example :
    Conveys answer (to_message_reply valid (from_message_reply answer))
to_message_reply-from_message_reply_example =
    to_message_reply-from_message_reply valid answer (refl, tt)
