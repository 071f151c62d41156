-- ===== src/Dialects/Replied.antt =====
-- What an upstream answers in the Messages dialect reaches a client of that dialect.
use zealish_router.Base.{
  ℕ, ◌+◌, ◌≡◌, refl, subst, sym, ap, ◌∙◌, String, append, append_empty, Bool, true, ◌||◌, Option,
  none, some, List, [], ◌∷◌, ◌++◌, if◌then◌else◌, if_cases, str_eq, arith, eq_iff,
}
use zealish_router.Wire.{ToolCall, MessageUsage, to_message_usage, stop_reason, finish_reason}
use zealish_router.Wire.Usage.{to_message_usage-from_message_usage}
use zealish_router.Dialects.{
  ContentBlock, text_block, image_block, tool_use, tool_result, other_block, chat_text,
}
use zealish_router.Dialects.Atoms.{called, texts, calls, input_json}
use zealish_router.Dialects.Collected.{input_json-input_json}
use zealish_router.Dialects.Replies.{
  MessageReply, reply_text, calls_from, finish_of, usage_from, from_message_reply, reply_texts,
  stop_of, tool_use_blocks, to_message_reply,
}

-- The input of every call is valid JSON, as it is in a response that has been decoded.
abbrev pub ValidInputs : (String → Bool) → List ContentBlock → Type 0
ValidInputs valid [] = Unit
ValidInputs valid (tool_use id name input ∷ blocks) =
    (valid (input_json input) ≡ true) × ValidInputs valid blocks
ValidInputs valid (b ∷ blocks) = ValidInputs valid blocks

-- The reasons that both dialects tell apart; any other one is an end of the turn.
abbrev pub known_stop : Option String → Option String
known_stop none = none
known_stop (some reason) =
    if str_eq reason ""
    then none
    else if str_eq reason "max_tokens" || str_eq reason "tool_use"
    then some reason
    else some "end_turn"

stop_of-finish_of : (reason : Option String) → stop_of (some (finish_of reason)) ≡ known_stop reason
unfolding stop_reason finish_reason
stop_of-finish_of none = refl
stop_of-finish_of (some reason) =
    let goal = λ (given : String). stop_of (some given) ≡ known_stop (some reason) in
    let at = λ (text : String) (h : str_eq reason text ≡ true). sym ((eq_iff reason text).0 h) in
    if_cases goal (str_eq reason "max_tokens")
      (λ h. subst (λ r. some "max_tokens" ≡ known_stop (some r)) (at "max_tokens" h) refl)
      (λ long.
        if_cases goal (str_eq reason "tool_use")
          (λ h. subst (λ r. some "tool_use" ≡ known_stop (some r)) (at "tool_use" h) refl)
          (λ tool.
            if_cases goal (str_eq reason "")
              (λ h. subst (λ r. none ≡ known_stop (some r)) (at "" h) refl)
              (λ other. ground (arith, long, tool, other))))

usage_kept : (u : Option MessageUsage) → to_message_usage (usage_from u) ≡ u
unfolding to_message_usage
usage_kept none = refl
usage_kept (some u) = to_message_usage-from_message_usage u

reply_text-texts : (bs : List ContentBlock) → reply_text bs ≡ texts bs
unfolding reply_text texts
reply_text-texts [] = refl
reply_text-texts (text_block text ∷ bs) = ap (append text) (reply_text-texts bs)
reply_text-texts (image_block s ∷ bs) = reply_text-texts bs
reply_text-texts (tool_use id name input ∷ bs) = reply_text-texts bs
reply_text-texts (tool_result id content is_error ∷ bs) = reply_text-texts bs
reply_text-texts (other_block ∷ bs) = reply_text-texts bs

module _ (valid : String → Bool) where
  if_valid : (a : String) → valid a ≡ true → (if valid a then a else "{}") ≡ a
  if_valid a h = ground (arith, h)

  tool_use_blocks-texts : (cs : List ToolCall) → texts (tool_use_blocks valid cs) ≡ ""
  unfolding texts tool_use_blocks
  tool_use_blocks-texts [] = refl
  tool_use_blocks-texts (c ∷ cs) = tool_use_blocks-texts cs

  calls-calls_from :
      (n : ℕ) (bs : List ContentBlock)
      → ValidInputs valid bs
      → calls (tool_use_blocks valid (calls_from n bs)) ≡ calls bs
  unfolding calls tool_use_blocks calls_from
  calls-calls_from n [] h = refl
  calls-calls_from n (text_block text ∷ bs) h = calls-calls_from n bs h
  calls-calls_from n (image_block s ∷ bs) h = calls-calls_from n bs h
  calls-calls_from n (tool_use id name input ∷ bs) h =
      ap
        (λ a. called id name (input_json a) ∷ calls (tool_use_blocks valid (calls_from (n + 1) bs)))
        (if_valid (input_json input) h.0)
      ∙ ap (λ a. called id name a ∷ calls (tool_use_blocks valid (calls_from (n + 1) bs)))
          (input_json-input_json input)
      ∙ ap (λ rest. called id name (input_json input) ∷ rest) (calls-calls_from (n + 1) bs h.1)
  calls-calls_from n (tool_result id content is_error ∷ bs) h = calls-calls_from n bs h
  calls-calls_from n (other_block ∷ bs) h = calls-calls_from n bs h

  -- The blocks of a chat message with this text and these calls.
  blocks_said :
      (text : String) (cs : List ToolCall)
      → (texts (reply_texts (chat_text text) ++ tool_use_blocks valid cs) ≡ text)
        × (calls (reply_texts (chat_text text) ++ tool_use_blocks valid cs)
            ≡ calls (tool_use_blocks valid cs))
  unfolding texts calls
  blocks_said text cs =
      if_cases
        (λ bs.
          (texts (bs ++ tool_use_blocks valid cs) ≡ text)
          × (calls (bs ++ tool_use_blocks valid cs) ≡ calls (tool_use_blocks valid cs)))
        (str_eq text "")
        (λ nothing. (tool_use_blocks-texts cs ∙ sym ((eq_iff text "").0 nothing), refl))
        (λ something. (ap (append text) (tool_use_blocks-texts cs) ∙ append_empty text, refl))

-- The client is told what the upstream answered.
pub record Conveys (r r' : MessageReply) : Type 0 where
  pub id : r'.id ≡ r.id
  pub model : r'.model ≡ r.model
  pub text : texts r'.content ≡ texts r.content
  pub calls : calls r'.content ≡ calls r.content
  pub stop : r'.stop ≡ known_stop r.stop
  pub usage : r'.usage ≡ r.usage

-- A response of the Messages dialect, whose calls have valid inputs, reaches a client of that dialect
-- with the same identity, model, joined text, calls and usage, and with its stop reason if that is a
-- limit or a call; any other reason becomes the end of the turn.
pub to_message_reply-from_message_reply :
    (valid : String → Bool) (r : MessageReply)
    → ValidInputs valid r.content
    → Conveys r (to_message_reply valid (from_message_reply r))
unfolding to_message_reply from_message_reply
to_message_reply-from_message_reply valid r h =
    let (t, c) = blocks_said valid (reply_text r.content) (calls_from 0 r.content) in
    record {
      id = refl;
      model = refl;
      text = t ∙ reply_text-texts r.content;
      calls = c ∙ calls-calls_from valid 0 r.content h;
      stop = stop_of-finish_of r.stop;
      usage = usage_kept r.usage;
    }
