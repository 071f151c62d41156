-- ===== src/Dialects/Requests.antt =====
-- A request of the Messages dialect that is routed to an upstream of that dialect.
use zealish_router.Base.{
  ◌<◌, ◌≡◌, refl, ap, ◌∙◌, String, Bool, ◌&&◌, ◌||◌, not, Option, some, none, List, [], ◌∷◌, ◌++◌,
  if◌then◌else◌, if_cases, str_eq, arith, eq_iff,
}
use zealish_router.Dialects.{
  absent, plain, Tool, MessagesRequest, ChatMessage, ChatContent, ChatTool, ToolChoice, ChatChoice,
}
use zealish_router.Dialects.ToChat.{
  is_empty, to_chat_turns, system_text, chat_tools, to_chat_tools, to_chat_request, to_chat_choice,
  with_tools, or_no_field,
}
use zealish_router.Dialects.ToMessages.{
  to_turns, message_turns, to_tools, tools_of, to_choice, if_tools, to_messages_request,
  to_upstream, empty_schema,
}
use zealish_router.Dialects.Atoms.{atoms, unmarked, CarriedTurns}
use zealish_router.Dialects.Collected.{told}
use zealish_router.Dialects.Prompt.{
  to_chat_turns-Silent, prompted, prompted_system, prompt_text, system_text-prompt_text,
}
use zealish_router.Dialects.Kept.{to_chat_turns-told}

-- The tools that an upstream can be told of: those with a name, each with a schema.
unfoldable pub named_tools : List Tool → List Tool
named_tools [] = []
named_tools (t ∷ tools) =
    let rest = named_tools tools in
    let schema = if str_eq t.schema "" then empty_schema else t.schema in
    if str_eq t.name ""
    then rest
    else record { name = t.name; description = t.description; schema = schema } ∷ rest

to_tools-chat_tools : (tools : List Tool) → to_tools (chat_tools tools) ≡ named_tools tools
unfolding to_tools chat_tools named_tools
to_tools-chat_tools [] = refl
to_tools-chat_tools (t ∷ tools) = ground (arith, to_tools-chat_tools tools)

tools_of-or_no_field : (tools : List ChatTool) → tools_of (or_no_field tools) ≡ to_tools tools
unfolding to_tools
tools_of-or_no_field [] = refl
tools_of-or_no_field (t ∷ tools) = refl

tools_of-to_chat_tools : (tools : List Tool) → tools_of (to_chat_tools tools) ≡ named_tools tools
unfolding to_chat_tools
tools_of-to_chat_tools tools = tools_of-or_no_field (chat_tools tools) ∙ to_tools-chat_tools tools

-- The choices that both dialects know; a word has no name beside it.
unfoldable pub known_choice : Option ToolChoice → Option ToolChoice
known_choice none = none
known_choice (some c) =
    if str_eq c.kind "auto" || (str_eq c.kind "none" || str_eq c.kind "any")
    then some (record { kind = c.kind; name = "" })
    else if str_eq c.kind "tool" && not (str_eq c.name "")
    then some c
    else none

to_choice-to_chat_choice : (c : Option ToolChoice) → to_choice (to_chat_choice c) ≡ known_choice c
unfolding to_choice to_chat_choice known_choice
to_choice-to_chat_choice none = refl
to_choice-to_chat_choice (some c) =
    ground
      (arith, eq_iff c.kind "auto", eq_iff c.kind "none", eq_iff c.kind "any", eq_iff c.kind "tool")

if_tools_lem :
    (tools : List Tool) (c : Option ToolChoice)
    → if_tools tools c ≡ (if is_empty tools then none else c)
if_tools_lem [] c = refl
if_tools_lem (t ∷ tools) c = refl

chosen :
    (tools : List ChatTool) (c : Option ChatChoice)
    → if_tools (tools_of (or_no_field tools)) (to_choice (with_tools (or_no_field tools) c))
      ≡ (if is_empty (to_tools tools) then none else to_choice c)
unfolding to_tools
chosen [] c = refl
chosen (t ∷ tools) c = if_tools_lem (to_tools (t ∷ tools)) (to_choice c)

prompted_told :
    (valid : String → Bool) (encode : ChatContent → String) (system : String)
    (ms : List ChatMessage)
    → told valid encode (prompted system ms) ≡ told valid encode ms
unfolding told to_turns message_turns
prompted_told valid encode system ms =
    if_cases (λ front. told valid encode (front ++ ms) ≡ told valid encode ms) (str_eq system "")
      (λ h. refl) (λ h. refl)

-- What an upstream is told of a request is what the client said, but for the marks of failed results.
pub record Preserves (model : String) (r r' : MessagesRequest) : Type 0 where
  pub route : r'.model ≡ model
  pub conversation : atoms r'.turns ≡ unmarked (atoms r.turns)
  pub prompt :
      r'.system
      ≡ (if str_eq (prompt_text r.system) "" then absent else plain (prompt_text r.system))
  pub tools : r'.tools ≡ named_tools r.tools
  pub choice :
      r'.tool_choice ≡ (if is_empty (named_tools r.tools) then none else known_choice r.tool_choice)
  pub limit : r'.max_tokens ≡ r.max_tokens
  pub stop : r'.stop ≡ r.stop

-- A request of the Messages dialect, whose token limit is positive and whose turns are of the user or
-- the assistant, with texts, calls of the assistant with valid arguments and results of plain text
-- that name their call, reaches an upstream of its dialect with the model of the route, with the same
-- limit, stop sequences and system prompt, with every tool that has a name, and with the choice among
-- them if there are any and both dialects know it. The conversation keeps the order of its turns and
-- every text, call and result, but no result is marked as failed any more; within a turn the results
-- come first, in their order, then the texts, joined, then the calls in theirs.
pub to_messages_request-Preserves :
    (valid : String → Bool) (encode : ChatContent → String) (model : String) (r : MessagesRequest)
    → CarriedTurns valid r.turns
    → 0 < r.max_tokens
    → Preserves model r (to_messages_request valid encode (to_upstream model (to_chat_request r)))
unfolding to_messages_request to_chat_request to_chat_tools told
to_messages_request-Preserves valid encode model r h positive = record {
  route = refl;
  conversation =
      prompted_told valid encode (system_text r.system) (to_chat_turns r.turns)
      ∙ to_chat_turns-told valid encode r.turns h;
  prompt =
      prompted_system (system_text r.system) (to_chat_turns r.turns)
        (to_chat_turns-Silent valid r.turns h)
      ∙ ap (λ text. if str_eq text "" then absent else plain text)
          (system_text-prompt_text r.system);
  tools = tools_of-to_chat_tools r.tools;
  choice =
      chosen (chat_tools r.tools) (to_chat_choice r.tool_choice)
      ∙ ap (λ ts. if is_empty ts then none else to_choice (to_chat_choice r.tool_choice))
          (to_tools-chat_tools r.tools)
      ∙ ap (λ c. if is_empty (named_tools r.tools) then none else c)
          (to_choice-to_chat_choice r.tool_choice);
  limit = ground (arith, positive);
  stop = refl;
}
