-- ===== src/Dialects/Prompt.antt =====
-- The system prompt of a request on its way to an upstream of the Messages dialect.
use zealish_router.Base.{
  ◌≡◌, refl, sym, ap, ◌∙◌, String, append, append_empty, empty_append, Bool, Bool-cases, false,
  ◌||◌, some, List, [], ◌∷◌, ◌++◌, if◌then◌else◌, if_cases, if_either, str_eq, ◌⊎◌, inl, inr, arith,
  eq_iff,
}
use zealish_router.Dialects.{
  Content, absent, plain, opaque, listed, ContentBlock, text_block, image_block, tool_use,
  tool_result, other_block, Turn, ChatMessage, chat_text, image_part,
}
use zealish_router.Dialects.ToChat.{
  Gathered, nothing_yet, gather_block, gather_blocks, is_empty, message, parts_content,
  call_message, messages_of, to_chat_messages, to_chat_turns, system_text, system_texts, join_texts,
  image_url_of,
}
use zealish_router.Dialects.ToMessages.{system_of, is_system, join, system_content}
use zealish_router.Dialects.Atoms.{CarriedTurns}

-- Messages that are no system prompt.
abbrev pub Silent : List ChatMessage → Type 0
Silent [] = Unit
Silent (m ∷ ms) = (is_system m.role ≡ false) × Silent ms

Silent-append : (ms ns : List ChatMessage) → Silent ms → Silent ns → Silent (ms ++ ns)
Silent-append [] ns h k = k
Silent-append (m ∷ ms) ns h k = (h.0, Silent-append ms ns h.1 k)

system_of-Silent : (ms : List ChatMessage) → Silent ms → system_of ms ≡ []
unfolding system_of
system_of-Silent [] h = refl
system_of-Silent (m ∷ ms) h = ground (arith, h.0, system_of-Silent ms h.1)

gather_block-Silent :
    (b : ContentBlock) (g : Gathered) → Silent g.out → Silent (gather_block b g).out
unfolding gather_block
gather_block-Silent (text_block text) g h = h
gather_block-Silent (image_block source) g h =
    if_either (λ (g' : Gathered). Silent g'.out) (str_eq (image_url_of source) "")
      {y = record g { parts = g.parts ++ image_part (some (image_url_of source)) ∷ [] }} h h
gather_block-Silent (tool_use id name input) g h = h
gather_block-Silent (tool_result id content is_error) g h = Silent-append g.out _ h (refl, tt)
gather_block-Silent other_block g h = h

gather_blocks-Silent :
    (bs : List ContentBlock) (g : Gathered) → Silent g.out → Silent (gather_blocks bs g).out
unfolding gather_blocks
gather_blocks-Silent [] g h = h
gather_blocks-Silent (b ∷ bs) g h =
    gather_blocks-Silent bs (gather_block b g) (gather_block-Silent b g h)

speaker_silent : (role : String) → (role ≡ "user") ⊎ (role ≡ "assistant") → is_system role ≡ false
speaker_silent role (inl h) = rw h refl
speaker_silent role (inr h) = rw h refl

to_chat_messages-Silent :
    (role : String) (c : Content ContentBlock)
    → is_system role ≡ false
    → Silent (to_chat_messages (record { role = role; content = c }))
unfolding to_chat_messages messages_of
to_chat_messages-Silent role absent h = (h, tt)
to_chat_messages-Silent role (plain text) h = (h, tt)
to_chat_messages-Silent role (opaque raw) h = (h, tt)
to_chat_messages-Silent role (listed bs) h =
    let g = gather_blocks bs nothing_yet in
    let quiet = gather_blocks-Silent bs nothing_yet tt in
    if_either Silent (is_empty g.calls)
      (if_either Silent (is_empty g.parts) quiet
        (Silent-append g.out (message role (parts_content g) ∷ []) quiet (h, tt)))
      (Silent-append g.out (call_message g ∷ []) quiet (refl, tt))

pub to_chat_turns-Silent :
    (valid : String → Bool) (ts : List Turn) → CarriedTurns valid ts → Silent (to_chat_turns ts)
unfolding to_chat_turns
to_chat_turns-Silent valid [] h = tt
to_chat_turns-Silent valid (t ∷ ts) h =
    Silent-append (to_chat_messages t) (to_chat_turns ts)
      (to_chat_messages-Silent t.role t.content (speaker_silent t.role h.0.0))
      (to_chat_turns-Silent valid ts h.1)

-- The messages with the system prompt in front.
abbrev pub prompted : String → List ChatMessage → List ChatMessage
prompted system ms =
    (if str_eq system "" then [] else message "system" (chat_text system) ∷ []) ++ ms

pub prompted_system :
    (system : String) (ms : List ChatMessage)
    → Silent ms
    → system_content (system_of (prompted system ms))
      ≡ (if str_eq system "" then absent else plain system)
unfolding system_of join
prompted_system system ms h =
    if_cases
      (λ front.
        system_content (system_of (front ++ ms))
        ≡ (if str_eq system "" then absent else plain system))
      (str_eq system "") (λ none_. rw (system_of-Silent ms h) (rw none_ refl))
      (λ some_. rw (system_of-Silent ms h) (rw some_ refl))

-- The texts of blocks, with an empty line between those that are not empty.
unfoldable pub paragraphs : List ContentBlock → String
paragraphs [] = ""
paragraphs (text_block text ∷ blocks) =
    let rest = paragraphs blocks in
    append text (if str_eq text "" || str_eq rest "" then rest else append "\n\n" rest)
paragraphs (b ∷ blocks) = paragraphs blocks

abbrev pub prompt_text : Content ContentBlock → String
prompt_text (plain text) = text
prompt_text (listed blocks) = paragraphs blocks
prompt_text _ = ""

join_texts-append :
    (text rest : String)
    → join_texts text rest
      ≡ append text (if str_eq text "" || str_eq rest "" then rest else append "\n\n" rest)
join_texts-append text rest = elim (Bool-cases (str_eq text "")) [
  | inl e ↦ rw ((eq_iff text "").0 e) (sym (empty_append rest))
  | inr e ↦ elim (Bool-cases (str_eq rest "")) [
    | inl f ↦ rw e (rw ((eq_iff rest "").0 f) (sym (append_empty text)))
    | inr f ↦ rw e (rw f refl)
  ]
]

system_texts-paragraphs : (bs : List ContentBlock) → system_texts bs ≡ paragraphs bs
unfolding system_texts paragraphs
system_texts-paragraphs [] = refl
system_texts-paragraphs (text_block text ∷ bs) =
    ap (join_texts text) (system_texts-paragraphs bs) ∙ join_texts-append text (paragraphs bs)
system_texts-paragraphs (image_block source ∷ bs) = system_texts-paragraphs bs
system_texts-paragraphs (tool_use id name input ∷ bs) = system_texts-paragraphs bs
system_texts-paragraphs (tool_result id result is_error ∷ bs) = system_texts-paragraphs bs
system_texts-paragraphs (other_block ∷ bs) = system_texts-paragraphs bs

pub system_text-prompt_text : (c : Content ContentBlock) → system_text c ≡ prompt_text c
unfolding system_text
system_text-prompt_text absent = refl
system_text-prompt_text (plain text) = refl
system_text-prompt_text (opaque raw) = refl
system_text-prompt_text (listed blocks) = system_texts-paragraphs blocks
