-- ===== src/Dialects/Kept.antt =====
-- What a conversation says, on the way of a Messages request to an upstream of that dialect.
use zealish_router.Base.{
  ◌≡◌, refl, subst, sym, ap, ◌∙◌, String, append_empty, empty_append, Bool, true, false, ◌&&◌, List,
  [], ◌∷◌, ◌++◌, if◌then◌else◌, if_cases, if_either, str_eq, ◌⊎◌, inl, inr, append-nil, arith,
  length, ltb, ◌==◌, len,
}
use zealish_router.Wire.{ToolCall}
use zealish_router.Dialects.{
  Content, absent, plain, opaque, listed, ContentBlock, Turn, ChatMessage, ChatContent, no_content,
  chat_text, chat_parts, Part,
}
use zealish_router.Dialects.ToChat.{
  Gathered, nothing_yet, gather_blocks, is_empty, message, parts_content, call_message, messages_of,
  to_chat_messages, to_chat_turns,
}
use zealish_router.Dialects.ToMessages.{
  part_blocks, to_content, or_empty_text, text_blocks, call_blocks, message_turns, to_turns,
}
use zealish_router.Dialects.Atoms
use zealish_router.Dialects.Atoms.{
  Atom, said, called, resulted, said_by, texts, calls, results, block_atoms, turn_atoms, atoms,
  atoms-append, unmarked, unmarked-append, unmarked-said_by, unmarked-block_atoms, Carried,
  CarriedAll, CarriedContent, CarriedTurns,
}
use zealish_router.Dialects.Collected.{
  call_atoms, OnlyTexts, joined, block_atoms-part_blocks, AllValid, told, told-append, nothing_told,
  gather_blocks-Collects, call_blocks_said,
}

module _ (valid : String → Bool) (encode : ChatContent → String) where
  -- A message with a text, with parts, or with calls.
  told_text :
      (role text : String)
      → (role ≡ "user") ⊎ (role ≡ "assistant")
      → told valid encode (message role (chat_text text) ∷ []) ≡ said_by role text
  unfolding told to_turns message_turns to_content atoms turn_atoms
  told_text role text (inl h) =
      subst (λ r. told valid encode (message r (chat_text text) ∷ []) ≡ said_by r text) (sym h)
        (append-nil (said_by "user" text))
  told_text role text (inr h) =
      subst (λ r. told valid encode (message r (chat_text text) ∷ []) ≡ said_by r text) (sym h)
        (append-nil (said_by "assistant" text))

  or_empty_said :
      (role : String) (bs : List ContentBlock)
      → turn_atoms (record { role = role; content = or_empty_text bs }) ≡ block_atoms role bs
  unfolding turn_atoms block_atoms results texts Atoms.calls
  or_empty_said role [] = refl
  or_empty_said role (b ∷ bs) = refl

  told_parts :
      (role : String) (ps : List Part)
      → (role ≡ "user") ⊎ (role ≡ "assistant")
      → OnlyTexts ps
      → told valid encode (message role (chat_parts ps) ∷ []) ≡ said_by role (joined ps)
  unfolding told to_turns message_turns to_content atoms
  told_parts role ps (inl h) only =
      subst (λ r. told valid encode (message r (chat_parts ps) ∷ []) ≡ said_by r (joined ps))
        (sym h)
        (append-nil (turn_atoms _)
          ∙ or_empty_said "user" (part_blocks ps)
          ∙ block_atoms-part_blocks "user" ps only)
  told_parts role ps (inr h) only =
      subst (λ r. told valid encode (message r (chat_parts ps) ∷ []) ≡ said_by r (joined ps))
        (sym h)
        (append-nil (turn_atoms _)
          ∙ or_empty_said "assistant" (part_blocks ps)
          ∙ block_atoms-part_blocks "assistant" ps only)

  block_atoms-calls :
      (text : String) (cs : List ToolCall)
      → AllValid valid cs
      → block_atoms "assistant" (
          text_blocks (if str_eq text "" then no_content else chat_text text)
          ++ call_blocks valid encode cs)
        ≡ said_by "assistant" text ++ call_atoms cs
  unfolding block_atoms results texts Atoms.calls
  block_atoms-calls text cs v =
      let (r, (t, k)) = call_blocks_said valid encode cs v in
      if_cases
        (λ c.
          block_atoms "assistant" (text_blocks c ++ call_blocks valid encode cs)
          ≡ said_by "assistant" text ++ call_atoms cs)
        (str_eq text "") (λ h. rw r (rw t (rw k (rw h refl))))
        (λ h. rw h (rw r (rw t (rw k (rw (append_empty text) (rw h refl))))))

  told_call :
      (text : String) (cs : List ToolCall)
      → AllValid valid cs
      → is_empty cs ≡ false
      → told valid encode (
          record (message "assistant" (if str_eq text "" then no_content else chat_text text)) {
            tool_calls = cs;
          }
          ∷ [])
        ≡ said_by "assistant" text ++ call_atoms cs
  unfolding told to_turns message_turns atoms turn_atoms
  told_call text [] v h = absurd (ground (arith, h))
  told_call text (c ∷ cs) v h =
      append-nil (block_atoms "assistant" _) ∙ block_atoms-calls text (c ∷ cs) v

  joined_empty : (ps : List Part) → is_empty ps ≡ true → joined ps ≡ ""
  joined_empty [] h = refl
  joined_empty (p ∷ ps) h = absurd (ground (arith, h))

  calls_empty : (cs : List ToolCall) → is_empty cs ≡ true → call_atoms cs ≡ []
  unfolding call_atoms
  calls_empty [] h = refl
  calls_empty (c ∷ cs) h = absurd (ground (arith, h))

  told_content :
      (role : String) (g : Gathered)
      → (role ≡ "user") ⊎ (role ≡ "assistant")
      → OnlyTexts g.parts
      → joined g.parts ≡ g.text
      → told valid encode (message role (parts_content g) ∷ []) ≡ said_by role g.text
  told_content role g who only j =
      if_either (λ c. told valid encode (message role c ∷ []) ≡ said_by role g.text)
        ((length g.parts == 1) && ltb 0 (len g.text)) (told_text role g.text who)
        (told_parts role g.parts who only ∙ ap (said_by role) j)

  -- The turn's own message, after its results.
  messages_of-told :
      (role : String) (g : Gathered)
      → ((role ≡ "user") ⊎ (role ≡ "assistant"))
      → AllValid valid g.calls
      → (is_empty g.calls ≡ false → role ≡ "assistant")
      → OnlyTexts g.parts
      → joined g.parts ≡ g.text
      → told valid encode (messages_of role g)
        ≡ told valid encode g.out ++ (said_by role g.text ++ call_atoms g.calls)
  unfolding messages_of
  messages_of-told role g who v speaker only j =
      let goal = λ (ms : List ChatMessage).
        told valid encode ms
        ≡ told valid encode g.out ++ (said_by role g.text ++ call_atoms g.calls) in
      if_cases goal (is_empty g.calls)
        (λ quiet.
          let bare : told valid encode g.out ++ (said_by role g.text ++ call_atoms g.calls)
              ≡ told valid encode g.out ++ said_by role g.text =
            ap (λ xs. told valid encode g.out ++ (said_by role g.text ++ xs))
              (calls_empty g.calls quiet)
            ∙ ap (λ xs. told valid encode g.out ++ xs) (append-nil (said_by role g.text)) in
          if_cases goal (is_empty g.parts)
            (λ none_.
              sym (append-nil (told valid encode g.out))
              ∙ ap (λ s. told valid encode g.out ++ said_by role s)
                  (sym (joined_empty g.parts none_) ∙ j)
              ∙ sym bare)
            (λ some_.
              told-append valid encode g.out (message role (parts_content g) ∷ [])
              ∙ ap (λ xs. told valid encode g.out ++ xs) (told_content role g who only j)
              ∙ sym bare))
        (λ calling.
          told-append valid encode g.out (call_message g ∷ [])
          ∙ ap (λ xs. told valid encode g.out ++ xs)
              (told_call g.text g.calls v calling
                ∙ ap (λ r. said_by r g.text ++ call_atoms g.calls) (sym (speaker calling))))

  -- A turn keeps what it says.
  content_told :
      (role : String) (c : Content ContentBlock)
      → (role ≡ "user") ⊎ (role ≡ "assistant")
      → CarriedContent valid role c
      → told valid encode (to_chat_messages (record { role = role; content = c }))
        ≡ unmarked (turn_atoms (record { role = role; content = c }))
  unfolding to_chat_messages turn_atoms Atoms.calls call_atoms
  content_told role absent who h = absurd h
  content_told role (opaque raw) who h = absurd h
  content_told role (plain text) who h = told_text role text who ∙ sym (unmarked-said_by role text)
  content_told role (listed bs) who h =
      let g = gather_blocks bs nothing_yet in
      let c = gather_blocks-Collects valid encode role bs nothing_yet h in
      let (only, j) = c.parts tt refl in
      let marks = unmarked (results bs) in
      messages_of-told role g who (c.valid_calls tt) (c.speaker (λ k. absurd (ground (arith, k))))
        only j
      ∙ ap (λ xs. xs ++ (said_by role g.text ++ call_atoms g.calls))
          (c.out ∙ nothing_told valid encode marks)
      ∙ ap (λ xs. marks ++ (said_by role g.text ++ xs)) c.calls
      ∙ ap (λ s. marks ++ (said_by role s ++ Atoms.calls bs)) (c.text ∙ empty_append (texts bs))
      ∙ sym (unmarked-block_atoms role bs)

  pub to_chat_turns-told :
      (ts : List Turn)
      → CarriedTurns valid ts
      → told valid encode (to_chat_turns ts) ≡ unmarked (atoms ts)
  unfolding to_chat_turns atoms unmarked
  to_chat_turns-told [] h = sym (append-nil (told valid encode [])) ∙ nothing_told valid encode []
  to_chat_turns-told (t ∷ ts) h =
      told-append valid encode (to_chat_messages t) (to_chat_turns ts)
      ∙ ap (λ xs. xs ++ told valid encode (to_chat_turns ts))
          (content_told t.role t.content h.0.0 h.0.1)
      ∙ ap (λ xs. unmarked (turn_atoms t) ++ xs) (to_chat_turns-told ts h.1)
      ∙ sym (unmarked-append (turn_atoms t) (atoms ts))
