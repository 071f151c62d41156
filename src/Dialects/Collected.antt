-- ===== src/Dialects/Collected.antt =====
-- What the loop over the blocks of a turn collects.
use zealish_router.Base.{
  ◌≡◌, refl, sym, ap, ◌∙◌, String, append, append-append, append_empty, empty_append, Bool, true,
  false, ◌||◌, List, [], ◌∷◌, ◌++◌, if_cases, str_eq, append_assoc, append-nil, arith,
}
use zealish_router.Wire.{ToolCall}
use zealish_router.Dialects.{
  absent, plain, opaque, listed, ContentBlock, text_block, image_block, tool_use, tool_result,
  other_block, ChatMessage, ChatContent, chat_text, Part, text_part, image_part, other_part,
}
use zealish_router.Dialects.ToChat.{
  arguments_of, Gathered, gather_block, gather_blocks, is_empty, tool_result_content,
  result_message, new_call,
}
use zealish_router.Dialects.ToMessages.{part_blocks, call_blocks, message_turns, to_turns}
use zealish_router.Dialects.Atoms
use zealish_router.Dialects.Atoms.{
  Atom, said, called, resulted, said_by, texts, calls, results, block_atoms, turn_atoms, atoms,
  atoms-append, input_json, unmarked, Carried, CarriedAll, CarriedContent, CarriedTurns,
}

-- The calls that have been collected, as atoms.
unfoldable pub call_atoms : List ToolCall → List Atom
call_atoms [] = []
call_atoms (c ∷ cs) = called c.id c.name (input_json c.arguments) ∷ call_atoms cs

call_atoms-append : (cs ds : List ToolCall) → call_atoms (cs ++ ds) ≡ call_atoms cs ++ call_atoms ds
unfolding call_atoms
call_atoms-append [] ds = refl
call_atoms-append (c ∷ cs) ds =
    ap (λ rest. called c.id c.name (input_json c.arguments) ∷ rest) (call_atoms-append cs ds)

pub arguments_of-input_json : (input : String) → arguments_of input ≡ input_json input
arguments_of-input_json input =
    if_cases (λ a. a ≡ input_json input) (str_eq input "") (λ h. ground (arith, h))
      (λ h. ground (arith, h))

pub input_json-input_json : (input : String) → input_json (input_json input) ≡ input_json input
input_json-input_json input =
    if_cases (λ a. input_json a ≡ a) (str_eq input "" || str_eq input "null") (λ h. refl)
      (λ h. ground (arith, h))

pub input_json-arguments_of : (input : String) → input_json (arguments_of input) ≡ input_json input
input_json-arguments_of input =
    ap input_json (arguments_of-input_json input) ∙ input_json-input_json input

-- Parts that are texts, and the text they join to.
abbrev pub OnlyTexts : List Part → Type 0
OnlyTexts [] = Unit
OnlyTexts (text_part text ∷ parts) = OnlyTexts parts
OnlyTexts _ = ⊥

abbrev pub joined : List Part → String
joined [] = ""
joined (text_part text ∷ parts) = append text (joined parts)
joined (p ∷ parts) = joined parts

OnlyTexts-append :
    (ps : List Part) (text : String) → OnlyTexts ps → OnlyTexts (ps ++ text_part text ∷ [])
OnlyTexts-append [] text h = h
OnlyTexts-append (text_part t ∷ ps) text h = OnlyTexts-append ps text h
OnlyTexts-append (image_part u ∷ ps) text h = absurd h
OnlyTexts-append (other_part ∷ ps) text h = absurd h

joined-append :
    (ps : List Part) (text : String)
    → OnlyTexts ps
    → joined (ps ++ text_part text ∷ []) ≡ append (joined ps) text
joined-append [] text h = append_empty text ∙ sym (empty_append text)
joined-append (text_part t ∷ ps) text h =
    ap (append t) (joined-append ps text h) ∙ sym (append-append t (joined ps) text)
joined-append (image_part u ∷ ps) text h = absurd h
joined-append (other_part ∷ ps) text h = absurd h

-- Such parts become blocks that say the joined text and nothing else.
part_blocks_said :
    (ps : List Part)
    → OnlyTexts ps
    → (results (part_blocks ps) ≡ [])
      × ((texts (part_blocks ps) ≡ joined ps) × (Atoms.calls (part_blocks ps) ≡ []))
unfolding part_blocks results texts Atoms.calls
part_blocks_said [] h = (refl, (refl, refl))
part_blocks_said (text_part text ∷ ps) h =
    let (r, (t, c)) = part_blocks_said ps h in (r, (ap (append text) t, c))
part_blocks_said (image_part u ∷ ps) h = absurd h
part_blocks_said (other_part ∷ ps) h = absurd h

pub block_atoms-part_blocks :
    (role : String) (ps : List Part)
    → OnlyTexts ps
    → block_atoms role (part_blocks ps) ≡ said_by role (joined ps)
unfolding block_atoms
block_atoms-part_blocks role ps h =
    let (r, (t, c)) = part_blocks_said ps h in
    rw r (rw t (rw c (append-nil (said_by role (joined ps)))))

abbrev pub AllValid : (String → Bool) → List ToolCall → Type 0
AllValid valid [] = Unit
AllValid valid (c ∷ cs) = (valid c.arguments ≡ true) × AllValid valid cs

AllValid-append :
    (valid : String → Bool) (cs : List ToolCall) (c : ToolCall)
    → AllValid valid cs
    → valid c.arguments ≡ true
    → AllValid valid (cs ++ c ∷ [])
AllValid-append valid [] c h k = (k, tt)
AllValid-append valid (d ∷ cs) c h k = (h.0, AllValid-append valid cs c h.1 k)

module _ (valid : String → Bool) (encode : ChatContent → String) where
  to_turns-append :
      (ms ns : List ChatMessage)
      → to_turns valid encode (ms ++ ns) ≡ to_turns valid encode ms ++ to_turns valid encode ns
  unfolding to_turns
  to_turns-append [] ns = refl
  to_turns-append (m ∷ ms) ns =
      ap (λ rest. message_turns valid encode m ++ rest) (to_turns-append ms ns)
      ∙ sym (
          append_assoc (message_turns valid encode m) (to_turns valid encode ms)
            (to_turns valid encode ns))

  -- What the upstream is told by these chat messages.
  unfoldable pub told : List ChatMessage → List Atom
  told ms = atoms (to_turns valid encode ms)

  pub told-append : (ms ns : List ChatMessage) → told (ms ++ ns) ≡ told ms ++ told ns
  unfolding told
  told-append ms ns =
      ap atoms (to_turns-append ms ns)
      ∙ atoms-append (to_turns valid encode ms) (to_turns valid encode ns)

  told_result :
      (id text : String) (is_error : Bool)
      → str_eq id "" ≡ false
      → told (result_message id (chat_text text) is_error ∷ []) ≡ resulted id text false ∷ []
  unfolding told to_turns message_turns atoms turn_atoms block_atoms results texts calls
  told_result id text is_error h = ground (arith, h)

  pub nothing_told : (xs : List Atom) → told [] ++ xs ≡ xs
  unfolding told to_turns atoms
  nothing_told xs = refl

  -- What has been collected after these blocks.
  pub record Collects (role : String) (bs : List ContentBlock) (g g' : Gathered) : Type 0 where
    pub out : told g'.out ≡ told g.out ++ unmarked (results bs)
    pub text : g'.text ≡ append g.text (texts bs)
    pub calls : call_atoms g'.calls ≡ call_atoms g.calls ++ Atoms.calls bs
    pub valid_calls : AllValid valid g.calls → AllValid valid g'.calls
    pub speaker :
        (is_empty g.calls ≡ false → role ≡ "assistant")
        → is_empty g'.calls ≡ false
        → role ≡ "assistant"
    pub parts :
        OnlyTexts g.parts
        → joined g.parts ≡ g.text
        → OnlyTexts g'.parts × (joined g'.parts ≡ g'.text)

  pub gather_blocks-Collects :
      (role : String) (bs : List ContentBlock) (g : Gathered)
      → CarriedAll valid role bs
      → Collects role bs g (gather_blocks bs g)
  unfolding gather_blocks gather_block tool_result_content texts Atoms.calls results call_atoms
      unmarked
  gather_blocks-Collects role [] g h = record {
    out = sym (append-nil (told g.out));
    text = sym (append_empty g.text);
    calls = sym (append-nil (call_atoms g.calls));
    valid_calls = λ v. v;
    speaker = λ s. s;
    parts = λ o j. (o, j);
  }
  gather_blocks-Collects role (text_block text ∷ bs) g h =
      let c = gather_blocks-Collects role bs (gather_block (text_block text) g) h.1 in
      record {
        out = c.out;
        text = c.text ∙ append-append g.text text (texts bs);
        calls = c.calls;
        valid_calls = c.valid_calls;
        speaker = c.speaker;
        parts = λ o j.
            c.parts (OnlyTexts-append g.parts text o)
              (joined-append g.parts text o ∙ ap (λ s. append s text) j);
      }
  gather_blocks-Collects role (tool_use id name input ∷ bs) g h =
      let c = gather_blocks-Collects role bs (gather_block (tool_use id name input) g) h.1 in
      record {
        out = c.out;
        text = c.text;
        calls =
            c.calls
            ∙ ap (λ xs. xs ++ Atoms.calls bs)
                (call_atoms-append g.calls (new_call id name input g ∷ []))
            ∙ append_assoc (call_atoms g.calls) (call_atoms (new_call id name input g ∷ []))
                (Atoms.calls bs)
            ∙ ap (λ a. call_atoms g.calls ++ called id name a ∷ Atoms.calls bs)
                (input_json-arguments_of input);
        valid_calls = λ v. c.valid_calls (
            AllValid-append valid g.calls (new_call id name input g) v
              (ap valid (arguments_of-input_json input) ∙ h.0.1));
        speaker = λ s. c.speaker (λ k. h.0.0);
        parts = c.parts;
      }
  gather_blocks-Collects role (tool_result id (plain text) is_error ∷ bs) g h =
      let c =
        gather_blocks-Collects role bs (gather_block (tool_result id (plain text) is_error) g)
          h.1 in
      record {
        out =
            c.out
            ∙ ap (λ xs. xs ++ unmarked (results bs))
                (told-append g.out (result_message id (chat_text text) is_error ∷ [])
                  ∙ ap (λ xs. told g.out ++ xs) (told_result id text is_error h.0))
            ∙ append_assoc (told g.out) (resulted id text false ∷ []) (unmarked (results bs));
        text = c.text;
        calls = c.calls;
        valid_calls = c.valid_calls;
        speaker = c.speaker;
        parts = c.parts;
      }
  gather_blocks-Collects role (image_block _ ∷ bs) g h = absurd h.0
  gather_blocks-Collects role (tool_result id absent is_error ∷ bs) g h = absurd h.0
  gather_blocks-Collects role (tool_result id (opaque _) is_error ∷ bs) g h = absurd h.0
  gather_blocks-Collects role (tool_result id (listed _) is_error ∷ bs) g h = absurd h.0
  gather_blocks-Collects role (other_block ∷ bs) g h = absurd h.0

  pub call_blocks_said :
      (cs : List ToolCall)
      → AllValid valid cs
      → (results (call_blocks valid encode cs) ≡ [])
        × ((texts (call_blocks valid encode cs) ≡ "")
            × (Atoms.calls (call_blocks valid encode cs) ≡ call_atoms cs))
  unfolding call_blocks results texts Atoms.calls call_atoms
  call_blocks_said [] h = (refl, (refl, refl))
  call_blocks_said (c ∷ cs) (v, h) =
      let (r, (t, k)) = call_blocks_said cs h in (r, (t, ground (arith, v, k)))
