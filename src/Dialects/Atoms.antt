-- ===== src/Dialects/Atoms.antt =====
-- What a conversation says, whichever way its turns and blocks are cut: the results of tools, the
-- texts by role, and the calls, in the order of the turns.
use zealish_router.Base.{
  ◌≡◌, refl, sym, ap, ◌∙◌, String, append, Bool, true, false, List, [], ◌∷◌, ◌++◌, if◌then◌else◌,
  str_eq, ◌⊎◌, ◌||◌, append_assoc, if_either,
}
use zealish_router.Dialects.{
  Content, plain, listed, ContentBlock, text_block, image_block, tool_use, tool_result, other_block,
  Turn,
}

pub data Atom : Type 0 where
  said : String → String → Atom
  called : String → String → String → Atom
  resulted : String → String → Bool → Atom

abbrev pub said_by : String → String → List Atom
said_by role text = if str_eq text "" then [] else said role text ∷ []

-- The JSON of a call's input: an input that is missing, or null, is the empty object.
abbrev pub input_json : String → String
input_json input = if str_eq input "" || str_eq input "null" then "{}" else input

unfoldable pub texts : List ContentBlock → String
texts [] = ""
texts (text_block text ∷ blocks) = append text (texts blocks)
texts (b ∷ blocks) = texts blocks

unfoldable pub calls : List ContentBlock → List Atom
calls [] = []
calls (tool_use id name input ∷ blocks) = called id name (input_json input) ∷ calls blocks
calls (b ∷ blocks) = calls blocks

unfoldable pub results : List ContentBlock → List Atom
results [] = []
results (tool_result id (plain text) is_error ∷ blocks) = resulted id text is_error ∷ results blocks
results (b ∷ blocks) = results blocks

-- Within a turn the results come first, then the joined text, then the calls.
unfoldable pub block_atoms : String → List ContentBlock → List Atom
block_atoms role blocks = results blocks ++ (said_by role (texts blocks) ++ calls blocks)

unfoldable pub turn_atoms : Turn → List Atom
turn_atoms t = elim t.content [
  | plain text ↦ said_by t.role text
  | listed blocks ↦ block_atoms t.role blocks
  | _ ↦ []
]

unfoldable pub atoms : List Turn → List Atom
atoms [] = []
atoms (t ∷ turns) = turn_atoms t ++ atoms turns

pub atoms-append : (ts us : List Turn) → atoms (ts ++ us) ≡ atoms ts ++ atoms us
unfolding atoms
atoms-append [] us = refl
atoms-append (t ∷ ts) us =
    ap (λ rest. turn_atoms t ++ rest) (atoms-append ts us)
    ∙ sym (append_assoc (turn_atoms t) (atoms ts) (atoms us))

-- The same atoms, no result of which is marked as failed.
unfoldable pub unmarked : List Atom → List Atom
unmarked [] = []
unmarked (said role text ∷ xs) = said role text ∷ unmarked xs
unmarked (called id name input ∷ xs) = called id name input ∷ unmarked xs
unmarked (resulted id text is_error ∷ xs) = resulted id text false ∷ unmarked xs

pub unmarked-append : (xs ys : List Atom) → unmarked (xs ++ ys) ≡ unmarked xs ++ unmarked ys
unfolding unmarked
unmarked-append [] ys = refl
unmarked-append (said role text ∷ xs) ys =
    ap (λ rest. said role text ∷ rest) (unmarked-append xs ys)
unmarked-append (called id name input ∷ xs) ys =
    ap (λ rest. called id name input ∷ rest) (unmarked-append xs ys)
unmarked-append (resulted id text is_error ∷ xs) ys =
    ap (λ rest. resulted id text false ∷ rest) (unmarked-append xs ys)

pub unmarked-said_by : (role text : String) → unmarked (said_by role text) ≡ said_by role text
unfolding unmarked
unmarked-said_by role text = if_either (λ xs. unmarked xs ≡ xs) (str_eq text "") refl refl

unmarked-calls : (blocks : List ContentBlock) → unmarked (calls blocks) ≡ calls blocks
unfolding unmarked calls
unmarked-calls [] = refl
unmarked-calls (text_block text ∷ bs) = unmarked-calls bs
unmarked-calls (image_block source ∷ bs) = unmarked-calls bs
unmarked-calls (tool_use id name input ∷ bs) =
    ap (λ rest. called id name (input_json input) ∷ rest) (unmarked-calls bs)
unmarked-calls (tool_result id result is_error ∷ bs) = unmarked-calls bs
unmarked-calls (other_block ∷ bs) = unmarked-calls bs

-- Only the results of a turn have marks.
pub unmarked-block_atoms :
    (role : String) (blocks : List ContentBlock)
    → unmarked (block_atoms role blocks)
      ≡ unmarked (results blocks) ++ (said_by role (texts blocks) ++ calls blocks)
unfolding block_atoms
unmarked-block_atoms role blocks =
    let said_ = said_by role (texts blocks) in
    unmarked-append (results blocks) (said_ ++ calls blocks)
    ∙ ap (λ xs. unmarked (results blocks) ++ xs)
        (unmarked-append said_ (calls blocks)
          ∙ ap (λ xs. xs ++ unmarked (calls blocks)) (unmarked-said_by role (texts blocks))
          ∙ ap (λ xs. said_ ++ xs) (unmarked-calls blocks))

-- A block that the other dialect can carry: a text, a call of the assistant with valid arguments, or
-- a result of plain text that names its call.
abbrev pub Carried : (String → Bool) → String → ContentBlock → Type 0
Carried valid role (text_block text) = Unit
Carried valid role (tool_use id name input) =
    (role ≡ "assistant") × (valid (input_json input) ≡ true)
Carried valid role (tool_result id (plain text) is_error) = str_eq id "" ≡ false
Carried valid role _ = ⊥

abbrev pub CarriedAll : (String → Bool) → String → List ContentBlock → Type 0
CarriedAll valid role [] = Unit
CarriedAll valid role (b ∷ blocks) = Carried valid role b × CarriedAll valid role blocks

abbrev pub CarriedContent : (String → Bool) → String → Content ContentBlock → Type 0
CarriedContent valid role (plain text) = Unit
CarriedContent valid role (listed blocks) = CarriedAll valid role blocks
CarriedContent valid role _ = ⊥

abbrev pub CarriedTurns : (String → Bool) → List Turn → Type 0
CarriedTurns valid [] = Unit
CarriedTurns valid (t ∷ turns) =
    (((t.role ≡ "user") ⊎ (t.role ≡ "assistant")) × CarriedContent valid t.role t.content)
    × CarriedTurns valid turns
