-- ===== src/Dedup.antt =====
-- internal/ponytail/dedup.go: a conversation loses the messages that it repeats. `digest` stands for
-- SHA-256 of the role, a zero byte and the content.
pub mod Kept
use zealish_router.Base.{
  ℕ, ◌+◌, String, Bool, true, false, not, ◌&&◌, ◌||◌, Option, none, some, List, [], ◌∷◌, ◌==◌,
  if◌then◌else◌, Dict, lookup, insert, str_eq, contains,
}

pub record Message : Type 0 where
  pub role : String
  pub content : String
  pub name : String

module _ (digest : String → String → String) where
  abbrev pub message_hash : Message → String
  message_hash m = digest m.role m.content

  -- Whether a message repeats the system prompt right before it.
  abbrev pub repeats : Option Message → Message → Bool
  repeats none m = false
  repeats (some previous) m =
      str_eq m.role "system"
      && (str_eq previous.role "system" && str_eq (message_hash m) (message_hash previous))

  -- Pass 1. `previous` is the message before, whether it was kept or not.
  unfoldable pub merge_system : Option Message → List Message → List Message
  merge_system previous [] = []
  merge_system previous (m ∷ ms) =
      let rest = merge_system (some m) ms in if repeats previous m then rest else m ∷ rest

  -- Pass 2, with the hashes seen so far.
  unfoldable pub keep_first : List String → List Message → List Message
  keep_first seen [] = []
  keep_first seen (m ∷ ms) =
      let old = str_eq m.role "user" || contains seen (message_hash m) in
      let rest = keep_first (if old then seen else message_hash m ∷ seen) ms in
      if str_eq m.role "user" || not (contains seen (message_hash m)) then m ∷ rest else rest

  -- The index of the last assistant message of each hash.
  unfoldable pub last_index : ℕ → Dict ℕ → List Message → Dict ℕ
  last_index i acc [] = acc
  last_index i acc (m ∷ ms) =
      last_index (i + 1) (if str_eq m.role "assistant" then insert (message_hash m) i acc else acc)
        ms

  abbrev pub is_index : ℕ → Option ℕ → Bool
  is_index i none = i == 0
  is_index i (some j) = j == i

  -- The second loop of `collapseAssistantRepeats`. A missing key reads as 0.
  unfoldable pub rebuild : Dict ℕ → ℕ → List Message → List Message
  rebuild last i [] = []
  rebuild last i (m ∷ ms) =
      let rest = rebuild last (i + 1) ms in
      if str_eq m.role "assistant" && not (is_index i (lookup (message_hash m) last))
      then rest
      else m ∷ rest

  unfoldable pub collapse_assistant : List Message → List Message
  collapse_assistant ms = rebuild (last_index 0 [] ms) 0 ms

  unfoldable pub dedup_messages : List Message → List Message
  dedup_messages [] = []
  dedup_messages (m ∷ []) = m ∷ []
  dedup_messages (m ∷ n ∷ ms) = collapse_assistant (keep_first [] (merge_system none (m ∷ n ∷ ms)))
