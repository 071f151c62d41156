-- ===== src/Tests/Dedup.antt =====
-- internal/ponytail/dedup.go at fixed inputs.
use zealish_router.Base.{◌≡◌, refl, String, List, [], ◌∷◌, insert, lookup}
use zealish_router.Dedup.{
  Message, merge_system, keep_first, collapse_assistant, rebuild, last_index, dedup_messages,
}
use zealish_router.Dedup.Kept.{
  users, first_of_each, dedup_messages-first_of_each, users-dedup_messages,
}

-- A digest that keeps apart what differs in the role, for messages of one text.
abbrev by_role : String → String → String
by_role role content = role

abbrev say : String → Message
say role = record { role = role; content = "hi"; name = "" }

abbrev talk : List Message
talk =
    say "system" ∷ say "system" ∷ say "user" ∷ say "assistant" ∷ say "user" ∷ say "assistant" ∷ []

dedup_messages-talk :
    dedup_messages by_role talk ≡ say "system" ∷ say "user" ∷ say "assistant" ∷ say "user" ∷ []
unfolding dedup_messages collapse_assistant rebuild last_index keep_first merge_system insert lookup
dedup_messages-talk = refl

dedup_messages-first_of_each_example : dedup_messages by_role talk ≡ first_of_each by_role [] talk
dedup_messages-first_of_each_example = dedup_messages-first_of_each by_role talk

users-dedup_messages_example : users by_role (dedup_messages by_role talk) ≡ users by_role talk
users-dedup_messages_example = users-dedup_messages by_role talk
