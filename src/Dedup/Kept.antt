-- ===== src/Dedup/Kept.antt =====
-- Which messages of a conversation are kept.
use zealish_router.Base.{
  ℕ, ◌+◌, ◌≡◌, refl, ◌∙◌, ap, String, Bool, true, false, not, ◌&&◌, ◌||◌, Option, none, some, List,
  [], ◌∷◌, if◌then◌else◌, Dict, lookup, insert, lookup-insert, str_eq, str_eq_refl, eq_iff,
  contains, arith, Bool-cases, inl, inr,
}
use zealish_router.Dedup.{
  Message, message_hash, repeats, merge_system, keep_first, last_index, rebuild, collapse_assistant,
  dedup_messages,
}

user-assistant : (r : String) → str_eq r "user" ≡ true → str_eq r "assistant" ≡ false
user-assistant r h = rw ((eq_iff r "user").0 h) refl

system-user : (r : String) → str_eq r "system" ≡ true → str_eq r "user" ≡ false
system-user r h = rw ((eq_iff r "system").0 h) refl

module _ (digest : String → String → String) where
  -- Whether an assistant message of this hash is among the messages.
  unfoldable among : String → List Message → Bool
  among h [] = false
  among h (m ∷ ms) = (str_eq m.role "assistant" && str_eq (message_hash digest m) h) || among h ms

  abbrev OnceEach : List Message → Type 0
  OnceEach [] = Unit
  OnceEach (m ∷ ms) =
      (str_eq m.role "assistant" ≡ true → among (message_hash digest m) ms ≡ false) × OnceEach ms

  -- The hashes seen after a message.
  abbrev noted : List String → Message → List String
  noted seen m =
      if str_eq m.role "user" || contains seen (message_hash digest m)
      then seen
      else message_hash digest m ∷ seen

  seen_absent :
      (h : String) (seen : List String) (ms : List Message)
      → contains seen h ≡ true
      → among h (keep_first digest seen ms) ≡ false
  unfolding among keep_first
  seen_absent h seen [] k = refl
  seen_absent h seen (m ∷ ms) k = ground (
    arith,
    seen_absent h (noted seen m) ms,
    user-assistant m.role,
    eq_iff (message_hash digest m) h,
    k,
  )

  keep_first-OnceEach :
      (seen : List String) (ms : List Message) → OnceEach (keep_first digest seen ms)
  unfolding keep_first
  keep_first-OnceEach seen [] = tt
  keep_first-OnceEach seen (m ∷ ms) =
      let h = message_hash digest m in
      let rest = keep_first-OnceEach (noted seen m) ms in
      elim (Bool-cases (str_eq m.role "user" || not (contains seen h))) [
        | inr drop ↦ rw drop rest
        | inl keep ↦ rw keep (
          (λ a. ground (
            arith,
            seen_absent h (noted seen m) ms,
            user-assistant m.role,
            a,
            keep,
            str_eq_refl h,
          )),
          rest,
        )
      ]

  last_index-absent :
      (i : ℕ) (acc : Dict ℕ) (ms : List Message) (h : String)
      → among h ms ≡ false
      → lookup h (last_index digest i acc ms) ≡ lookup h acc
  unfolding among last_index
  last_index-absent i acc [] h k = refl
  last_index-absent i acc (m ∷ ms) h k = ground (
    arith,
    last_index-absent (i + 1)
        (if str_eq m.role "assistant" then insert (message_hash digest m) i acc else acc) ms h,
    lookup-insert (message_hash digest m) h i acc,
  )

  rebuild_all :
      (i : ℕ) (acc : Dict ℕ) (ms : List Message)
      → OnceEach ms
      → rebuild digest (last_index digest i acc ms) i ms ≡ ms
  unfolding rebuild last_index
  rebuild_all i acc [] h = refl
  rebuild_all i acc (m ∷ ms) h =
      let acc' = if str_eq m.role "assistant" then insert (message_hash digest m) i acc else acc in
      ground (
        arith,
        rebuild_all (i + 1) acc' ms h.1,
        last_index-absent (i + 1) acc' ms (message_hash digest m),
        h.0,
        lookup-insert (message_hash digest m) (message_hash digest m) i acc,
        str_eq_refl (message_hash digest m),
      )

  skipped :
      (seen : List String) (m : Message) (ms : List Message)
      → contains seen (message_hash digest m) ≡ true
      → str_eq m.role "user" ≡ false
      → keep_first digest seen ms ≡ keep_first digest seen (m ∷ ms)
  unfolding keep_first
  skipped seen m ms h k = ground (arith, h, k)

  -- A repeat of the previous system prompt would not be kept by the second pass either.
  abbrev Covered : List String → Option Message → Type 0
  Covered seen none = Unit
  Covered seen (some p) =
      str_eq p.role "system" ≡ true → contains seen (message_hash digest p) ≡ true

  seen_after :
      (seen : List String) (m : Message)
      → str_eq m.role "system" ≡ true
      → contains (noted seen m) (message_hash digest m) ≡ true
  seen_after seen m h = ground (arith, system-user m.role, h, str_eq_refl (message_hash digest m))

  repeated :
      (p m : Message) (seen : List String)
      → repeats digest (some p) m ≡ true
      → (str_eq p.role "system" ≡ true → contains seen (message_hash digest p) ≡ true)
      → (contains seen (message_hash digest m) ≡ true) × (str_eq m.role "user" ≡ false)
  repeated p m seen r h =
      ground
        (arith, r, h, system-user m.role, eq_iff (message_hash digest m) (message_hash digest p))

  merged_kept :
      (previous : Option Message) (seen : List String) (ms : List Message)
      → Covered seen previous
      → keep_first digest seen (merge_system digest previous ms) ≡ keep_first digest seen ms
  unfolding keep_first merge_system
  merged_kept previous seen [] h = refl
  merged_kept none seen (m ∷ ms) h =
      rw (merged_kept (some m) (noted seen m) ms (seen_after seen m)) refl
  merged_kept (some p) seen (m ∷ ms) h = elim (Bool-cases (repeats digest (some p) m)) [
    | inr new ↦ rw new (rw (merged_kept (some m) (noted seen m) ms (seen_after seen m)) refl)
    | inl again ↦
        let (there, other) = repeated p m seen again h in
        rw again (merged_kept (some m) seen ms (λ s. there) ∙ skipped seen m ms there other)
  ]

  -- The second pass decides alone: the other two change nothing more.
  dedup_messages-keep_first :
      (ms : List Message) → dedup_messages digest ms ≡ keep_first digest [] ms
  unfolding dedup_messages keep_first collapse_assistant
  dedup_messages-keep_first [] = refl
  dedup_messages-keep_first (m ∷ []) = ground arith
  dedup_messages-keep_first (m ∷ n ∷ ms) =
      rebuild_all 0 [] (keep_first digest [] (merge_system digest none (m ∷ n ∷ ms)))
        (keep_first-OnceEach [] (merge_system digest none (m ∷ n ∷ ms)))
      ∙ merged_kept none [] (m ∷ n ∷ ms) tt

  -- Whether an earlier message that is not the user's has this hash.
  unfoldable pub said_before : String → List Message → Bool
  said_before h [] = false
  said_before h (e ∷ earlier) =
      (not (str_eq e.role "user") && str_eq (digest e.role e.content) h) || said_before h earlier

  -- The messages to keep, of those that follow the earlier ones: all of the user, and of the others
  -- those that repeat no earlier one.
  unfoldable pub first_of_each : List Message → List Message → List Message
  first_of_each earlier [] = []
  first_of_each earlier (m ∷ ms) =
      let rest = first_of_each (m ∷ earlier) ms in
      if str_eq m.role "user"
      then m ∷ rest
      else if said_before (digest m.role m.content) earlier
      then rest
      else m ∷ rest

  keep_first-first_of_each :
      (seen : List String) (earlier ms : List Message)
      → ((h : String) → contains seen h ≡ said_before h earlier)
      → keep_first digest seen ms ≡ first_of_each earlier ms
  unfolding keep_first first_of_each said_before
  keep_first-first_of_each seen earlier [] agree = refl
  keep_first-first_of_each seen earlier (m ∷ ms) agree =
      let rest = keep_first-first_of_each (noted seen m) (m ∷ earlier) ms (λ h.
        ground (arith, agree h, agree (message_hash digest m), eq_iff (message_hash digest m) h)) in
      ground (arith, rest, agree (message_hash digest m))

  -- Of a conversation exactly these messages are kept, in order: every message of the user, and every
  -- other message unless an earlier one, not of the user, has the same hash of role and content.
  pub dedup_messages-first_of_each :
      (ms : List Message) → dedup_messages digest ms ≡ first_of_each [] ms
  unfolding said_before
  dedup_messages-first_of_each ms =
      dedup_messages-keep_first ms ∙ keep_first-first_of_each [] [] ms (λ h. refl)

  -- The user's messages.
  unfoldable pub users : List Message → List Message
  users [] = []
  users (m ∷ ms) = let rest = users ms in if str_eq m.role "user" then m ∷ rest else rest

  users-keep_first :
      (seen : List String) (ms : List Message) → users (keep_first digest seen ms) ≡ users ms
  unfolding keep_first users
  users-keep_first seen [] = refl
  users-keep_first seen (m ∷ ms) = ground (arith, users-keep_first (noted seen m) ms)

  -- No message of the user is removed, added or moved past another one.
  pub users-dedup_messages : (ms : List Message) → users (dedup_messages digest ms) ≡ users ms
  users-dedup_messages ms = ap users (dedup_messages-keep_first ms) ∙ users-keep_first [] ms
