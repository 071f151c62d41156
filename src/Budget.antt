-- ===== src/Budget.antt =====
-- internal/ponytail/token.go and rank.go: which messages of a conversation are kept under a budget of
-- tokens. A score is kept as an exact fraction. `decode` is what JSON decoding reads in a content.
pub mod Ranks
pub mod Fits
use Prim.Native.String.{count}
use zealish_router.Base.{
  ℕ, zero, suc, ◌+◌, ◌-◌, ◌*◌, ◌/◌, String, append, Bool, true, false, not, ◌&&◌, Option, none,
  some, List, [], ◌∷◌, ◌==◌, ltb, leb, if◌then◌else◌, str_eq, length, get_elem?, get_or, set,
}
use zealish_router.Dedup.{Message}

-- A content is a text, an array of parts with their texts, or something else.
pub data Decoded : Type 0 where
  text_content : String → Decoded
  parts_content : List String → Decoded
  other_content : Decoded

unfoldable pub join_parts : List String → String
join_parts [] = ""
join_parts (text ∷ parts) = append text (join_parts parts)

abbrev pub decoded_text : Decoded → String
decoded_text (text_content text) = text
decoded_text (parts_content parts) = join_parts parts
decoded_text other_content = ""

abbrev pub estimate_text : String → ℕ
estimate_text text =
    let tokens = (count text + 3) / 4 in
    if str_eq text "" then 0 else if ltb tokens 1 then 1 else tokens

pub record Score : Type 0 where
  pub num : ℕ
  pub den : ℕ

abbrev pub whole_score : ℕ → Score
whole_score n = record { num = n; den = 1 }

abbrev pub is_lower : Score → Score → Bool
is_lower a b = ltb (a.num * b.den) (b.num * a.den)

pub record ScoredMessage : Type 0 where
  pub message : Message
  pub index : ℕ
  pub score : Score

abbrev pub age_score : ℕ → ℕ → Score
age_score index total =
    if leb total 1
    then whole_score 40
    else record { num = 10 * (total - 1) + 30 * index; den = total - 1 }

abbrev pub has_role : String → Option Message → Bool
has_role role none = false
has_role role (some m) = str_eq m.role role

-- The loop from the end; -1 is `none`.
unfoldable pub last_user : List Message → ℕ → Option ℕ
last_user ms zero = none
last_user ms (suc i) =
    let earlier = last_user ms i in if has_role "user" (get_elem? ms i) then some i else earlier

unfoldable pub recent_from : List Message → ℕ → ℕ → ℕ → ℕ → Bool
recent_from ms index limit seen zero = false
recent_from ms index limit seen (suc i) =
    let next = recent_from ms index limit (seen + 1) i in
    let skipped = recent_from ms index limit seen i in
    if has_role "assistant" (get_elem? ms i)
    then if i == index then leb (seen + 1) limit else next
    else skipped

abbrev pub is_recent_assistant : List Message → ℕ → ℕ → Bool
is_recent_assistant ms index limit = recent_from ms index limit 0 (length ms)

abbrev pub is_at : Option ℕ → ℕ → Bool
is_at none i = false
is_at (some j) i = i == j

unfoldable pub score_of : List Message → ℕ → Message → Score
score_of ms i m =
    let aged = age_score i (length ms) in
    if str_eq m.role "system"
    then whole_score 100
    else if str_eq m.role "developer"
    then whole_score 90
    else if str_eq m.role "tool"
    then whole_score 70
    else if str_eq m.role "user"
    then if is_at (last_user ms (length ms)) i then whole_score 80 else aged
    else if str_eq m.role "assistant"
    then if is_recent_assistant ms i 2 then whole_score 60 else aged
    else aged

unfoldable pub rank_from : List Message → ℕ → List Message → List ScoredMessage
rank_from ms i [] = []
rank_from ms i (m ∷ rest) =
    record { message = m; index = i; score = score_of ms i m } ∷ rank_from ms (i + 1) rest

unfoldable pub rank_messages : List Message → List ScoredMessage
rank_messages ms = rank_from ms 0 ms

-- The marks before the loop: `older` messages, then the protected ones.
unfoldable pub protect : ℕ → List Message → List Bool
protect older [] = []
protect zero (m ∷ ms) = true ∷ protect zero ms
protect (suc older) (m ∷ ms) = false ∷ protect older ms

unfoldable pub unprotected : List Bool → List ScoredMessage → List ScoredMessage
unprotected keep [] = []
unprotected keep (s ∷ scored) =
    let rest = unprotected keep scored in if get_or keep s.index false then rest else s ∷ rest

-- One round of the insertion sort: the key goes behind the entries that are not lower.
unfoldable pub insert_scored : ScoredMessage → List ScoredMessage → List ScoredMessage
insert_scored key [] = key ∷ []
insert_scored key (s ∷ scored) =
    let rest = insert_scored key scored in
    if is_lower s.score key.score then key ∷ s ∷ scored else s ∷ rest

unfoldable pub sort_scored : List ScoredMessage → List ScoredMessage → List ScoredMessage
sort_scored sorted [] = sorted
sort_scored sorted (s ∷ scored) = sort_scored (insert_scored s sorted) scored

unfoldable pub select : List Bool → List Message → List Message
select [] ms = []
select (k ∷ keep) [] = []
select (k ∷ keep) (m ∷ ms) = let rest = select keep ms in if k then m ∷ rest else rest

module _ (decode : String → Decoded) where
  abbrev pub name_tokens : String → ℕ
  name_tokens name = if str_eq name "" then 0 else estimate_text name + 1

  unfoldable pub message_tokens : Message → ℕ
  message_tokens m =
      estimate_text m.role
      + 4
      + estimate_text (decoded_text (decode m.content))
      + name_tokens m.name

  unfoldable pub estimate_tokens : List Message → ℕ
  estimate_tokens [] = 0
  estimate_tokens (m ∷ ms) = message_tokens m + estimate_tokens ms

  unfoldable pub add_candidates : ℕ → List ScoredMessage → List Bool → ℕ → List Bool
  add_candidates budget [] keep used = keep
  add_candidates budget (c ∷ candidates) keep used =
      let cost = message_tokens c.message in
      let without = add_candidates budget candidates keep used in
      let added = add_candidates budget candidates (set keep c.index true) (used + cost) in
      if ltb budget (used + cost) then without else added

  unfoldable pub filter_by_budget : List Message → List ScoredMessage → ℕ → ℕ → List Message
  filter_by_budget ms scored budget protected =
      let keep = protect (length ms - protected) ms in
      let used = estimate_tokens (select keep ms) in
      let candidates = sort_scored [] (unprotected keep scored) in
      select (add_candidates budget candidates keep used) ms
