-- ===== src/Capability/Canonical.antt =====
-- Lists of capabilities are brought into the canonical order, each known one at most once.
use mathlib.Core.List.{Sublistᴰ}
use zealish_router.Base.{
  ◌≡◌, refl, sym, ◌∙◌, Bool-cases, inl, inr, String, true, false, ◌&&◌, List, [], ◌∷◌,
  if◌then◌else◌, if_either, if_cases, str_eq, str_eq_refl, Bool, eq_iff, contains, arith, map,
}
use zealish_router.Capability.{
  capability_order, pick_seen, seen_of, normalize_capabilities, infer_capabilities, is_embedding,
  is_audio_only, chat_capabilities,
}

-- In the canonical order, without unknown or repeated entries.
abbrev pub IsCanonical : List String → Type 0
IsCanonical caps = Sublistᴰ caps capability_order

pick_seen-Sublist : (seen order : List String) → Sublistᴰ (pick_seen seen order) order
unfolding pick_seen
pick_seen-Sublist seen [] = Sublistᴰ.slnil
pick_seen-Sublist seen (c ∷ order) =
    if_either (λ cs. Sublistᴰ cs (c ∷ order)) (contains seen c)
      (Sublistᴰ.cons-cons refl (pick_seen-Sublist seen order))
      (Sublistᴰ.cons (pick_seen-Sublist seen order))

nothing-Sublist : (order : List String) → Sublistᴰ [] order
nothing-Sublist [] = Sublistᴰ.slnil
nothing-Sublist (c ∷ order) = Sublistᴰ.cons (nothing-Sublist order)

one-Sublist : (c : String) (order : List String) → contains order c ≡ true → Sublistᴰ (c ∷ []) order
one-Sublist c [] h = absurd (ground (arith, h))
one-Sublist c (d ∷ order) h =
    if_cases (λ b. b ≡ true → Sublistᴰ (c ∷ []) (d ∷ order)) (str_eq d c) {x = true}
      (λ same k. Sublistᴰ.cons-cons (sym ((eq_iff d c).0 same)) (nothing-Sublist order))
      (λ other k. Sublistᴰ.cons (one-Sublist c order k)) (ground (arith, h))

-- What is picked contains what the list of the seen and the order contain.
contains-pick_seen :
    (seen order : List String) (c : String)
    → contains (pick_seen seen order) c ≡ (contains order c && contains seen c)
unfolding pick_seen
contains-pick_seen seen [] c = refl
contains-pick_seen seen (d ∷ order) c =
    if_cases (λ ds. contains ds c ≡ (contains (d ∷ order) c && contains seen c)) (contains seen d)
      (λ h. ground (arith, h, contains-pick_seen seen order c, eq_iff d c))
      (λ h. ground (arith, h, contains-pick_seen seen order c, eq_iff d c))

nothing_known : (known : Bool) → false ≡ (known && false)
nothing_known known = ground arith

known_added :
    (order seen given : List String) (d c : String)
    → contains seen c ≡ (contains order c && contains given c)
    → contains (if contains order d then d ∷ seen else seen) c
      ≡ (contains order c && contains (d ∷ given) c)
known_added order seen given d c h = elim (Bool-cases (str_eq d c)) [
  | inl same ↦ rw ((eq_iff d c).0 same) (ground (arith, h, str_eq_refl c))
  | inr other ↦ ground (arith, h, other)
]

-- What is seen of a list are the clean forms of its entries that are known.
contains-seen_of :
    (clean : String → String) (caps : List String) (c : String)
    → contains (seen_of clean caps) c ≡ (contains capability_order c && contains (map clean caps) c)
unfolding seen_of
contains-seen_of clean [] c = nothing_known (contains capability_order c)
contains-seen_of clean (d ∷ caps) c =
    known_added capability_order (seen_of clean caps) (map clean caps) (clean d) c
      (contains-seen_of clean caps c)

seen_twice :
    (known given : Bool) {seen : Bool}
    → seen ≡ (known && given)
    → (known && seen) ≡ (known && given)
seen_twice known given h = ground (arith, h)

-- A normalized list is in the canonical order, without unknown or repeated entries; it holds a
-- capability exactly if this is known and the clean form of an entry of the given list. What is inferred of a model, whatever its name, is in the canonical order too, without unknown or
-- repeated entries.
pub normalize_capabilities-IsCanonical :
    (clean : String → String) (caps : List String) (c model : String)
    → IsCanonical (normalize_capabilities clean caps)
      × (contains (normalize_capabilities clean caps) c
          ≡ (contains capability_order c && contains (map clean caps) c))
      × IsCanonical (infer_capabilities clean model)
unfolding normalize_capabilities infer_capabilities
normalize_capabilities-IsCanonical clean caps c model =
    let name = clean model in
    (
      pick_seen-Sublist (seen_of clean caps) capability_order,
      contains-pick_seen (seen_of clean caps) capability_order c
          ∙ seen_twice (contains capability_order c) (contains (map clean caps) c)
              (contains-seen_of clean caps c),
      if_either IsCanonical (str_eq name "") (nothing-Sublist capability_order) (
          if_either IsCanonical (is_embedding name) (one-Sublist "embeddings" capability_order refl)
            (if_either IsCanonical (is_audio_only name) (one-Sublist "audio" capability_order refl)
              (pick_seen-Sublist (seen_of clean (chat_capabilities name)) capability_order))),
    )
