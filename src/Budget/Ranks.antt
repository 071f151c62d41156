-- ===== src/Budget/Ranks.antt =====
-- Each scored message is the message of the conversation at its index.
use zealish_router.Base.{
  ℕ, suc, ◌+◌, ◌≡◌, ap, ◌∙◌, Bool, false, some, List, [], ◌∷◌, get_elem?, get_or, if_either, arith,
}
use zealish_router.Dedup.{Message}
use zealish_router.Budget.{
  ScoredMessage, rank_from, rank_messages, unprotected, insert_scored, sort_scored, is_lower,
}

module _ (ms : List Message) where
  abbrev pub Placed : ScoredMessage → Type 0
  Placed s = get_elem? ms s.index ≡ some s.message

  abbrev pub AllPlaced : List ScoredMessage → Type 0
  AllPlaced [] = Unit
  AllPlaced (s ∷ scored) = Placed s × AllPlaced scored

  rank_from-AllPlaced :
      (i : ℕ) (rest : List Message)
      → ((j : ℕ) → get_elem? ms (i + j) ≡ get_elem? rest j)
      → AllPlaced (rank_from ms i rest)
  unfolding rank_from
  rank_from-AllPlaced i [] h = tt
  rank_from-AllPlaced i (m ∷ rest) h = (
    ap (get_elem? ms) (omega arith) ∙ h 0,
    rank_from-AllPlaced (i + 1) rest (λ j. ap (get_elem? ms) (omega arith) ∙ h (suc j)),
  )

  pub rank_messages-AllPlaced : AllPlaced (rank_messages ms)
  unfolding rank_messages
  rank_messages-AllPlaced = rank_from-AllPlaced 0 ms (λ j. ap (get_elem? ms) (omega arith))

  pub unprotected-AllPlaced :
      (keep : List Bool) (scored : List ScoredMessage)
      → AllPlaced scored
      → AllPlaced (unprotected keep scored)
  unfolding unprotected
  unprotected-AllPlaced keep [] h = tt
  unprotected-AllPlaced keep (s ∷ scored) h =
      let rest = unprotected-AllPlaced keep scored h.1 in
      if_either AllPlaced (get_or keep s.index false) rest (h.0, rest)

  insert_scored-AllPlaced :
      (key : ScoredMessage) (scored : List ScoredMessage)
      → Placed key
      → AllPlaced scored
      → AllPlaced (insert_scored key scored)
  unfolding insert_scored
  insert_scored-AllPlaced key [] k h = (k, tt)
  insert_scored-AllPlaced key (s ∷ scored) k h =
      if_either AllPlaced (is_lower s.score key.score) (k, h)
        (h.0, insert_scored-AllPlaced key scored k h.1)

  pub sort_scored-AllPlaced :
      (sorted scored : List ScoredMessage)
      → AllPlaced sorted
      → AllPlaced scored
      → AllPlaced (sort_scored sorted scored)
  unfolding sort_scored
  sort_scored-AllPlaced sorted [] h k = h
  sort_scored-AllPlaced sorted (s ∷ scored) h k =
      sort_scored-AllPlaced (insert_scored s sorted) scored (insert_scored-AllPlaced s sorted k.0 h)
        k.1
