-- ===== src/Tests/Budget.antt =====
-- internal/ponytail/rank.go at fixed inputs, along ponytail_test.go.
use zealish_router.Base.{◌≡◌, refl, String, List, [], ◌∷◌}
use zealish_router.Dedup.{Message}
use zealish_router.Budget.{
  Decoded, text_content, rank_messages, rank_from, score_of, last_user, recent_from,
  filter_by_budget, protect, unprotected, sort_scored, insert_scored, select, add_candidates,
  estimate_tokens, message_tokens,
}
use zealish_router.Budget.Fits.{FitsBudget, filter_by_budget-FitsBudget}

abbrev decode : String → Decoded
decode content = text_content content

abbrev speak : String → String → Message
speak role content = record { role = role; content = content; name = "" }

abbrev talk : List Message
talk =
    speak "system" "Be brief."
    ∷ speak "user" "An old question that is long enough to cost some tokens of the budget."
    ∷ speak "assistant" "ok"
    ∷ speak "user" "Now?"
    ∷ []

-- The old question does not fit; the system prompt, which ranks higher, and the short answer do.
old_question_dropped :
    filter_by_budget decode talk (rank_messages talk) 25 1
    ≡ speak "system" "Be brief." ∷ speak "assistant" "ok" ∷ speak "user" "Now?" ∷ []
unfolding filter_by_budget rank_messages rank_from score_of last_user recent_from protect
    unprotected sort_scored insert_scored select add_candidates estimate_tokens message_tokens
old_question_dropped = refl

filter_by_budget-FitsBudget_example :
    FitsBudget decode talk 25 1 (filter_by_budget decode talk (rank_messages talk) 25 1)
filter_by_budget-FitsBudget_example = filter_by_budget-FitsBudget decode talk 25 1
