-- ===== src/Wire/Usage.antt =====
-- Token counts across the two dialects.
use zealish_router.Base.{◌≡◌, some, arith}
use zealish_router.Wire.{MessageUsage, to_message_usage, from_message_usage}

-- A report of the Messages dialect keeps its four counts when it is translated to token counts and
-- back.
pub to_message_usage-from_message_usage :
    (u : MessageUsage) → to_message_usage (some (from_message_usage u)) ≡ some u
unfolding to_message_usage from_message_usage
to_message_usage-from_message_usage u = ground arith
