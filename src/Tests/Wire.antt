-- ===== src/Tests/Wire.antt =====
-- Token counts at fixed inputs.
use zealish_router.Base.{none, ◌≡◌, refl, some}
use zealish_router.Wire.{to_message_usage}

-- A count of cached tokens that exceeds the prompt is reported as it stands; the rest is 0.
cached_over_prompt :
    to_message_usage (
      some (record {
        prompt = 3;
        completion = 1;
        total = 4;
        details = some (record { cached = 5; written = 0 });
        completion_details = none;
      }))
    ≡ some (record { input = 0; output = 1; cache_read = 5; cache_creation = 0 })
unfolding to_message_usage
cached_over_prompt = refl
