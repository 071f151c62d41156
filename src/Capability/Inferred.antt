-- ===== src/Capability/Inferred.antt =====
-- Which capabilities are inferred of a model's name.
use zealish_router.Base.{◌≡◌, String, Bool, false, ◌&&◌, ◌||◌, List, [], ◌∷◌, if◌then◌else◌, str_eq}
use zealish_router.Capability.{
  is_embedding, is_audio_only, has_vision, has_tools, has_reasoning, has_audio, has_json_mode,
}

-- The canonical names are clean.
abbrev pub Clean : (String → String) → List String → Type 0
Clean clean [] = Unit
Clean clean (c ∷ caps) = (clean c ≡ c) × Clean clean caps

-- What a chat model of this name serves.
unfoldable pub serves : String → String → Bool
serves name c =
    str_eq "chat" c
    || (str_eq "streaming" c
        || ((has_vision name && str_eq "vision" c)
            || ((has_tools name && str_eq "tools" c)
                || ((has_reasoning name && str_eq "reasoning" c)
                    || ((has_audio name && str_eq "audio" c)
                        || (has_json_mode name && str_eq "json_mode" c))))))

-- What a model of this name serves: one that embeds or only hears and speaks does nothing else.
unfoldable pub inferred : String → String → Bool
inferred name c =
    if str_eq name ""
    then false
    else if is_embedding name
    then str_eq "embeddings" c
    else if is_audio_only name
    then str_eq "audio" c
    else serves name c
