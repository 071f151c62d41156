-- ===== src/Capability.antt =====
-- internal/provider/capability.go: the features that a model is said to serve. `clean` stands for
-- strings.TrimSpace followed by strings.ToLower.
pub mod Canonical
pub mod Inferred
use zealish_router.Base.{
  String, Bool, true, false, not, ◌&&◌, ◌||◌, List, [], ◌∷◌, ◌++◌, if◌then◌else◌, str_eq, contains,
  find?, is_bound,
}

abbrev pub capability_order : List String
capability_order =
    "chat" ∷ "vision" ∷ "tools" ∷ "embeddings" ∷ "reasoning" ∷ "streaming" ∷ "audio" ∷ "json_mode"
    ∷ []

abbrev pub valid_capability : String → Bool
valid_capability c = contains capability_order c

-- The capabilities of the canonical list that have been seen.
unfoldable pub pick_seen : List String → List String → List String
pick_seen seen [] = []
pick_seen seen (c ∷ order) =
    let rest = pick_seen seen order in if contains seen c then c ∷ rest else rest

unfoldable pub contains_any : String → List String → Bool
contains_any name [] = false
contains_any name (m ∷ markers) = is_bound (find? name m) || contains_any name markers

abbrev pub is_embedding : String → Bool
is_embedding name = contains_any name ("embed" ∷ "bge-" ∷ "gte-" ∷ "e5-" ∷ "nomic-" ∷ [])

abbrev pub is_audio_only : String → Bool
is_audio_only name =
    contains_any name ("whisper" ∷ "transcribe" ∷ "tts" ∷ [])
    || (contains_any name ("realtime" ∷ []) && not (contains_any name ("gpt-4o" ∷ "gpt-5" ∷ [])))

abbrev pub has_vision : String → Bool
has_vision name =
    contains_any name ("vision" ∷ "-vl" ∷ "llava" ∷ "pixtral" ∷ "multimodal" ∷ "omni" ∷ [])
    || contains_any name (
        "gpt-4o" ∷ "gpt-4.1" ∷ "gpt-4-turbo" ∷ "gpt-5" ∷ "o3" ∷ "o4-mini" ∷ "claude-3" ∷ "claude-4"
        ∷ "claude-sonnet" ∷ "claude-opus" ∷ "claude-haiku" ∷ "gemini" ∷ "grok-2-vision" ∷ "grok-4"
        ∷ "llama-3.2" ∷ "llama-4" ∷ "qwen2.5-vl" ∷ "qwen3-vl" ∷ [])

-- The families that `hasTools` and `hasJSONMode` both name.
abbrev pub tool_families : List String
tool_families =
    "gpt-3.5-turbo" ∷ "gpt-4" ∷ "gpt-5" ∷ "o1" ∷ "o3" ∷ "o4" ∷ "claude-" ∷ "gemini" ∷ "grok"
    ∷ "mistral" ∷ "mixtral" ∷ "command-r" ∷ "llama-3" ∷ "llama-4" ∷ "qwen2.5" ∷ "qwen3" ∷ "deepseek"
    ∷ "glm-4" ∷ "kimi" ∷ []

abbrev pub has_tools : String → Bool
has_tools name = contains_any name tool_families

abbrev pub has_json_mode : String → Bool
has_json_mode name = contains_any name tool_families

abbrev pub has_reasoning : String → Bool
has_reasoning name =
    contains_any name ("think" ∷ "reason" ∷ "-r1" ∷ "deepseek-r1" ∷ "qwq" ∷ [])
    || (contains_any name (
          "o1-" ∷ "o3-" ∷ "o4-" ∷ "gpt-5" ∷ "claude-opus-4" ∷ "claude-sonnet-4" ∷ "claude-3-7"
          ∷ "gemini-2.5" ∷ "gemini-3" ∷ [])
        || (str_eq name "o1" || str_eq name "o3"))

abbrev pub has_audio : String → Bool
has_audio name = contains_any name ("audio" ∷ "voice" ∷ "speech" ∷ "omni" ∷ [])

abbrev pub only_if : Bool → String → List String
only_if b c = if b then c ∷ [] else []

abbrev pub chat_capabilities : String → List String
chat_capabilities name =
    "chat"
    ∷ "streaming"
    ∷ (only_if (has_vision name) "vision"
        ++ (only_if (has_tools name) "tools"
            ++ (only_if (has_reasoning name) "reasoning"
                ++ (only_if (has_audio name) "audio" ++ only_if (has_json_mode name) "json_mode"))))

module _ (clean : String → String) where
  unfoldable pub seen_of : List String → List String
  seen_of [] = []
  seen_of (c ∷ caps) =
      let rest = seen_of caps in if valid_capability (clean c) then clean c ∷ rest else rest

  unfoldable pub normalize_capabilities : List String → List String
  normalize_capabilities caps = pick_seen (seen_of caps) capability_order

  unfoldable pub infer_capabilities : String → List String
  infer_capabilities model =
      let name = clean model in
      if str_eq name ""
      then []
      else if is_embedding name
      then "embeddings" ∷ []
      else if is_audio_only name
      then "audio" ∷ []
      else normalize_capabilities (chat_capabilities name)
