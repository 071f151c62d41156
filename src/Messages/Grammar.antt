-- ===== src/Messages/Grammar.antt =====
-- The order of events that the Messages dialect prescribes, as an automaton over the events.
use zealish_router.Base.{
  ℕ, ◌+◌, ◌≡◌, refl, ap, ◌∙◌, Bool, Option, none, some, List, [], ◌∷◌, ◌++◌, leb, ◌==◌,
  if◌then◌else◌,
}
use zealish_router.Messages.{
  MessageEvent, message_start, block_start, text_delta, input_delta, block_stop, message_delta,
  message_stop, ping,
}

-- `between n`: n blocks are done; `inside n`: the block of index n is open.
pub data Phase : Type 0 where
  before closing over : Phase
  between inside : ℕ → Phase

-- Which block a delta may name while block `n` is open: that block, or, if the reader is not
-- strict, any block opened so far.
abbrev pub names : Bool → ℕ → ℕ → Bool
names strict n index = if strict then index == n else leb index n

module _ (strict : Bool) where
  abbrev pub read : Phase → MessageEvent → Option Phase
  read before (message_start id model) = some (between 0)
  read (between n) (block_start index block) = if index == n then some (inside n) else none
  read (inside n) (text_delta index text) = if index == n then some (inside n) else none
  read (inside n) (input_delta index text) = if names strict n index then some (inside n) else none
  read (inside n) (block_stop index) = if index == n then some (between (n + 1)) else none
  read (between n) (message_delta reason usage) = some closing
  read closing message_stop = some over
  read p ping = some p
  read p e = none

  abbrev pub read_next : MessageEvent → Option Phase → Option Phase
  read_next e none = none
  read_next e (some p) = read p e

  unfoldable pub read_from : Option Phase → List MessageEvent → Option Phase
  read_from o [] = o
  read_from o (e ∷ es) = read_from (read_next e o) es

  pub read_from-append :
      (o : Option Phase) (es : List MessageEvent) (e : MessageEvent)
      → read_from o (es ++ e ∷ []) ≡ read_next e (read_from o es)
  unfolding read_from
  read_from-append o [] e = refl
  read_from-append o (d ∷ es) e = read_from-append (read_next d o) es e

  -- Where a reader is after these events.
  unfoldable pub reads : List MessageEvent → Option Phase
  reads es = read_from (some before) es

  pub reads-append :
      (es : List MessageEvent) (e : MessageEvent) {p : Phase}
      → reads es ≡ some p
      → reads (es ++ e ∷ []) ≡ read p e
  unfolding reads
  reads-append es e h = read_from-append (some before) es e ∙ ap (read_next e) h
