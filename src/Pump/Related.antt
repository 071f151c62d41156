-- ===== src/Pump/Related.antt =====
-- How the translator and a pump that reads its events stay related, one piece of a delta at a time.
use zealish_router.Base.{
  bound_some, Run, live, Outcome, bind_rule, ◌+◌, ◌<◌, ◌≡◌, refl, ◌∙◌, ap, sym, true, false, ◌&&◌,
  Option, none, some, List, [], ◌∷◌, ◌++◌, if◌then◌else◌, if_cases, if_either, is_bound, arith,
  String, pos, find_int, put_int, int_eq_iff, str_eq,
}
use zealish_router.Wire.{ToolCall, StreamChunk}
use zealish_router.Messages.{
  text_block, tool_block, MessageEvent, block_start, text_delta, MessageStream, index_of, emit,
  start, close_block, begin_block, open_block, text_piece, block_of, announce, fragment, Signal,
  received, idle,
}
use zealish_router.Pump.{ToolCallStream}
use zealish_router.Pump.Link.{Link, Link-grow, Link-said, Link-called, Link-argued, Link-fresh}
use zealish_router.Pump.Pieces.{Scan, scan_text, scan_new, scan_arguments}
use zealish_router.Pump.Heard.{
  always, after, heard, Leaves, heard_start, heard_stop, heard_block, heard_text, heard_call,
  heard_arguments,
}

pub scan_seen :
    (c : ToolCall) (s : Scan) → is_bound (find_int (index_of c) s.numbers) ≡ true → scan_new c s ≡ s
scan_seen c s h = ground (arith, h)

-- What the channel delivers over time: a chunk, or an idle tick.
abbrev pub signal_of : Option StreamChunk → Signal
signal_of none = idle
signal_of (some c) = received c

unfoldable pub arrived : List (Option StreamChunk) → List StreamChunk
arrived [] = []
arrived (none ∷ ticks) = arrived ticks
arrived (some c ∷ ticks) = c ∷ arrived ticks

-- No write fails.
abbrev pub Never : MessageStream → Type 0
Never m = ⊥

abbrev pub Yields : (MessageStream → Type 0) → Run MessageStream → Type 0
Yields P r = Outcome Never P r

module _ (model : String) where
  pub record Related (m : MessageStream) (s : Scan) : Type 0 where
    pub running : (after model m.sent).running ≡ true
    pub link :
        Link m.opened m.block_index m.tool_blocks (after model m.sent).tools (heard model m.sent) s

  -- After one more event.
  pub related :
      (m : MessageStream) (s : Scan) (es : List MessageEvent) (e : MessageEvent)
      {calls : ToolCallStream} {t : Scan}
      → m.sent ≡ es ++ e ∷ []
      → Leaves model es e calls t
      → Link m.opened m.block_index m.tool_blocks calls t s
      → Related m s
  related m s es e h v l = record {
    running = rw h v.running;
    link = rw h (rw v.tools (rw v.scan l));
  }

  pub start-Related :
      (c : StreamChunk) (m : MessageStream) (s : Scan)
      → Related m s
      → Yields (λ m'. Related m' s) (start always c m)
  unfolding start emit
  start-Related c m s r =
      if_cases (Yields (λ m'. Related m' s)) m.started (λ on. r)
        (λ off. related _ s m.sent _ refl (heard_start model m.sent r.running c.id _) r.link)

  pub close_block-Related :
      (m : MessageStream) (s : Scan)
      → Related m s
      → Yields (λ m'. Related m' s) (close_block always m)
  unfolding close_block emit
  close_block-Related m s r =
      if_cases (Yields (λ m'. Related m' s)) m.block_open
        (λ on. related _ s m.sent _ refl (heard_stop model m.sent r.running m.block_index) r.link)
        (λ off. r)

  -- The number of the next block is new.
  pub grows :
      (m : MessageStream)
      → m.opened ≡ true
      → m.block_index < (if m.opened then m.block_index + 1 else m.block_index)
  grows m h = ground (arith, h)

  pub begin_text-Related :
      (m : MessageStream) (s : Scan)
      → Related m s
      → Yields (λ m'. Related m' s) (begin_block always text_block m)
  unfolding emit
  begin_text-Related m s r =
      let index = if m.opened then m.block_index + 1 else m.block_index in
      related _ s m.sent _ refl (heard_block model m.sent r.running index)
        (Link-grow true index (λ h. (refl, ground (arith, grows m))) r.link)

  pub open_text-Related :
      (m : MessageStream) (s : Scan)
      → Related m s
      → Yields (λ m'. Related m' s) (open_block always text_block m)
  unfolding open_block
  open_text-Related m s r =
      if_either (Yields (λ m'. Related m' s)) (m.block_open && (m.text_open && true)) r (
        bind_rule Never (λ m'. Related m' s) (λ m'. Related m' s) (close_block always m)
          (begin_block always text_block) (close_block-Related m s r)
          (λ m' q. begin_text-Related m' s q))

  pub text_piece-Related :
      (text : Option String) (m : MessageStream) (s : Scan)
      → Related m s
      → Yields (λ m'. Related m' (scan_text text s)) (text_piece always text m)
  unfolding text_piece emit
  text_piece-Related none m s r = r
  text_piece-Related (some text) m s r =
      if_cases (Yields (λ m'. Related m' (scan_text (some text) s))) (str_eq text "")
        (λ nothing. rw nothing r)
        (λ something.
          bind_rule Never (λ m'. Related m' s) (λ m'. Related m' (scan_text (some text) s))
            (open_block always text_block m) (λ m'. emit always (text_delta m'.block_index text) m')
            (open_text-Related m s r)
            (λ m' q.
              related _ (scan_text (some text) s) m'.sent (text_delta m'.block_index text) refl
                (heard_text model m'.sent q.running m'.block_index text something)
                (Link-said text q.link)))

  -- What the stream records of a call once its block has begun.
  abbrev pub assign : ToolCall → MessageStream → MessageStream
  assign c m = record m { tool_blocks = put_int (index_of c) m.block_index m.tool_blocks }

  abbrev pub Assigned : ToolCall → Scan → MessageStream → Type 0
  Assigned c s m =
      Related m (scan_new c s) × (is_bound (find_int (index_of c) m.tool_blocks) ≡ true)

  pub begin_call-Assigned :
      (c : ToolCall) (m : MessageStream) (s : Scan)
      → Related m s
      → is_bound (find_int (index_of c) s.numbers) ≡ false
      → Yields (λ m'. Assigned c s (assign c m')) (begin_block always (tool_block c.id c.name) m)
  unfolding emit
  begin_call-Assigned c m s r h =
      let index = if m.opened then m.block_index + 1 else m.block_index in
      (
        related _ (scan_new c s) m.sent (block_start index (tool_block c.id c.name)) refl
            (heard_call model m.sent r.running index c.id c.name)
            (Link-called c index (ground (arith, Link-fresh (index_of c) r.link, h)) (grows m)
              r.link),
        ground (arith, int_eq_iff (index_of c) (index_of c)),
      )

  pub announce-Related :
      (c : ToolCall) (m : MessageStream) (s : Scan)
      → Related m s
      → Yields (Assigned c s) (announce always c m)
  unfolding open_block
  announce-Related c m s r =
      let same = Link-fresh (index_of c) r.link in
      if_cases (Yields (Assigned c s)) (is_bound (find_int (index_of c) m.tool_blocks))
        (λ known. (rw (scan_seen c s (sym same ∙ known)) r, known))
        (λ new.
          let tool = tool_block c.id c.name in
          bind_rule Never (λ m'. Assigned c s (assign c m')) (Assigned c s)
            (open_block always tool m) (λ m'. live (assign c m'))
            (if_cases (Yields (λ m'. Assigned c s (assign c m')))
              (m.block_open && (m.text_open && false)) (λ bad. absurd (ground (arith, bad)))
              (λ other.
                bind_rule Never (λ m'. Related m' s) (λ m'. Assigned c s (assign c m'))
                  (close_block always m) (begin_block always tool) (close_block-Related m s r)
                  (λ m' q. begin_call-Assigned c m' s q (sym same ∙ new))))
            (λ m' q. q))

  pub fragment-Related :
      (c : ToolCall) (m : MessageStream) (s : Scan)
      → Related m s
      → is_bound (find_int (index_of c) m.tool_blocks) ≡ true
      → Yields (λ m'. Related m' (scan_arguments c s)) (fragment always c m)
  unfolding emit
  fragment-Related c m s r h =
      if_cases (Yields (λ m'. Related m' (scan_arguments c s))) (str_eq c.arguments "")
        (λ nothing. rw nothing r)
        (λ something.
          let (b, e) = bound_some (find_int (index_of c) m.tool_blocks) h in
          let known = r.link.known (index_of c) b e in
          let (k, f) = bound_some (find_int (pos b) (after model m.sent).tools.index) known.2 in
          let named : block_of always (find_int (index_of c) m.tool_blocks) ≡ b =
            ap (block_of always) e in
          related _ (scan_arguments c s) m.sent _ refl
            (rw named (heard_arguments model m.sent r.running b k c.arguments f))
            (Link-argued c b k e f something r.link))
