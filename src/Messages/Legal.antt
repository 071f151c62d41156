-- ===== src/Messages/Legal.antt =====
-- The invariant of the stream while it writes, and the pieces of a delta that keep it.
use zealish_router.Base.{
  bound_some, Run, live, Outcome, bind_rule, int_eq_iff, if_cases, ℕ, ◌+◌, ◌≤◌, ◌≡◌, refl, ◌∙◌,
  Bool, true, false, ◌&&◌, Option, none, some, [], ◌∷◌, ◌++◌, if◌then◌else◌, is_bound, Bool-cases,
  inl, inr, arith, String, ℤ, find_int, put_int, str_eq, length,
}
use zealish_router.Wire.{StreamChunk, ToolCall}
use zealish_router.Messages.{
  Block, text_block, tool_block, MessageEvent, message_start, block_start, text_delta, input_delta,
  block_stop, MessageStream, new_stream, is_text, index_of, emit, start, close_block, begin_block,
  open_block, text_piece, block_of, announce, fragment,
}
use zealish_router.Messages.Grammar.{
  Phase, before, between, inside, read, reads, reads-append, read_from,
}

-- Where the reader is, by the stream's own fields.
abbrev pub position : MessageStream → Phase
position m = if m.started then (if m.opened then inside m.block_index else between 0) else before

pub record Sound (m : MessageStream) : Type 0 where
  pub at : reads false m.sent ≡ some (position m)
  pub held : m.block_open ≡ m.opened
  pub fresh : m.started ≡ false → m.opened ≡ false
  pub tools :
      (i : ℤ) (b : ℕ) → find_int i m.tool_blocks ≡ some b → (m.opened ≡ true) × (b ≤ m.block_index)
  pub first : m.opened ≡ false → m.block_index ≡ 0

-- What was written so far is legal.
abbrev pub Readable : MessageStream → Type 0
Readable m = is_bound (reads false m.sent) ≡ true

-- What holds of a run: `P` after success, and after a failure that the events so far are legal.
abbrev pub Ensures : (MessageStream → Type 0) → Run MessageStream → Type 0
Ensures P r = Outcome Readable P r

pub new_stream-Sound : (model : String) → Sound (new_stream model)
unfolding new_stream reads read_from
new_stream-Sound model = record {
  at = refl;
  held = refl;
  fresh = λ h. refl;
  tools = λ i b h. ground (arith, h);
  first = λ h. refl;
}

abbrev pub Ready : MessageStream → Type 0
Ready m = Sound m × (m.started ≡ true)

-- After the open block, if any, has been closed: the index of the next block.
abbrev pub next_index : MessageStream → ℕ
next_index m = if m.opened then m.block_index + 1 else 0

pub record Closed (m : MessageStream) : Type 0 where
  pub at : reads false m.sent ≡ some (between (next_index m))
  pub on : m.started ≡ true
  pub first : m.opened ≡ false → m.block_index ≡ 0
  pub tools :
      (i : ℤ) (b : ℕ) → find_int i m.tool_blocks ≡ some b → (m.opened ≡ true) × (b ≤ m.block_index)

-- A call whose index has a block.
abbrev pub Announced : ToolCall → MessageStream → Type 0
Announced call m = Ready m × ((b : ℕ) × (find_int (index_of call) m.tool_blocks ≡ some b))

module _ (writes : ℕ → Bool) where
  -- A write takes the reader from `p` to `q`, or fails and leaves it at `p`.
  pub emit_rule :
      (Q : MessageStream → Type 0) (e : MessageEvent) (m : MessageStream) (p q : Phase)
      → reads false m.sent ≡ some p
      → read false p e ≡ some q
      → (reads false (m.sent ++ e ∷ []) ≡ some q → Q (record m { sent = m.sent ++ e ∷ [] }))
      → Ensures Q (emit writes e m)
  unfolding emit
  emit_rule Q e m p q h r k = elim (Bool-cases (writes (length m.sent))) [
    | inl fine ↦ rw fine (k (reads-append false m.sent e h ∙ r))
    | inr broken ↦ rw broken (rw h refl)
  ]

  pub start-Ready :
      (c : StreamChunk) (m : MessageStream) → Sound m → Ensures Ready (start writes c m)
  unfolding start
  start-Ready c m s =
      if_cases (Ensures Ready) m.started (λ on. (s, on))
        (λ off.
          let none_open = s.fresh off in
          emit_rule Ready (message_start c.id (if str_eq c.model "" then m.model else c.model))
            (record m {
              started = true;
              id = c.id;
              model = if str_eq c.model "" then m.model else c.model;
            })
            before (between 0) (s.at ∙ ground (arith, off)) refl
            (λ h. (
              record {
                at = h ∙ ground (arith, none_open);
                held = s.held;
                fresh = λ k. ground (arith, k);
                tools = s.tools;
                first = s.first;
              },
              refl,
            )))

  pub close_block-Closed : (m : MessageStream) → Ready m → Ensures Closed (close_block writes m)
  unfolding close_block
  close_block-Closed m (s, on) =
      if_cases (Ensures Closed) m.block_open
        (λ held.
          emit_rule Closed (block_stop m.block_index) (record m { block_open = false })
            (inside m.block_index) (between (m.block_index + 1))
            (s.at ∙ ground (arith, held, s.held, on)) (ground arith)
            (λ h. record {
              at = h ∙ ground (arith, held, s.held);
              on = on;
              first = s.first;
              tools = s.tools;
            }))
        (λ idle. record {
          at = s.at ∙ ground (arith, idle, s.held, on);
          on = on;
          first = s.first;
          tools = s.tools;
        })

  pub begin_block-Ready :
      (block : Block) (m : MessageStream)
      → Closed m
      → Ensures (λ m'. Ready m' × (m'.opened ≡ true)) (begin_block writes block m)
  begin_block-Ready block m c =
      let index = if m.opened then m.block_index + 1 else m.block_index in
      let same : index ≡ next_index m = ground (arith, c.first) in
      emit_rule (λ m'. Ready m' × (m'.opened ≡ true)) (block_start index block)
        (record m {
          block_index = index;
          opened = true;
          block_open = true;
          text_open = is_text block;
        })
        (between (next_index m)) (inside index) c.at (ground (arith, same))
        (λ h. (
          (
            record {
              at = h ∙ ground (arith, c.on);
              held = refl;
              fresh = λ k. ground (arith, k, c.on);
              tools = λ i b k. (refl, ground (arith, c.tools i b k));
              first = λ k. ground (arith, k);
            },
            c.on,
          ),
          refl,
        ))

  pub open_block-Ready :
      (block : Block) (m : MessageStream)
      → Ready m
      → Ensures (λ m'. Ready m' × (m'.opened ≡ true)) (open_block writes block m)
  unfolding open_block
  open_block-Ready block m (s, on) =
      if_cases (Ensures (λ m'. Ready m' × (m'.opened ≡ true)))
        (m.block_open && (m.text_open && is_text block))
        (λ same. ((s, on), ground (arith, same, s.held)))
        (λ other.
          bind_rule Readable Closed (λ m'. Ready m' × (m'.opened ≡ true)) (close_block writes m)
            (begin_block writes block) (close_block-Closed m (s, on)) (begin_block-Ready block))

  -- An event that leaves the reader where it is.
  pub emit_same :
      (e : MessageEvent) (m : MessageStream)
      → Ready m
      → read false (position m) e ≡ some (position m)
      → Ensures Ready (emit writes e m)
  emit_same e m (s, on) h = emit_rule Ready e m (position m) (position m) s.at h (λ k.
      (record { at = k; held = s.held; fresh = s.fresh; tools = s.tools; first = s.first }, on))

  pub text_piece-Ready :
      (text : Option String) (m : MessageStream)
      → Ready m
      → Ensures Ready (text_piece writes text m)
  unfolding text_piece
  text_piece-Ready none m r = r
  text_piece-Ready (some text) m r =
      if_cases (Ensures Ready) (str_eq text "") (λ nothing. r)
        (λ something.
          bind_rule Readable (λ m'. Ready m' × (m'.opened ≡ true)) Ready
            (open_block writes text_block m) (λ m'. emit writes (text_delta m'.block_index text) m')
            (open_block-Ready text_block m r)
            (λ m' q.
              emit_same (text_delta m'.block_index text) m' q.0 (ground (arith, q.0.1, q.1))))

  pub announce-Announced :
      (call : ToolCall) (m : MessageStream)
      → Ready m
      → Ensures (Announced call) (announce writes call m)
  announce-Announced call m r =
      if_cases (Ensures (Announced call)) (is_bound (find_int (index_of call) m.tool_blocks))
        (λ known. (r, bound_some (find_int (index_of call) m.tool_blocks) known))
        (λ new.
          bind_rule Readable (λ m'. Ready m' × (m'.opened ≡ true)) (Announced call)
            (open_block writes (tool_block call.id call.name) m)
            (λ m'.
              live
                (record m' { tool_blocks = put_int (index_of call) m'.block_index m'.tool_blocks }))
            (open_block-Ready (tool_block call.id call.name) m r)
            (λ m' q. (
              (
                record {
                  at = q.0.0.at;
                  held = q.0.0.held;
                  fresh = q.0.0.fresh;
                  first = q.0.0.first;
                  tools = λ i b k. ground (arith, q.0.0.tools i b, q.1, k);
                },
                q.0.1,
              ),
              (m'.block_index, ground (arith, int_eq_iff (index_of call) (index_of call))),
            )))

  pub fragment-Ready :
      (call : ToolCall) (m : MessageStream)
      → Announced call m
      → Ensures Ready (fragment writes call m)
  fragment-Ready call m (r, (b, h)) =
      if_cases (Ensures Ready) (str_eq call.arguments "") (λ nothing. r)
        (λ something.
          emit_same
            (input_delta (block_of writes (find_int (index_of call) m.tool_blocks)) call.arguments)
            m r (ground (arith, h, r.0.tools (index_of call) b h, r.1)))
