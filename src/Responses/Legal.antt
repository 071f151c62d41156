-- ===== src/Responses/Legal.antt =====
-- The invariant of the stream while it writes, and the items that keep it.
use zealish_router.Base.{
  ℕ, ◌+◌, ◌≤◌, ◌≡◌, refl, sym, ◌∙◌, String, Bool, true, false, some, [], ◌∷◌, ◌++◌, if◌then◌else◌,
  length, ℤ, find_int, if_cases, Run, Outcome, bind_rule, subst, arith, inl, inr, ◌⊎◌,
}
use zealish_router.Responses.{
  ItemKind, no_item, message_item, call_item, ResponseEvent, ResponseStream, Frame, numbered,
  response_created, response_in_progress, put_frame, event, begin, start, envelope,
}
use zealish_router.Responses.Client.{
  Reader, unread, announced, idle, inside, ending, Step, Reads, with_text, with_arguments,
}
use zealish_router.Responses.Client

-- What was written so far is legal.
abbrev pub Readable : ResponseStream → Type 0
Readable m = (r : Reader) × Reads m.sent r

abbrev pub Ensures : (ResponseStream → Type 0) → Run ResponseStream → Type 0
Ensures P r = Outcome Readable P r

-- The pieces of the open item.
abbrev pub pieces : ItemKind → String → String → String
pieces no_item text args = ""
pieces message_item text args = text
pieces call_item text args = args

abbrev pub reader : ResponseStream → Reader
reader m =
    if m.item_open
    then inside m.seq m.done m.item (pieces m.item.kind m.text m.args)
    else idle m.seq m.done

abbrev pub has_kind : ItemKind → Bool
has_kind no_item = false
has_kind _ = true

abbrev pub Tools : ResponseStream → Type 0
Tools m =
    (i : ℤ) (k : ℕ) → find_int i m.tool_items ≡ some k → (m.opened ≡ true) × (k ≤ m.item_index)

pub record Ready (m : ResponseStream) : Type 0 where
  pub at : Reads m.sent (reader m)
  pub on : m.started ≡ true
  pub held : m.item_open ≡ m.opened
  pub kind : m.item_open ≡ true → has_kind m.item.kind ≡ true
  pub count : m.item_index ≡ length m.done
  pub tools : Tools m

-- Before the first chunk.
pub record Fresh (m : ResponseStream) : Type 0 where
  pub at : Reads m.sent unread
  pub seq : m.seq ≡ 0
  pub off : m.started ≡ false
  pub closed : m.item_open ≡ false
  pub unopened : m.opened ≡ false
  pub index : m.item_index ≡ 0
  pub empty : m.done ≡ []
  pub tools : Tools m

abbrev pub next_index : ResponseStream → ℕ
next_index m = if m.opened then m.item_index + 1 else m.item_index

-- No item is open.
pub record Closed (m : ResponseStream) : Type 0 where
  pub at : Reads m.sent (idle m.seq m.done)
  pub on : m.started ≡ true
  pub count : next_index m ≡ length m.done
  pub tools : (i : ℤ) (k : ℕ) → find_int i m.tool_items ≡ some k → k ≤ next_index m

-- Between the two events of the beginning.
record Welcomed (m : ResponseStream) : Type 0 where
  at : Reads m.sent announced
  seq : m.seq ≡ 1
  on : m.started ≡ true
  closed : m.item_open ≡ false
  unopened : m.opened ≡ false
  index : m.item_index ≡ 0
  empty : m.done ≡ []
  tools : Tools m

started_once : {m : ResponseStream} → Fresh m ⊎ Ready m → m.started ≡ true → Ready m
started_once (inl f) on = absurd (ground (arith, f.off, on))
started_once (inr r) on = r

not_started : {m : ResponseStream} → Fresh m ⊎ Ready m → m.started ≡ false → Fresh m
not_started (inl f) off = f
not_started (inr r) off = absurd (ground (arith, r.on, off))

module _ (writes : ℕ → Bool) where
  pub frame_rule :
      (Q : ResponseStream → Type 0) (f : Frame) (m : ResponseStream) (r s : Reader)
      → Reads m.sent r
      → Step r f s
      → (Reads (m.sent ++ f ∷ []) s → Q (record m { sent = m.sent ++ f ∷ [] }))
      → Ensures Q (put_frame writes f m)
  unfolding put_frame
  frame_rule Q f m r s h step k =
      if_cases (Ensures Q) (writes (length m.sent)) (λ fine. k (Client.more h step))
        (λ broken. (r, h))

  -- The event takes the client from `r` to `s`, or its write fails and leaves it at `r`.
  pub event_rule :
      (Q : ResponseStream → Type 0) (e : ResponseEvent) (m : ResponseStream) (r s : Reader)
      → Reads m.sent r
      → Step r (numbered (m.seq + 1) e) s
      → (Reads (m.sent ++ numbered (m.seq + 1) e ∷ []) s
          → Q (record m { seq = m.seq + 1; sent = m.sent ++ numbered (m.seq + 1) e ∷ [] }))
      → Ensures Q (event writes e m)
  event_rule Q e m r s h step k =
      frame_rule Q (numbered (m.seq + 1) e) (record m { seq = m.seq + 1 }) r s h step k

  pub begin-Ready :
      (m : ResponseStream)
      → Fresh (record m { started = false })
      → m.started ≡ true
      → Ensures Ready (begin writes m)
  begin-Ready m f on =
      let p = envelope "in_progress" [] m in
      bind_rule Readable Welcomed Ready (event writes (response_created p) m)
        (event writes (response_in_progress p))
        (event_rule Welcomed (response_created p) m unread announced f.at
          (Client.opened (ground (arith, f.seq)))
          (λ h. record {
            at = h;
            seq = ground (arith, f.seq);
            on = on;
            closed = f.closed;
            unopened = f.unopened;
            index = f.index;
            empty = f.empty;
            tools = f.tools;
          }))
        (λ m' w.
          event_rule Ready (response_in_progress p) m' announced (idle (m'.seq + 1) []) w.at
            (Client.working (ground (arith, w.seq)))
            (λ h. record {
              at = subst (Reads _) (ground (arith, w.closed, w.empty)) h;
              on = w.on;
              held = w.closed ∙ sym w.unopened;
              kind = λ k. ground (arith, k, w.closed);
              count = ground (arith, w.index, w.empty);
              tools = w.tools;
            }))

  pub start-Ready :
      (id model : String) (m : ResponseStream)
      → Fresh m ⊎ Ready m
      → Ensures Ready (start writes id model m)
  unfolding start
  start-Ready id model m s =
      if_cases (Ensures Ready) m.started (λ on. started_once s on)
        (λ off.
          let f = not_started s off in
          begin-Ready _
            (record {
              at = f.at;
              seq = f.seq;
              off = refl;
              closed = f.closed;
              unopened = f.unopened;
              index = f.index;
              empty = f.empty;
              tools = f.tools;
            })
            refl)
