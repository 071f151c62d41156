-- ===== src/Responses/Pieces.antt =====
-- The pieces of a delta, and the items they open, keep the invariant.
use zealish_router.Base.{
  bound_some, ℕ, ◌+◌, ◌≤◌, ◌≡◌, refl, sym, ap, ◌∙◌, String, append, Bool, true, false, ◌&&◌, Option,
  none, some, str_eq, length, is_bound, find_int, int_eq_iff, if_cases, bind_rule, subst, arith,
  inl, inr, ◌⊎◌,
}
use zealish_router.Wire.{ToolCall}
use zealish_router.Messages.{index_of}
use zealish_router.Responses.{
  ItemKind, no_item, message_item, call_item, ResponseStream, item_added, text_delta,
  arguments_delta, event, close_item, announce_item, begin_text_item, is_message, open_text_item,
  text_piece, begin_call_item, announce_call, argue, item_of,
}
use zealish_router.Responses.Client.{
  Reader, unread, announced, idle, inside, ending, Step, Reads, with_text, with_arguments,
}
use zealish_router.Responses.Client
use zealish_router.Responses.Legal.{Readable, Ensures, pieces, has_kind, Ready, Closed, event_rule}
use zealish_router.Responses.Items.{close_item-Closed}

-- An item of this kind is open.
pub record Holds (k : ItemKind) (m : ResponseStream) : Type 0 where
  pub ready : Ready m
  pub open_ : m.item_open ≡ true
  pub kind : m.item.kind ≡ k

-- The index of the call has an item.
pub record Announced (call : ToolCall) (m : ResponseStream) : Type 0 where
  pub ready : Ready m
  pub known : is_bound (find_int (index_of call) m.tool_items) ≡ true

message_by_kind : (k : ItemKind) → is_message k ≡ true → k ≡ message_item
message_by_kind no_item h = absurd (ground (arith, h))
message_by_kind message_item h = refl
message_by_kind call_item h = absurd (ground (arith, h))

some_kind : (k : ItemKind) → has_kind k ≡ true → (k ≡ message_item) ⊎ (k ≡ call_item)
some_kind no_item h = absurd (ground (arith, h))
some_kind message_item h = inl refl
some_kind call_item h = inr refl

module _ (writes : ℕ → Bool) where
  -- A new item without pieces.
  announce_item_rule :
      (Q : ResponseStream → Type 0) (k : ItemKind) (m : ResponseStream)
      → has_kind k ≡ true
      → Closed (record m { opened = false })
      → m.item.kind ≡ k
      → m.opened ≡ true
      → m.item_open ≡ true
      → pieces m.item.kind m.text m.args ≡ ""
      → ((m' : ResponseStream) → Holds k m' → m'.tool_items ≡ m.tool_items → Q m')
      → Ensures Q (announce_item writes m)
  announce_item_rule Q k m some_kind c kind opened open_ none_yet rest =
      event_rule writes Q (item_added m.item_index m.item) m (idle m.seq m.done)
        (inside (m.seq + 1) m.done m.item "") c.at (Client.added c.count)
        (λ h.
          rest _
            (record {
              ready = record {
                at = subst (Reads _) (ground (arith, open_, none_yet)) h;
                on = c.on;
                held = open_ ∙ sym opened;
                kind = λ h. ap has_kind kind ∙ some_kind;
                count = c.count;
                tools = λ i k h. (opened, c.tools i k h);
              };
              open_ = open_;
              kind = kind;
            })
            refl)

  begin_text_item-Holds :
      (m : ResponseStream) → Closed m → Ensures (Holds message_item) (begin_text_item writes m)
  begin_text_item-Holds m c =
      announce_item_rule (Holds message_item) message_item _ refl
        (record { at = c.at; on = c.on; count = c.count; tools = c.tools }) refl refl refl refl
        (λ m' h same. h)

  open_text_item-Holds :
      (m : ResponseStream) → Ready m → Ensures (Holds message_item) (open_text_item writes m)
  unfolding open_text_item
  open_text_item-Holds m r =
      if_cases (Ensures (Holds message_item)) (m.item_open && is_message m.item.kind)
        (λ same. record {
          ready = r;
          open_ = ground (arith, same);
          kind = message_by_kind m.item.kind (ground (arith, same));
        })
        (λ other.
          bind_rule Readable Closed (Holds message_item) (close_item writes m)
            (begin_text_item writes) (close_item-Closed writes m r) begin_text_item-Holds)

  pub text_piece-Ready :
      (text : Option String) (m : ResponseStream)
      → Ready m
      → Ensures Ready (text_piece writes text m)
  unfolding text_piece
  text_piece-Ready none m r = r
  text_piece-Ready (some text) m r =
      if_cases (Ensures Ready) (str_eq text "") (λ nothing. r)
        (λ something.
          bind_rule Readable (Holds message_item) Ready (open_text_item writes m)
            (λ m'.
              event writes (text_delta m'.item.id m'.item_index text)
                (record m' { text = append m'.text text }))
            (open_text_item-Holds m r)
            (λ m' q.
              event_rule writes Ready (text_delta m'.item.id m'.item_index text)
                (record m' { text = append m'.text text }) (inside m'.seq m'.done m'.item m'.text)
                (inside (m'.seq + 1) m'.done m'.item (append m'.text text))
                (subst (Reads m'.sent) (ground (arith, q.open_, q.kind)) q.ready.at)
                (Client.says q.kind q.ready.count)
                (λ h. record {
                  at = subst (Reads _) (ground (arith, q.open_, q.kind)) h;
                  on = q.ready.on;
                  held = q.ready.held;
                  kind = q.ready.kind;
                  count = q.ready.count;
                  tools = q.ready.tools;
                })))

  begin_call_item-Announced :
      (call : ToolCall) (m : ResponseStream)
      → Closed m
      → Ensures (Announced call) (begin_call_item writes call m)
  begin_call_item-Announced call m c =
      announce_item_rule (Announced call) call_item _ refl
        (record {
          at = c.at;
          on = c.on;
          count = c.count;
          tools = λ i k h. ground (arith, c.tools i k, h, int_eq_iff (index_of call) i);
        })
        refl refl refl refl
        (λ m' h same. record {
          ready = h.ready;
          known = ground (arith, same, int_eq_iff (index_of call) (index_of call));
        })

  -- After a call is announced, its index has an item, and some item is open.
  pub announce_call-Announced :
      (call : ToolCall) (m : ResponseStream)
      → Ready m
      → Ensures (Announced call) (announce_call writes call m)
  unfolding announce_call
  announce_call-Announced call m r =
      if_cases (Ensures (Announced call)) (is_bound (find_int (index_of call) m.tool_items))
        (λ known. record { ready = r; known = known })
        (λ new.
          bind_rule Readable Closed (Announced call) (close_item writes m)
            (begin_call_item writes call) (close_item-Closed writes m r)
            (begin_call_item-Announced call))

  pub argue-Ready :
      (call : ToolCall) (m : ResponseStream)
      → Announced call m
      → Ensures Ready (argue writes call m)
  argue-Ready call m a =
      if_cases (Ensures Ready) (str_eq call.arguments "") (λ nothing. a.ready)
        (λ something.
          let r = a.ready in
          let (k, e) = bound_some (find_int (index_of call) m.tool_items) a.known in
          let (opened, below) = r.tools (index_of call) k e in
          let open_ = r.held ∙ opened in
          let below' : item_of (find_int (index_of call) m.tool_items) ≤ length m.done =
            ground (arith, e, below, r.count) in
          let e =
            arguments_delta m.item.id (item_of (find_int (index_of call) m.tool_items))
              call.arguments in
          let m' = record m { args = append m.args call.arguments } in
          elim (some_kind m.item.kind (r.kind open_)) [
            | inl text ↦
                event_rule writes Ready e m' (inside m.seq m.done m.item m.text)
                  (inside (m.seq + 1) m.done m.item m.text)
                  (subst (Reads m.sent) (ground (arith, open_, text)) r.at)
                  (Client.strays text below')
                  (λ h. record {
                    at = subst (Reads _) (ground (arith, open_, text)) h;
                    on = r.on;
                    held = r.held;
                    kind = r.kind;
                    count = r.count;
                    tools = r.tools;
                  })
            | inr is_call ↦
                event_rule writes Ready e m' (inside m.seq m.done m.item m.args)
                  (inside (m.seq + 1) m.done m.item (append m.args call.arguments))
                  (subst (Reads m.sent) (ground (arith, open_, is_call)) r.at)
                  (Client.argues is_call below')
                  (λ h. record {
                    at = subst (Reads _) (ground (arith, open_, is_call)) h;
                    on = r.on;
                    held = r.held;
                    kind = r.kind;
                    count = r.count;
                    tools = r.tools;
                  })
          ])
