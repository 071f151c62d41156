-- ===== src/Responses/Items.antt =====
-- The end of an item keeps the invariant.
use zealish_router.Base.{
  ℕ, ◌+◌, ◌≡◌, refl, sym, ◌∙◌, Bool, true, false, [], ◌∷◌, ◌++◌, length, if_cases, live, bind_rule,
  length-append, subst, arith,
}
use zealish_router.Responses.{
  ItemKind, no_item, message_item, call_item, ResponseItem, ResponseStream, item_done, text_done,
  arguments_done, event, complete_item, finish_item, close_item, arguments_or_empty,
}
use zealish_router.Responses.Client.{
  Reader, unread, announced, idle, inside, ending, Step, Reads, with_text, with_arguments,
}
use zealish_router.Responses.Client
use zealish_router.Responses.Legal.{
  Readable, Ensures, pieces, has_kind, Tools, Ready, Closed, event_rule,
}

-- After the pieces of an item have been summed up: the item to report.
record Summed (final : ResponseStream → ResponseItem) (m : ResponseStream) : Type 0 where
  at : Reads m.sent (ending m.seq m.done (final m))
  on : m.started ≡ true
  opened : m.opened ≡ true
  count : m.item_index ≡ length m.done
  tools : Tools m

-- After the last event of an item, before the item is put to those that are done.
record Finished (m : ResponseStream) : Type 0 where
  at : Reads m.sent (idle m.seq (m.done ++ m.item ∷ []))
  on : m.started ≡ true
  opened : m.opened ≡ true
  count : m.item_index ≡ length m.done
  tools : Tools m

module _ (writes : ℕ → Bool) where
  finish_item-Closed :
      (final : ResponseStream → ResponseItem) (m : ResponseStream)
      → Summed final m
      → Ensures Closed (finish_item writes (final m) m)
  finish_item-Closed final m e =
      let item = final m in
      bind_rule Readable Finished Closed
        (event writes (item_done m.item_index item) (record m { item = item }))
        (λ m'. live (record m' { done = m'.done ++ m'.item ∷ [] }))
        (event_rule writes Finished (item_done m.item_index item) (record m { item = item })
          (ending m.seq m.done item) (idle (m.seq + 1) (m.done ++ item ∷ [])) e.at
          (Client.closed e.count)
          (λ h. record { at = h; on = e.on; opened = e.opened; count = e.count; tools = e.tools }))
        (λ m' e. record {
          at = e.at;
          on = e.on;
          count = ground (arith, e.opened, e.count, length-append m'.done (m'.item ∷ []));
          tools = λ i k h. ground (arith, e.tools i k h, e.opened);
        })

  complete_item-Closed :
      (kind : ItemKind) (m : ResponseStream)
      → m.item.kind ≡ kind
      → has_kind kind ≡ true
      → Reads m.sent (inside m.seq m.done m.item (pieces kind m.text m.args))
      → m.started ≡ true
      → m.opened ≡ true
      → m.item_index ≡ length m.done
      → Tools m
      → Ensures Closed (complete_item writes kind m)
  complete_item-Closed no_item m k some_kind at on opened count tools =
      absurd (ground (arith, some_kind))
  complete_item-Closed message_item m k some_kind at on opened count tools =
      let final = λ (m' : ResponseStream). with_text m'.item m'.text in
      bind_rule Readable (Summed final) Closed
        (event writes (text_done m.item.id m.item_index m.text) m)
        (λ m'. finish_item writes (with_text m'.item m'.text) m')
        (event_rule writes (Summed final) (text_done m.item.id m.item_index m.text) m _ _ at
          (Client.said k count)
          (λ h. record { at = h; on = on; opened = opened; count = count; tools = tools }))
        (finish_item-Closed final)
  complete_item-Closed call_item m k some_kind at on opened count tools =
      let args = arguments_or_empty m.args in
      let final = λ (m' : ResponseStream). with_arguments m'.item args in
      bind_rule Readable (Summed final) Closed
        (event writes (arguments_done m.item.id m.item_index args) m)
        (λ m'. finish_item writes (with_arguments m'.item args) m')
        (event_rule writes (Summed final) (arguments_done m.item.id m.item_index args) m _ _ at
          (Client.argued k count)
          (λ h. record { at = h; on = on; opened = opened; count = count; tools = tools }))
        (finish_item-Closed final)

  pub close_item-Closed : (m : ResponseStream) → Ready m → Ensures Closed (close_item writes m)
  unfolding close_item
  close_item-Closed m r =
      if_cases (Ensures Closed) m.item_open
        (λ open_.
          complete_item-Closed m.item.kind (record m { item_open = false }) refl (r.kind open_)
            (subst (Reads m.sent) (ground (arith, open_)) r.at) r.on (sym r.held ∙ open_) r.count
            r.tools)
        (λ idle_. record {
          at = subst (Reads m.sent) (ground (arith, idle_)) r.at;
          on = r.on;
          count = ground (arith, idle_, r.held, r.count);
          tools = λ i k h. ground (arith, r.tools i k h);
        })
