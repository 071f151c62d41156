-- ===== src/Responses/Client.antt =====
-- What a client may rely on: the order of the frames of a Responses stream, as a step relation. The
-- client counts the events, keeps the items that are done, and adds up the pieces of the open item.
use zealish_router.Base.{ℕ, ◌+◌, ◌≤◌, ◌≡◌, String, append, List, [], ◌∷◌, ◌++◌, length}
use zealish_router.Responses.{
  message_item, call_item, ResponseItem, Response, response_created, response_in_progress,
  response_incomplete, response_completed, item_added, item_done, text_delta, text_done,
  arguments_delta, arguments_done, Frame, heartbeat, numbered, arguments_or_empty,
}

-- `idle n done`: n events, the items that are done. `inside` has the open item and the pieces so far;
-- `ending` the item as it must be reported done.
pub data Reader : Type 0 where
  unread announced over : Reader
  idle : ℕ → List ResponseItem → Reader
  inside : ℕ → List ResponseItem → ResponseItem → String → Reader
  ending : ℕ → List ResponseItem → ResponseItem → Reader

abbrev pub with_text : ResponseItem → String → ResponseItem
with_text item text = record item { status = "completed"; text = text }

abbrev pub with_arguments : ResponseItem → String → ResponseItem
with_arguments item args = record item { status = "completed"; arguments = args }

-- An item's number is the number of the items done before it. A fragment of arguments may name an
-- earlier item; it is added to the open item if that is a call.
pub data Step : Reader → Frame → Reader → Type 0 where
  beat : {r : Reader} → Step r heartbeat r
  opened : {n : ℕ} {p : Response} → n ≡ 1 → Step unread (numbered n (response_created p)) announced
  working :
      {n : ℕ} {p : Response}
      → n ≡ 2
      → Step announced (numbered n (response_in_progress p)) (idle n [])
  added :
      {n k : ℕ} {done : List ResponseItem} {item : ResponseItem}
      → k ≡ length done
      → Step (idle n done) (numbered (n + 1) (item_added k item)) (inside (n + 1) done item "")
  says :
      {n k : ℕ} {done : List ResponseItem} {item : ResponseItem} {sum text : String}
      → item.kind ≡ message_item
      → k ≡ length done
      → Step
          (inside n done item sum)
          (numbered (n + 1) (text_delta item.id k text))
          (inside (n + 1) done item (append sum text))
  argues :
      {n k : ℕ} {done : List ResponseItem} {item : ResponseItem} {sum text : String}
      → item.kind ≡ call_item
      → k ≤ length done
      → Step
          (inside n done item sum)
          (numbered (n + 1) (arguments_delta item.id k text))
          (inside (n + 1) done item (append sum text))
  strays :
      {n k : ℕ} {done : List ResponseItem} {item : ResponseItem} {sum text : String}
      → item.kind ≡ message_item
      → k ≤ length done
      → Step
          (inside n done item sum)
          (numbered (n + 1) (arguments_delta item.id k text))
          (inside (n + 1) done item sum)
  said :
      {n k : ℕ} {done : List ResponseItem} {item : ResponseItem} {sum : String}
      → item.kind ≡ message_item
      → k ≡ length done
      → Step
          (inside n done item sum)
          (numbered (n + 1) (text_done item.id k sum))
          (ending (n + 1) done (with_text item sum))
  argued :
      {n k : ℕ} {done : List ResponseItem} {item : ResponseItem} {sum : String}
      → item.kind ≡ call_item
      → k ≡ length done
      → Step
          (inside n done item sum)
          (numbered (n + 1) (arguments_done item.id k (arguments_or_empty sum)))
          (ending (n + 1) done (with_arguments item (arguments_or_empty sum)))
  closed :
      {n k : ℕ} {done : List ResponseItem} {item : ResponseItem}
      → k ≡ length done
      → Step
          (ending n done item)
          (numbered (n + 1) (item_done k item))
          (idle (n + 1) (done ++ item ∷ []))
  completed :
      {n : ℕ} {done : List ResponseItem} {p : Response}
      → p.status ≡ "completed"
      → p.output ≡ done
      → Step (idle n done) (numbered (n + 1) (response_completed p)) over
  cut_short :
      {n : ℕ} {done : List ResponseItem} {p : Response}
      → p.status ≡ "incomplete"
      → p.output ≡ done
      → Step (idle n done) (numbered (n + 1) (response_incomplete p)) over

-- The frames take a client that has read nothing to `r`.
pub data Reads : List Frame → Reader → Type 0 where
  start : Reads [] unread
  more :
      {fs : List Frame} {f : Frame} {r s : Reader}
      → Reads fs r
      → Step r f s
      → Reads (fs ++ f ∷ []) s
