-- ===== src/Pump/Link.antt =====
-- How the calls of a source are tied to those of the pump, by way of the blocks of the Messages
-- stream between them.
use zealish_router.Base.{
  ℕ, ◌+◌, ◌≤◌, ◌<◌, ◌≡◌, refl, ap, Option-cases, inl, inr, Bool, true, false, Option, none, some,
  [], ◌∷◌, ◌++◌, ltb, if◌then◌else◌, is_bound, arith, String, ℤ, pos, IntMap, find_int, put_int,
  int_eq_iff, str_eq,
}
use zealish_router.Wire.{ToolCall}
use zealish_router.Messages.{index_of}
use zealish_router.Pump.{ToolCallStream, start_call}
use zealish_router.Pump.Pieces.{
  Scan, new_scan, called, argued, scan_text, scan_new, scan_arguments, scan_call,
}

-- The number of a block, through the pump's map.
abbrev pub through : Option ℕ → IntMap ℕ → Option ℕ
through none index = none
through (some b) index = find_int (pos b) index

scan_new_lem :
    (c : ToolCall) (s : Scan)
    → find_int (index_of c) s.numbers ≡ none
    → scan_new c s ≡ record {
      numbers = put_int (index_of c) s.next s.numbers;
      next = s.next + 1;
      pieces = s.pieces ++ called s.next c.id c.name ∷ [];
    }
scan_new_lem c s h = ground (arith, h)

scan_arguments_lem :
    (c : ToolCall) (s : Scan) (k : ℕ)
    → find_int (index_of c) s.numbers ≡ some k
    → str_eq c.arguments "" ≡ false
    → scan_arguments c s ≡ record s { pieces = s.pieces ++ argued k c.arguments ∷ [] }
scan_arguments_lem c s k h g = ground (arith, h, g)

scan_known_lem :
    (c : ToolCall) (s : Scan) (k : ℕ)
    → find_int (index_of c) s.numbers ≡ some k
    → str_eq c.arguments "" ≡ false
    → scan_call c s ≡ record s { pieces = s.pieces ++ argued k c.arguments ∷ [] }
scan_known_lem c s k h g = ground (arith, h, g)

-- The source's chunks so far say what the pump's chunks say, and each call of the source goes by
-- way of a block to the call of the pump that has its number.
pub record Link (opened : Bool) (last : ℕ) (blocks : IntMap ℕ) (calls : ToolCallStream) (t s : Scan)
    : Type 0 where
  pub numbers : (i : ℤ) → find_int i s.numbers ≡ through (find_int i blocks) calls.index
  pub known :
      (i : ℤ) (b : ℕ)
      → find_int i blocks ≡ some b
      → (opened ≡ true) × (b ≤ last) × (is_bound (find_int (pos b) calls.index) ≡ true)
  pub below : (i : ℤ) (k : ℕ) → find_int i s.numbers ≡ some k → k < s.next
  pub counted : calls.next ≡ s.next
  pub own : (k : ℕ) → find_int (pos k) t.numbers ≡ (if ltb k s.next then some k else none)
  pub next : t.next ≡ s.next
  pub same : t.pieces ≡ s.pieces

pub Link-new :
    (c : ToolCallStream) → c.index ≡ [] → c.next ≡ 0 → Link false 0 [] c new_scan new_scan
Link-new c e f = record {
  numbers = λ i. refl;
  known = λ i b h. ground (arith, h);
  below = λ i k h. ground (arith, h);
  counted = f;
  own = λ k. ground arith;
  next = refl;
  same = refl;
}

module _ {opened : Bool} {last : ℕ} {blocks : IntMap ℕ} {calls : ToolCallStream} {t s : Scan} where
  pub Link-grow :
      (opened' : Bool) (last' : ℕ)
      → (opened ≡ true → (opened' ≡ true) × (last ≤ last'))
      → Link opened last blocks calls t s
      → Link opened' last' blocks calls t s
  Link-grow opened' last' grows l = record {
    numbers = l.numbers;
    known = λ i b h. ground (arith, l.known i b h, grows);
    below = l.below;
    counted = l.counted;
    own = l.own;
    next = l.next;
    same = l.same;
  }

  pub Link-said :
      (text : String)
      → Link opened last blocks calls t s
      → Link opened last blocks calls (scan_text (some text) t) (scan_text (some text) s)
  Link-said text l = record {
    numbers = λ i. ground (arith, l.numbers i);
    known = l.known;
    below = λ i k h. ground (arith, l.below i k, h);
    counted = ground (arith, l.counted);
    own = λ k. ground (arith, l.own k);
    next = ground (arith, l.next);
    same = ground (arith, l.same);
  }

  pub Link-called :
      (c : ToolCall) (index : ℕ)
      → find_int (index_of c) blocks ≡ none
      → (opened ≡ true → last < index)
      → Link opened last blocks calls t s
      → Link true index
          (put_int (index_of c) index blocks)
          (start_call (pos index) c.id c.name calls).1
          (scan_call (start_call (pos index) c.id c.name calls).0 t)
          (scan_new c s)
  Link-called c index fresh far l =
      let d = (start_call (pos index) c.id c.name calls).0 in
      let unseen : find_int (index_of c) s.numbers ≡ none =
        ground (arith, l.numbers (index_of c), fresh) in
      let unheard : find_int (pos calls.next) t.numbers ≡ none =
        ground (arith, l.own calls.next, l.counted) in
      rw (scan_new_lem c s unseen, scan_new_lem d t unheard)
        (record {
          numbers = λ i. elim (Option-cases (find_int i blocks)) [
            | inl n ↦ ground (arith, l.numbers i, n, l.counted, int_eq_iff (index_of c) i)
            | inr (b, e) ↦
                let known = l.known i b e in
                ground
                  (arith, l.numbers i, e, known, far, fresh, l.counted, int_eq_iff (index_of c) i)
          ];
          known = λ i b h. ground (arith, l.known i b, far, h);
          below = λ i k h. ground (arith, l.below i k, h);
          counted = ground (arith, l.counted);
          own = λ k. ground (arith, l.own k, l.counted, l.next);
          next = ground (arith, l.next);
          same = ground (arith, l.same, l.counted, l.next);
        })

  pub Link-argued :
      (c : ToolCall) (b k : ℕ)
      → find_int (index_of c) blocks ≡ some b
      → find_int (pos b) calls.index ≡ some k
      → str_eq c.arguments "" ≡ false
      → Link opened last blocks calls t s
      → Link opened last blocks calls
          (scan_call
            (record { index = some (pos k); id = ""; name = ""; arguments = c.arguments })
            t)
          (scan_arguments c s)
  Link-argued c b k e f g l =
      let seen : find_int (index_of c) s.numbers ≡ some k =
        ground (arith, l.numbers (index_of c), e, f) in
      let heard : find_int (pos k) t.numbers ≡ some k =
        ground (arith, l.own k, l.below (index_of c) k, seen) in
      let d : ToolCall = record {
        index = some (pos k);
        id = "";
        name = "";
        arguments = c.arguments;
      } in
      rw (scan_arguments_lem c s k seen g, scan_known_lem d t k heard g)
        (record {
          numbers = l.numbers;
          known = l.known;
          below = l.below;
          counted = l.counted;
          own = l.own;
          next = l.next;
          same = ap (λ ps. ps ++ argued k c.arguments ∷ []) l.same;
        })

  -- A call is known on both sides, or on neither.
  pub Link-fresh :
      (i : ℤ)
      → Link opened last blocks calls t s
      → is_bound (find_int i blocks) ≡ is_bound (find_int i s.numbers)
  Link-fresh i l = elim (Option-cases (find_int i blocks)) [
    | inl n ↦ ground (arith, l.numbers i, n)
    | inr (b, e) ↦ let known = l.known i b e in ground (arith, l.numbers i, e, known)
  ]
