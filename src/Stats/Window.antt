-- ===== src/Stats/Window.antt =====
-- Recording measurements: what the window of an alias holds after any history.
use zealish_router.Base.{
  ℕ, ◌≡◌, refl, ◌∙◌, ap, not, ◌&&◌, List, [], ◌∷◌, ◌++◌, arith, if◌then◌else◌, String, str_eq,
  eq_iff, lookup, lookup-insert, append-nil, append_assoc, Bool-cases, inl, inr,
}
use zealish_router.Stats.{
  RequestMetric, Windows, new_ring, add, snapshot, window, stamped, stats_window, record_metric,
  live_samples,
}
use zealish_router.Stats.Buffer.{
  IsRing, new_ring-IsRing, add-IsRing, snapshot-add, slide, last_n, slide-last_n,
}

-- Measurements with the times at which they are recorded, in order.
unfoldable pub record_all : Windows → List (ℕ × RequestMetric) → Windows
record_all w [] = w
record_all w ((now, m) ∷ ms) = record_all (record_metric now m w) ms

-- What was recorded under an alias: a measurement with no alias is not recorded.
abbrev pub measured : String → List (ℕ × RequestMetric) → List RequestMetric
measured alias [] = []
measured alias ((now, m) ∷ ms) =
    let rest = measured alias ms in
    if str_eq m.alias alias && not (str_eq m.alias "") then stamped now m ∷ rest else rest

window-record :
    (a : String) (now : ℕ) (m : RequestMetric) (w : Windows)
    → window a (record_metric now m w) ≡ (
        if str_eq m.alias a && not (str_eq m.alias "")
        then add (stamped now m) (window a w)
        else window a w)
unfolding window record_metric
window-record a now m w =
    ground
      (arith, eq_iff m.alias a, lookup-insert m.alias a (add (stamped now m) (window m.alias w)) w)

live-window : (a : String) (w : Windows) → live_samples a w ≡ snapshot (window a w)
unfolding window new_ring snapshot
live-window a w = ground arith

-- The window of an alias is a ring that shows the last measurements of a history.
record Shows (a : String) (history : List RequestMetric) (w : Windows) : Type 0 where
  ring : IsRing stats_window (window a w)
  shown : snapshot (window a w) ≡ last_n stats_window history

Shows-add :
    (a : String) (history : List RequestMetric) (m : RequestMetric) (w v : Windows)
    → window a v ≡ add m (window a w)
    → Shows a history w
    → Shows a (history ++ m ∷ []) v
Shows-add a history m w v e h = record {
  ring = rw e (add-IsRing stats_window m (window a w) h.ring);
  shown =
      ap snapshot e
      ∙ snapshot-add stats_window m (window a w) h.ring
      ∙ ap (slide stats_window m) h.shown
      ∙ slide-last_n stats_window m history (omega arith);
}

Shows-same :
    (a : String) (history : List RequestMetric) (w v : Windows)
    → window a v ≡ window a w
    → Shows a history w
    → Shows a history v
Shows-same a history w v e h = record { ring = rw e h.ring; shown = rw e h.shown }

record_all-Shows :
    (a : String) (history : List RequestMetric) (w : Windows) (ms : List (ℕ × RequestMetric))
    → Shows a history w
    → Shows a (history ++ measured a ms) (record_all w ms)
unfolding record_all
record_all-Shows a history w [] h = rw (append-nil history) h
record_all-Shows a history w ((now, m) ∷ ms) h =
    elim (Bool-cases (str_eq m.alias a && not (str_eq m.alias ""))) [
      | inl ours ↦
          let v = record_metric now m w in
          let e : window a v ≡ add (stamped now m) (window a w) =
            window-record a now m w ∙ rw ours refl in
          rw (ours, ← append_assoc history (stamped now m ∷ []) (measured a ms))
            (record_all-Shows a (history ++ stamped now m ∷ []) v ms
              (Shows-add a history (stamped now m) w v e h))
      | inr other ↦
          let v = record_metric now m w in
          let e : window a v ≡ window a w = window-record a now m w ∙ rw other refl in
          rw other (record_all-Shows a history v ms (Shows-same a history w v e h))
    ]

-- After any measurements of any aliases, the samples of an alias are the last 200 that were
-- recorded under it, oldest first; other aliases leave them alone.
pub live_samples-record_all :
    (a : String) (ms : List (ℕ × RequestMetric))
    → live_samples a (record_all [] ms) ≡ last_n stats_window (measured a ms)
unfolding window lookup snapshot new_ring
live_samples-record_all a ms =
    live-window a (record_all [] ms)
    ∙ (record_all-Shows a [] [] ms
        (record { ring = new_ring-IsRing stats_window (omega arith); shown = refl })).shown
