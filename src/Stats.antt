-- ===== src/Stats.antt =====
-- internal/router/stats.go and percentile.go: the rolling window of measurements of each alias.
-- A ring is its buffer, the next position and whether it has wrapped. Times are nanoseconds, with 0
-- for the zero time; latencies are not negative. `slices.Sort` is an insertion sort. The success
-- rate stands as the fraction whose value is the float64 of the source.
pub mod Buffer
pub mod Window
pub mod Sort
pub mod Percentile
pub mod Aggregate
use zealish_router.Base.{
  ℕ, ◌+◌, ◌-◌, ◌*◌, ◌/◌, ◌%◌, String, Bool, true, false, Option, none, some, List, [], ◌∷◌, ◌++◌,
  ltb, leb, ◌==◌, if◌then◌else◌, Dict, lookup, insert, length, get_or, set, take, drop, replicate,
  str_eq,
}

abbrev pub stats_window : ℕ
stats_window = 200

abbrev pub min_confident_samples : ℕ
min_confident_samples = 10

pub record RequestMetric : Type 0 where
  pub alias : String
  pub success : Bool
  pub ttfb_ms : ℕ
  pub latency_ms : ℕ
  pub timestamp : ℕ

abbrev pub zero_metric : RequestMetric
zero_metric = record { alias = ""; success = false; ttfb_ms = 0; latency_ms = 0; timestamp = 0 }

pub data Confidence : Type 0 where
  low high : Confidence

pub record Ring : Type 0 where
  pub samples : List RequestMetric
  pub next : ℕ
  pub full : Bool

unfoldable pub new_ring : ℕ → Ring
new_ring capacity = record { samples = replicate capacity zero_metric; next = 0; full = false }

unfoldable pub add : RequestMetric → Ring → Ring
add m r =
    let next' = (r.next + 1) % length r.samples in
    record {
      samples = set r.samples r.next m;
      next = next';
      full = if next' == 0 then true else r.full;
    }

unfoldable pub snapshot : Ring → List RequestMetric
snapshot r =
    if r.full then drop r.next r.samples ++ take r.next r.samples else take r.next r.samples

-- The map of windows is the whole state of `Stats`.
abbrev pub Windows : Type 0
Windows = Dict Ring

unfoldable pub window : String → Windows → Ring
window alias w = elim (lookup alias w) [ some r ↦ r | none ↦ new_ring stats_window ]

abbrev pub stamped : ℕ → RequestMetric → RequestMetric
stamped now m = if m.timestamp == 0 then record m { timestamp = now } else m

unfoldable pub record_metric : ℕ → RequestMetric → Windows → Windows
record_metric now m w =
    if str_eq m.alias "" then w else insert m.alias (add (stamped now m) (window m.alias w)) w

abbrev pub insert_sorted : ℕ → List ℕ → List ℕ
insert_sorted x [] = x ∷ []
insert_sorted x (y ∷ ys) = elim (leb x y) [ true ↦ x ∷ y ∷ ys | false ↦ y ∷ insert_sorted x ys ]

abbrev pub sort : List ℕ → List ℕ
sort [] = []
sort (x ∷ xs) = insert_sorted x (sort xs)

-- The percentile is a whole number here: the source asks for the 95th only. `math.Ceil` of
-- p / 100 * n is the quotient rounded up.
unfoldable pub percentile : List ℕ → ℕ → ℕ
percentile sorted p =
    let n = length sorted in
    if n == 0
    then 0
    else if p == 0
    then get_or sorted 0 0
    else if leb 100 p
    then get_or sorted (n - 1) 0
    else let rank = (p * n + 99) / 100 in get_or sorted ((if ltb rank 1 then 1 else rank) - 1) 0

unfoldable pub median : List ℕ → ℕ
median sorted =
    let n = length sorted in
    if n == 0
    then 0
    else if n % 2 == 1
    then get_or sorted (n / 2) 0
    else (get_or sorted (n / 2 - 1) 0 + get_or sorted (n / 2) 0) / 2

unfoldable pub tail : List ℕ → Option ℕ
tail sorted =
    if ltb (length sorted) min_confident_samples then none else some (percentile sorted 95)

-- `succeeded / total * 100`, as a fraction.
pub record Rate : Type 0 where
  pub num : ℕ
  pub den : ℕ

unfoldable pub success_rate : ℕ → ℕ → Rate
success_rate succeeded total =
    if total == 0
    then record { num = 0; den = 1 }
    else record { num = succeeded * 100; den = total }

unfoldable pub confidence_of : ℕ → Confidence
confidence_of samples = if ltb samples min_confident_samples then low else high

pub record Series : Type 0 where
  pub latencies : List ℕ
  pub ttfbs : List ℕ
  pub succeeded : ℕ
  pub updated : ℕ

abbrev pub split_one : RequestMetric → Series → Series
split_one m s = record {
  latencies = s.latencies ++ m.latency_ms ∷ [];
  ttfbs = if ltb 0 m.ttfb_ms then s.ttfbs ++ m.ttfb_ms ∷ [] else s.ttfbs;
  succeeded = if m.success then s.succeeded + 1 else s.succeeded;
  updated = if ltb s.updated m.timestamp then m.timestamp else s.updated;
}

unfoldable pub split_from : Series → List RequestMetric → Series
split_from s [] = s
split_from s (m ∷ ms) = split_from (split_one m s) ms

unfoldable pub split : List RequestMetric → Series
split = split_from (record { latencies = []; ttfbs = []; succeeded = 0; updated = 0 })

pub record AliasStats : Type 0 where
  pub alias : String
  pub ttfb_ms : ℕ
  pub p50_ms : ℕ
  pub p95_ms : Option ℕ
  pub success_rate : Rate
  pub requests : ℕ
  pub confidence : Confidence
  pub updated_at : ℕ

unfoldable pub aggregate : String → List RequestMetric → AliasStats
aggregate alias samples =
    let s = split samples in
    let latencies = sort s.latencies in
    record {
      alias = alias;
      ttfb_ms = median (sort s.ttfbs);
      p50_ms = median latencies;
      p95_ms = tail latencies;
      success_rate = success_rate s.succeeded (length samples);
      requests = length samples;
      confidence = confidence_of (length samples);
      updated_at = s.updated;
    }

-- `none` where the second result of the source is false.
abbrev pub aggregate_some : String → List RequestMetric → Option AliasStats
aggregate_some alias [] = none
aggregate_some alias (m ∷ ms) = some (aggregate alias (m ∷ ms))

unfoldable pub alias_stats : String → Windows → Option AliasStats
alias_stats alias w = elim (lookup alias w) [
  | none ↦ none
  | some r ↦ aggregate_some alias (snapshot r)
]

abbrev pub live_samples : String → Windows → List RequestMetric
live_samples alias w = elim (lookup alias w) [ none ↦ [] | some r ↦ snapshot r ]

unfoldable pub pool : List String → Windows → List RequestMetric
pool [] w = []
pool (alias ∷ aliases) w = live_samples alias w ++ pool aliases w

unfoldable pub summary : List String → Windows → Option AliasStats
summary aliases w = aggregate_some "" (pool aliases w)
