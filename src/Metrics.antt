-- ===== src/Metrics.antt =====
-- Backend/observability/metrics.ts: the counters and histograms, and their text form. A number is
-- a natural number of the unit of its metric, so the rounding of sums is left out; other values of a `number` are
-- their own cases. The order of `localeCompare` and the text of a number are parameters.
pub mod Tests
use mern_chat_app.Common.{
  ℕ, Text, codes, text_eq, any, map, Bool, true, false, not, ltb, leb, ◌==◌, ◌+◌, ◌||◌, ◌&&◌,
  if◌then◌else◌, Option, none, some, List, [], ◌∷◌, ◌++◌,
}
use mern_chat_app.Common.Sql.{select, update, order_by}
use mern_chat_app.Errors.{Result, ok, err, plain}

-- A `number`: not negative, negative, or NaN or infinite.
pub data Number : Type 0 where
  finite : ℕ → Number
  negative : Number
  not_finite : Number

abbrev pub Labels : Type 0
Labels = List (Text × Text)

pub record Series : Type 0 where
  pub labels : Labels
  pub value : ℕ

pub record HistogramSeries : Type 0 where
  pub labels : Labels
  pub count : ℕ
  pub sum : ℕ
  pub buckets : List ℕ

pub record Counter : Type 0 where
  pub name : Text
  pub help : Text
  pub series : List Series

pub record Histogram : Type 0 where
  pub name : Text
  pub help : Text
  pub boundaries : List ℕ
  pub series : List HistogramSeries

-- `counters` with `counterHelp`, `histograms` with `histogramHelp`; the gauge of the outbox is left out.
pub record MetricsState : Type 0 where
  pub counters : List Counter
  pub histograms : List Histogram

-- The order of `localeCompare`, and `String` of a number.
pub record Locale : Type 0 where
  pub before : Text → Text → Bool
  pub print : ℕ → Text

-- `labelKey`: JSON.stringify of the sorted labels, which is one to one.
abbrev pub label_key : Locale → Labels → Labels
label_key l = order_by λ a b. l.before a.0 b.0

abbrev pub labels_eq : Labels → Labels → Bool
labels_eq [] [] = true
labels_eq (a ∷ as_) (b ∷ bs) = text_eq a.0 b.0 && text_eq a.1 b.1 && labels_eq as_ bs
labels_eq _ _ = false

abbrev pub has_labels : Locale → Labels → Labels → Bool
has_labels l labels other = labels_eq (label_key l other) (label_key l labels)

unfoldable pub define_counter : Text → Text → MetricsState → MetricsState
define_counter name help m =
    if any (λ c. text_eq c.name name) m.counters
    then m
    else record m { counters = m.counters ++ record { name = name; help = help; series = [] } ∷ [] }

-- `Number.isFinite(bucket) && bucket > 0`.
abbrev pub positive : List Number → List ℕ
positive [] = []
positive (finite n ∷ buckets) = let rest = positive buckets in if n == 0 then rest else n ∷ rest
positive (negative ∷ buckets) = positive buckets
positive (not_finite ∷ buckets) = positive buckets

-- `new Set`, sorted ascending.
abbrev pub insert_boundary : ℕ → List ℕ → List ℕ
insert_boundary n [] = n ∷ []
insert_boundary n (k ∷ ks) =
    let rest = insert_boundary n ks in
    if n == k then k ∷ ks else if ltb n k then n ∷ k ∷ ks else k ∷ rest

unfoldable pub normalized_buckets : List Number → List ℕ
normalized_buckets buckets = sorted (positive buckets)
  where
    sorted : List ℕ → List ℕ
    sorted [] = []
    sorted (n ∷ ns) = insert_boundary n (sorted ns)

abbrev pub with_boundaries : Text → Text → List ℕ → MetricsState → Result MetricsState
with_boundaries name help [] m =
    err (plain (codes "Metric " ++ name ++ codes " requires at least one positive bucket"))
with_boundaries name help (b ∷ bs) m = ok (record m {
  histograms =
      m.histograms ++ record { name = name; help = help; boundaries = b ∷ bs; series = [] } ∷ [];
})

unfoldable pub define_histogram : Text → Text → List Number → MetricsState → Result MetricsState
unfolding normalized_buckets
define_histogram name help buckets m =
    if any (λ h. text_eq h.name name) m.histograms
    then ok m
    else with_boundaries name help (normalized_buckets buckets) m

abbrev pub add_to_series : Locale → Labels → ℕ → List Series → List Series
add_to_series l labels amount series =
    if any (λ s. has_labels l labels s.labels) series
    then update (λ s. has_labels l labels s.labels) (λ s. record s { value = s.value + amount })
        series
    else series ++ record { labels = labels; value = amount } ∷ []

unfoldable pub increment_counter : Locale → Text → Labels → Number → MetricsState → MetricsState
increment_counter l name labels negative m = m
increment_counter l name labels not_finite m = m
increment_counter l name labels (finite amount) m = if amount == 0 then m else record m {
  counters =
      update (λ c. text_eq c.name name)
        (λ c. record c { series = add_to_series l labels amount c.series }) m.counters;
}

-- `definition.buckets.forEach`.
abbrev pub count_buckets : ℕ → List ℕ → List ℕ → List ℕ
count_buckets value (boundary ∷ boundaries) (n ∷ counts) =
    (if leb value boundary then n + 1 else n) ∷ count_buckets value boundaries counts
count_buckets value _ counts = counts

abbrev pub observed : ℕ → List ℕ → HistogramSeries → HistogramSeries
observed value boundaries s = record s {
  count = s.count + 1;
  sum = s.sum + value;
  buckets = count_buckets value boundaries s.buckets;
}

abbrev pub new_series : Labels → List ℕ → HistogramSeries
new_series labels boundaries = record {
  labels = labels;
  count = 0;
  sum = 0;
  buckets = map (λ b. 0) boundaries;
}

abbrev pub observe_series :
    Locale → Labels → ℕ → List ℕ → List HistogramSeries → List HistogramSeries
observe_series l labels value boundaries series =
    if any (λ s. has_labels l labels s.labels) series
    then update (λ s. has_labels l labels s.labels) (observed value boundaries) series
    else series ++ observed value boundaries (new_series labels boundaries) ∷ []

unfoldable pub observe_histogram : Locale → Text → Number → Labels → MetricsState → MetricsState
observe_histogram l name negative labels m = m
observe_histogram l name not_finite labels m = m
observe_histogram l name (finite value) labels m = record m {
  histograms =
      update (λ h. text_eq h.name name)
        (λ h. record h { series = observe_series l labels value h.boundaries h.series })
        m.histograms;
}

unfoldable pub reset_metrics : MetricsState → MetricsState
reset_metrics m = record m {
  counters = map {A = Counter} (λ c. record c { series = [] }) m.counters;
  histograms = map {A = Histogram} (λ h. record h { series = [] }) m.histograms;
}

-- `value.replaceAll("\\", "\\\\").replaceAll('"', '\\"')`.
abbrev pub escaped : Text → Text
escaped [] = []
escaped (c ∷ s) = let rest = escaped s in if c == 92 || c == b'"' then 92 ∷ c ∷ rest else c ∷ rest

abbrev pub join : Text → List Text → Text
join separator [] = []
join separator (t ∷ []) = t
join separator (t ∷ u ∷ ts) = t ++ separator ++ join separator (u ∷ ts)

abbrev pub render_pair : Text × Text → Text
render_pair (key, value) = key ++ codes "=\"" ++ escaped value ++ codes "\""

abbrev pub braced : List Text → Text
braced [] = []
braced (p ∷ pairs) = codes "{" ++ join (codes ",") (p ∷ pairs) ++ codes "}"

unfoldable pub render_labels : Locale → Labels → Text
render_labels l labels = braced (map render_pair (label_key l labels))

-- `{ ...labels, le }`: the label `le` in its place, or at the end.
abbrev pub with_le : Text → Labels → Labels
with_le value labels =
    if any (λ x. text_eq x.0 (codes "le")) labels
    then update (λ x. text_eq x.0 (codes "le")) (λ x. (x.0, value)) labels
    else labels ++ (codes "le", value) ∷ []

abbrev pub sample_line : Locale → Text → Labels → ℕ → Text
sample_line l name labels value = name ++ render_labels l labels ++ codes " " ++ l.print value

abbrev pub head_lines : Text → Text → Text → List Text
head_lines name help kind =
    (codes "# HELP " ++ name ++ codes " " ++ help)
    ∷ (codes "# TYPE " ++ name ++ codes " " ++ kind)
    ∷ []

abbrev pub counter_lines : Locale → Counter → List Text
counter_lines l c =
    head_lines c.name c.help (codes "counter")
    ++ map (λ (s : Series). sample_line l c.name s.labels s.value) c.series

abbrev pub bucket_lines : Locale → Text → Labels → List ℕ → List ℕ → List Text
bucket_lines l name labels (b ∷ boundaries) (n ∷ counts) =
    sample_line l (name ++ codes "_bucket") (with_le (l.print b) labels) n
    ∷ bucket_lines l name labels boundaries counts
bucket_lines l name labels _ _ = []

abbrev pub series_lines : Locale → Histogram → HistogramSeries → List Text
series_lines l h s =
    bucket_lines l h.name s.labels h.boundaries s.buckets
    ++ sample_line l (h.name ++ codes "_bucket") (with_le (codes "+Inf") s.labels) s.count
      ∷ sample_line l (h.name ++ codes "_sum") s.labels s.sum
      ∷ sample_line l (h.name ++ codes "_count") s.labels s.count
      ∷ []

abbrev pub concat_map : {A : Type 0} → (A → List Text) → List A → List Text
concat_map f [] = []
concat_map f (a ∷ as_) = f a ++ concat_map f as_

abbrev pub histogram_lines : Locale → Histogram → List Text
histogram_lines l h =
    head_lines h.name h.help (codes "histogram") ++ concat_map (series_lines l h) h.series

-- The lines are joined by line feeds, with one at the end.
unfoldable pub render_metrics : Locale → MetricsState → Text
unfolding render_labels
render_metrics l m =
    join (10 ∷ [])
      (concat_map (counter_lines l) m.counters ++ concat_map (histogram_lines l) m.histograms)
    ++ 10 ∷ []
