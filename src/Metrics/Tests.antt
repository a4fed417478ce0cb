-- ===== src/Metrics/Tests.antt =====
-- A histogram with two boundaries and one observation.
use mern_chat_app.Common.{codes, ◌≡◌, refl, [], ◌∷◌, true, ◌++◌, ◌+◌}
use mern_chat_app.Errors.{ok}
use mern_chat_app.Metrics.{
  MetricsState, Histogram, Locale, finite, negative, not_finite, define_histogram,
  observe_histogram, normalized_buckets, render_metrics, render_labels,
}

abbrev no_metrics : MetricsState
no_metrics = record { counters = []; histograms = [] }

abbrev digits : Locale
digits = record { before = λ a b. true; print = λ n. (48 + n) ∷ [] }

abbrev sizes : Histogram
sizes = record { name = codes "size"; help = codes "S"; boundaries = 1 ∷ 5 ∷ []; series = [] }

sizes_defined :
    define_histogram
      (codes "size")
      (codes "S")
      (finite 5 ∷ negative ∷ finite 1 ∷ finite 5 ∷ not_finite ∷ [])
      no_metrics
    ≡ ok (record no_metrics { histograms = sizes ∷ [] })
unfolding define_histogram normalized_buckets
sizes_defined = refl

sizes_rendered :
    render_metrics digits (
      observe_histogram digits
        (codes "size")
        (finite 3)
        []
        (record no_metrics { histograms = sizes ∷ [] }))
    ≡ codes "# HELP size S"
      ++ 10 ∷ codes "# TYPE size histogram"
      ++ 10 ∷ codes "size_bucket{le=\"1\"} 0"
      ++ 10 ∷ codes "size_bucket{le=\"5\"} 1"
      ++ 10 ∷ codes "size_bucket{le=\"+Inf\"} 1"
      ++ 10 ∷ codes "size_sum 3"
      ++ 10 ∷ codes "size_count 1"
      ++ 10 ∷ []
unfolding render_metrics observe_histogram render_labels
sizes_rendered = refl
