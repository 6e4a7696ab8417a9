-- ===== src/Metrics/Series.antt =====
-- What a query of metrics gives out.
use your_stack.Common.{
  ℕ, ◌≤◌, ◌≡◌, refl, sym, ap, ◌∙◌, Bool, false, ◌&&◌, List, [], ◌∷◌, ◌++◌, ◌==◌, ltb, map, filter,
  All, if◌then◌else◌, Bool-cases, inl, inr, arith,
}
use mathlib.Core.List.{append_assoc, append-nil}
use your_stack.Common.Text.{Text, eq_text, eq_text_iff}
use your_stack.Metrics.Samples.{
  MetricRow, MetricQuery, SeriesPoint, MetricSeries, to_point, is_in_window, insert_metric,
  sort_metrics, push_point, push_points, query_metrics,
}

-- The points that are given out for a kind.
abbrev pub points_of : Text → List MetricSeries → List SeriesPoint
points_of kind [] = []
points_of kind (s ∷ series) = if eq_text kind s.kind then s.points else points_of kind series

abbrev pub is_of_kind : Text → MetricRow → Bool
is_of_kind kind r = eq_text kind r.key.kind

points_of-push_point :
    (kind : Text) (r : MetricRow) (series : List MetricSeries)
    → points_of kind (push_point r series)
      ≡ points_of kind series ++ map to_point (filter (is_of_kind kind) (r ∷ []))
unfolding push_point
points_of-push_point kind r [] = elim (Bool-cases (eq_text kind r.key.kind)) [
  | inl u ↦ rw u refl
  | inr u ↦ rw u refl
]
points_of-push_point kind r (s ∷ series) = elim (Bool-cases (eq_text r.key.kind s.kind)) [
  | inl t ↦
      let same : r.key.kind ≡ s.kind = (eq_text_iff r.key.kind s.kind).0 t in
      elim (Bool-cases (eq_text kind s.kind)) [
        | inl u ↦ rw (t, same, u) refl
        | inr u ↦ rw (t, same, u) (sym (append-nil (points_of kind series)))
      ]
  | inr t ↦ elim (Bool-cases (eq_text kind s.kind)) [
    | inl u ↦
        let other : eq_text kind r.key.kind ≡ false = elim (Bool-cases (eq_text kind r.key.kind)) [
          | inl v ↦ absurd (
              cc (
                t,
                u,
                (eq_text_iff kind r.key.kind).0 v,
                ap (λ k. eq_text k s.kind) ((eq_text_iff kind r.key.kind).0 v),
              ))
          | inr v ↦ v
        ] in
        rw (t, u, other) (sym (append-nil s.points))
    | inr u ↦ rw (t, u) (points_of-push_point kind r series)
  ]
]

kind_first :
    (kind : Text) (r : MetricRow) (rows : List MetricRow)
    → map to_point (filter (is_of_kind kind) (r ∷ rows))
      ≡ map to_point (filter (is_of_kind kind) (r ∷ []))
        ++ map to_point (filter (is_of_kind kind) rows)
kind_first kind r rows = elim (Bool-cases (eq_text kind r.key.kind)) [
  | inl u ↦ rw u refl
  | inr u ↦ rw u refl
]

points_of-push_points :
    (kind : Text) (rows : List MetricRow) (series : List MetricSeries)
    → points_of kind (push_points rows series)
      ≡ points_of kind series ++ map to_point (filter (is_of_kind kind) rows)
unfolding push_points
points_of-push_points kind [] series = sym (append-nil (points_of kind series))
points_of-push_points kind (r ∷ rows) series =
    let one = map to_point (filter (is_of_kind kind) (r ∷ [])) in
    let rest = map to_point (filter (is_of_kind kind) rows) in
    points_of-push_points kind rows (push_point r series)
    ∙ (ap (λ p. p ++ rest) (points_of-push_point kind r series)
        ∙ (append_assoc (points_of kind series) one rest
            ∙ ap (λ p. points_of kind series ++ p) (sym (kind_first kind r rows))))

-- The points are in the order of their times.
abbrev pub IsOrdered : List SeriesPoint → Type 0
IsOrdered [] = Unit
IsOrdered (p ∷ ps) = All (λ q. p.t ≤ q.t) ps × IsOrdered ps

-- A list of rows is in the order of their times.
abbrev IsSorted : List MetricRow → Type 0
IsSorted [] = Unit
IsSorted (r ∷ rows) = All (λ q. r.key.bucket_ts ≤ q.key.bucket_ts) rows × IsSorted rows

insert_metric-le :
    (k : ℕ) (r : MetricRow) (rows : List MetricRow)
    → k ≤ r.key.bucket_ts
    → All (λ q. k ≤ q.key.bucket_ts) rows
    → All (λ q. k ≤ q.key.bucket_ts) (insert_metric r rows)
unfolding insert_metric
insert_metric-le k r [] h a = (h, tt)
insert_metric-le k r (q ∷ rows) h a = ground (arith, insert_metric-le k r rows h)

later_than :
    (j k : ℕ) (rows : List MetricRow)
    → j ≤ k
    → All (λ q. k ≤ q.key.bucket_ts) rows
    → All (λ q. j ≤ q.key.bucket_ts) rows
later_than j k [] h a = tt
later_than j k (q ∷ rows) h a = (omega arith, later_than j k rows h a.1)

insert_metric-IsSorted :
    (r : MetricRow) (rows : List MetricRow) → IsSorted rows → IsSorted (insert_metric r rows)
unfolding insert_metric
insert_metric-IsSorted r [] h = (tt, tt)
insert_metric-IsSorted r (q ∷ rows) h = elim (Bool-cases (ltb q.key.bucket_ts r.key.bucket_ts)) [
  | inl t ↦ rw t (
    insert_metric-le q.key.bucket_ts r rows (ground (arith, t)) h.0,
    insert_metric-IsSorted r rows h.1,
  )
  | inr t ↦
      let le : r.key.bucket_ts ≤ q.key.bucket_ts = ground (arith, t) in
      rw t ((le, later_than r.key.bucket_ts q.key.bucket_ts rows le h.0), h)
]

sort_metrics-IsSorted : (rows : List MetricRow) → IsSorted (sort_metrics rows)
unfolding sort_metrics
sort_metrics-IsSorted [] = tt
sort_metrics-IsSorted (r ∷ rows) =
    insert_metric-IsSorted r (sort_metrics rows) (sort_metrics-IsSorted rows)

later_points :
    (kind : Text) (k : ℕ) (rows : List MetricRow)
    → All (λ q. k ≤ q.key.bucket_ts) rows
    → All (λ p. k ≤ p.t) (map to_point (filter (is_of_kind kind) rows))
later_points kind k [] a = tt
later_points kind k (r ∷ rows) a = elim (Bool-cases (eq_text kind r.key.kind)) [
  | inl u ↦ rw u (a.0, later_points kind k rows a.1)
  | inr u ↦ rw u (later_points kind k rows a.1)
]

points-IsOrdered :
    (kind : Text) (rows : List MetricRow)
    → IsSorted rows
    → IsOrdered (map to_point (filter (is_of_kind kind) rows))
points-IsOrdered kind [] h = tt
points-IsOrdered kind (r ∷ rows) h = elim (Bool-cases (eq_text kind r.key.kind)) [
  | inl u ↦ rw u (later_points kind r.key.bucket_ts rows h.0, points-IsOrdered kind rows h.1)
  | inr u ↦ rw u (points-IsOrdered kind rows h.1)
]

-- The rows of a kind at one time are in the order of the table.
abbrev pub at_time : Text → ℕ → MetricRow → Bool
at_time kind t r = is_of_kind kind r && r.key.bucket_ts == t

insert_metric-at_time :
    (kind : Text) (t : ℕ) (r : MetricRow) (rows : List MetricRow)
    → filter (at_time kind t) (insert_metric r rows) ≡ filter (at_time kind t) (r ∷ rows)
unfolding insert_metric
insert_metric-at_time kind t r [] = refl
insert_metric-at_time kind t r (q ∷ rows) = ground (arith, insert_metric-at_time kind t r rows)

sort_metrics-at_time :
    (kind : Text) (t : ℕ) (rows : List MetricRow)
    → filter (at_time kind t) (sort_metrics rows) ≡ filter (at_time kind t) rows
unfolding sort_metrics
sort_metrics-at_time kind t [] = refl
sort_metrics-at_time kind t (r ∷ rows) =
    ground
      (arith, insert_metric-at_time kind t r (sort_metrics rows), sort_metrics-at_time kind t rows)

points-at_time :
    (kind : Text) (t : ℕ) (rows : List MetricRow)
    → filter (λ p. p.t == t) (map to_point (filter (is_of_kind kind) rows))
      ≡ map to_point (filter (at_time kind t) rows)
points-at_time kind t [] = refl
points-at_time kind t (r ∷ rows) = elim (Bool-cases (eq_text kind r.key.kind)) [
  | inl u ↦ elim (Bool-cases (r.key.bucket_ts == t)) [
    | inl v ↦ rw (u, v, points-at_time kind t rows) refl
    | inr v ↦ rw (u, v, points-at_time kind t rows) refl
  ]
  | inr u ↦ rw (u, points-at_time kind t rows) refl
]

-- The points that a query gives out for a kind are in the order of their times, and those of a time are
-- the stored rows of the kind and the time that the query asks for, each once and in the table's order.
pub query_metrics-points :
    (now : ℕ) (q : MetricQuery) (rows : List MetricRow) (kind : Text) (t : ℕ)
    → IsOrdered (points_of kind (query_metrics now q rows))
      × (filter (λ p. p.t == t) (points_of kind (query_metrics now q rows))
          ≡ map to_point (filter (at_time kind t) (filter (is_in_window now q) rows)))
unfolding query_metrics
query_metrics-points now q rows kind t =
    let wanted = filter (is_in_window now q) rows in
    let points : points_of kind (push_points (sort_metrics wanted) [])
        ≡ map to_point (filter (is_of_kind kind) (sort_metrics wanted)) =
      points_of-push_points kind (sort_metrics wanted) [] in
    rw points (
      points-IsOrdered kind (sort_metrics wanted) (sort_metrics-IsSorted wanted),
      points-at_time kind t (sort_metrics wanted)
          ∙ ap (map to_point) (sort_metrics-at_time kind t wanted),
    )
