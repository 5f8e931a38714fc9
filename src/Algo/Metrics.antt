-- ===== src/Algo/Metrics.antt =====
-- `metric_freq`, `metric_norm` and `metric_process` of algo/service.py. The calls of numpy and
-- pandas are parameters.
pub mod Short
use enova.Prelude.{
  ℕ, ◌+◌, List, [], ◌∷◌, map, Option, none, some, if◌then◌else◌, ltb, length, get_elem?,
}
use enova.Algo.Numbers.{Numbers}

pub record Analytics (numbers : Numbers) : Type 1 where
  -- `np.unique(xs, return_counts=True)`, and `np.max`, `np.sum`, `np.argmax` of the counts.
  pub unique : List numbers.Number → List numbers.Number × List ℕ
  pub max_count : List ℕ → ℕ
  pub sum_counts : List ℕ → ℕ
  pub arg_max : List ℕ → ℕ
  -- A pandas data frame of time stamps and values.
  pub Frame : Type 0
  -- The frame on a regular index: start, end, step and the value for a missing time.
  pub reindex :
      List (numbers.Number × numbers.Number)
      → numbers.Number
      → numbers.Number
      → numbers.Number
      → numbers.Number
      → Frame
  pub add_values : Frame → Frame → Frame
  pub sum_per_minute : Frame → Frame
  pub mean_per_minute : Frame → Frame
  pub divide : Frame → ℕ → Frame
  -- `frame["value"].to_numpy()[-m:]`.
  pub last_values : ℕ → Frame → List numbers.Number
  pub percentile : List numbers.Number → ℕ → numbers.Number
  pub clip : numbers.Number → numbers.Number → numbers.Number → numbers.Number

module _ (numbers : Numbers) where
  open numbers use {Number, of_ℕ, tenths, add, sub, mul, div, less}

  -- A time series: time stamp and value.
  abbrev pub Series : Type 0
  Series = List (Number × Number)

  -- The series of one replica that the service reads.
  pub record Replica : Type 0 where
    pub pending_requests : Series
    pub running_requests : Series
    pub gpu_kv_cache_usage : Series
    pub server_new_requests : Series
    pub server_success_requests : Series

  abbrev insert_point : Number × Number → Series → Series
  insert_point p [] = p ∷ []
  insert_point p (q ∷ rest) = if less q.0 p.0 then q ∷ insert_point p rest else p ∷ q ∷ rest

  -- `sorted(metric, key=lambda x: x[0])`, which is stable.
  abbrev pub sort_points : Series → Series
  sort_points [] = []
  sort_points (p ∷ rest) = insert_point p (sort_points rest)

  abbrev diffs_from : Number → Series → List Number
  diffs_from t [] = []
  diffs_from t (p ∷ rest) = sub p.0 t ∷ diffs_from p.0 rest

  -- `np.diff` of the time stamps.
  abbrev pub diffs : Series → List Number
  diffs [] = []
  diffs (p ∷ rest) = diffs_from p.0 rest

  abbrev last_time : Number → Series → Number
  last_time t [] = t
  last_time t (p ∷ rest) = last_time p.0 rest

  module _ (analytics : Analytics numbers) where
    open analytics use {unique, max_count, sum_counts, arg_max, Frame, reindex, add_values}

    unfoldable pub metric_freq : Series → Number → Option Number
    metric_freq metric th =
        let (steps, counts) = unique (diffs metric) in
        if ltb (length metric) 5
        then none
        else if less th (div (of_ℕ (max_count counts)) (of_ℕ (sum_counts counts)))
        then get_elem? steps (arg_max counts)
        else none

    -- With the defaults n=30, th=0.8, fill_v=0; `none` is the return of a series with no
    -- frequency, whose frame no caller uses.
    unfoldable pub metric_norm : Series → Option Frame
    unfolding metric_freq
    metric_norm metric =
        let metric_s = sort_points metric in
        let last = last_time (of_ℕ 0) metric_s in
        elim (metric_freq metric_s (tenths 8)) [
          | none ↦ none
          | some freq ↦ some (
              reindex metric_s (add (mul (sub (of_ℕ 1) (of_ℕ 30)) (of_ℕ 60)) last) last freq
                (of_ℕ 0))
        ]

    -- The frame that the loop has summed so far and the number of series in it; `none` is
    -- `metric is None` with `i == 0`.
    abbrev pub Total : Type 0
    Total = Option (Frame × ℕ)

    abbrev pub count : Total → ℕ
    count none = 0
    count (some (frame, i)) = i

    abbrev add_series : Option Frame → Total → Total
    add_series none total = total
    add_series (some df) none = some (df, 1)
    add_series (some df) (some (metric, i)) = some (add_values metric df, i + 1)

    sum_series : List (Option Frame) → Total → Total
    sum_series [] total = total
    sum_series (df ∷ rest) total = sum_series rest (add_series df total)

    -- The metrics of the replicas, one series each.
    unfoldable pub metric_process : List Series → Total
    unfolding sum_series
    metric_process metrics = sum_series (map metric_norm metrics) none
