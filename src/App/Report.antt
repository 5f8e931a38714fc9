-- ===== src/App/Report.antt =====
-- The result of a test: `build_test_result`, `build_model_metric`, `compute_metric_avg`,
-- `update_test_info_when_finish` and `update_metrics` of enova/app/service.py.
use enova.Prelude.{
  ℕ, ◌+◌, max, String, Bool, true, false, List, [], ◌∷◌, ◌++◌, Option, none, some, if◌then◌else◌,
  length, keep,
}
use enova.Prelude.Int.{ℤ, pos}
use enova.Value.{
  Value, int, list, dict, nil, cons, Items, Fields, end, field, get, get_value, truthy,
}
use enova.Constant.{TestStatus, test_status}
use enova.App.Store.{Test}
use enova.App.Escaler.{index, ◌>>=◌ as and_then}
use enova.App.Injection.{Machine, Sample, is_text}

-- `{"total": ..., "success": ..., "elasped_avg": ...}`.
unfoldable pub build_test_result : Machine → List Sample → Fields
build_test_result m pdf = field "total" (int (pos (length pdf))) (
    field "success" (int (pos (length (keep (λ s. s.success) pdf))))
      (field "elasped_avg" (m.mean (elapsed pdf)) end))
  where
    elapsed : List Sample → List Value
    elapsed [] = []
    elapsed (s ∷ rest) = s.elapsed ∷ elapsed rest

-- `float(v[1])` of every pair.
unfoldable pub values_of : (m : Machine) → Items → Option (List m.Float)
values_of m nil = some []
values_of m (cons (list (cons t (cons v rest))) more) =
    and_then (m.float v) (λ x. and_then (values_of m more) (λ xs. some (x ∷ xs)))
values_of m (cons _ more) = none

abbrev pub all_zero : (m : Machine) → List m.Float → Bool
all_zero m [] = true
all_zero m (x ∷ xs) = if m.is_zero x then all_zero m xs else false

-- The values of every series that is not all zero.
unfoldable pub flatten : (m : Machine) → Items → Option (List m.Float)
unfolding values_of
flatten m nil = some []
flatten m (cons r more) = and_then (index "values" r) (λ series. elim series [
  | list items ↦
      and_then (values_of m items) (λ xs.
        and_then (flatten m more) (λ rest. some (if all_zero m xs then rest else xs ++ rest)))
  | _ ↦ none
])

abbrev averaged : (m : Machine) → List m.Float → ℤ
averaged m [] = pos 0
averaged m (x ∷ xs) = m.average (x ∷ xs)

unfoldable pub compute_metric_avg : Machine → Fields → Option ℤ
unfolding flatten
compute_metric_avg m prom_ret =
    if is_text "success" (get_value "status" prom_ret)
    then and_then (get "data" prom_ret) (λ found. and_then (index "result" found) (λ result.
      elim result [
        | list items ↦ and_then (flatten m items) (λ xs. some (averaged m xs))
        | _ ↦ none
      ]))
    else some (pos 0)

abbrev metric_of : Machine → Value → Option ℤ
metric_of m (dict d) = if truthy (dict d) then compute_metric_avg m d else some (pos 0)
metric_of m v = if truthy v then none else some (pos 0)

pub record ModelMetric : Type 0 where
  pub generation_tps : ℤ
  pub prompt_tps : ℤ

abbrev ask : Machine → Test → ℕ → String → Value
ask m t duration q = m.query_range (record {
  query = q;
  start = t.create_time;
  finish = t.create_time + max 60 duration;
  step = m.prom_time_step;
})

unfoldable pub build_model_metric : Machine → Test → Option ModelMetric
unfolding compute_metric_avg
build_model_metric m t = and_then (get "duration" t.test_spec) (λ value.
    and_then (get "duration_unit" t.test_spec) (λ unit.
      and_then (m.actual_duration value unit) (λ duration.
        and_then
          (metric_of m
            (ask m t duration "avg by(exported_job) (avg_generation_throughput_tokens_per_second)"))
          (λ generation.
            and_then
              (metric_of m
                (ask m t duration "avg by(exported_job) (avg_prompt_throughput_tokens_per_second)"))
              (λ prompt. some (record { generation_tps = generation; prompt_tps = prompt }))))))

abbrev pub status_of : List String → String
status_of [] = test_status.value TestStatus.failed
status_of (_ ∷ _) = test_status.value TestStatus.success

abbrev pub finished : Machine → Test → List Sample → ModelMetric → Test
finished m t pdf metric = record t {
  test_status = status_of (m.listdir t.test_id);
  result = build_test_result m pdf;
  prompt_tps = metric.prompt_tps;
  generation_tps = metric.generation_tps;
}

unfoldable pub update_test_info_when_finish : Machine → Test → Option Test
update_test_info_when_finish m t =
    and_then (m.read_csv t.test_id)
      (λ pdf. and_then (build_model_metric m t) (λ metric. some (finished m t pdf metric)))

unfoldable pub update_metrics : Machine → Test → Option Test
update_metrics m t = and_then (build_model_metric m t) (λ metric.
    some (record t { prompt_tps = metric.prompt_tps; generation_tps = metric.generation_tps }))
