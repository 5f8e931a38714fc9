-- ===== src/Algo/Detect/Rules.antt =====
-- What `llm_performance_ad` (algo/service.py) reports.
use enova.Prelude.{ap, ◌<◌, ◌≡◌, true, List, [], ◌∷◌, map, All, length, arith}
use enova.Algo.Numbers.{Numbers}
use enova.Algo.Metrics.{Analytics, Series, Replica}
use enova.Algo.Metrics.Short.{metric_process-short}
use enova.Algo.Detect.{int, is_up_anomaly, is_down_anomaly, llm_performance_ad}

module _ (numbers : Numbers) (analytics : Analytics numbers) where
  abbrev IsShort : Replica numbers → Type 0
  IsShort r = (length r.pending_requests < 5) × (length r.running_requests < 5)

  shorts :
      (field : Replica numbers → Series numbers) (metrics : List (Replica numbers))
      → All (λ r. length (field r) < 5) metrics
      → All (λ s. length s < 5) (map field metrics)
  shorts field [] h = tt
  shorts field (r ∷ rest) (p, h) = (p, shorts field rest h)

  split_short :
      (metrics : List (Replica numbers))
      → All IsShort metrics
      → All (λ r. length r.pending_requests < 5) metrics
        × All (λ r. length r.running_requests < 5) metrics
  split_short [] h = (tt, tt)
  split_short (r ∷ rest) (p, h) =
      let (pending, running) = split_short rest h in ((p.0, pending), (p.1, running))

  -- If no replica has five points of pending or of running requests, no anomaly is reported,
  -- whatever else the metrics hold, the number of replicas and the configured maximum.
  pub llm_performance_ad-short :
      (metrics : List (Replica numbers)) (replicas max_num_seqs : numbers.Number)
      → All IsShort metrics
      → llm_performance_ad numbers analytics metrics replicas max_num_seqs ≡ 0
  unfolding llm_performance_ad is_up_anomaly is_down_anomaly
  llm_performance_ad-short metrics replicas max_num_seqs h =
      let (pending, running) = split_short metrics h in
      ground (
        arith,
        metric_process-short numbers analytics (map (λ r. r.pending_requests) metrics)
            (shorts (λ r. r.pending_requests) metrics pending),
        metric_process-short numbers analytics (map (λ r. r.running_requests) metrics)
            (shorts (λ r. r.running_requests) metrics running),
      )

  is_up_anomaly_same :
      (metrics others : List (Replica numbers))
      → map (λ r. r.pending_requests) metrics ≡ map (λ r. r.pending_requests) others
      → is_up_anomaly numbers analytics metrics ≡ is_up_anomaly numbers analytics others
  unfolding is_up_anomaly
  is_up_anomaly_same metrics others same = rw (same, is_up_anomaly)

  -- With one replica the report depends on the pending requests alone: two sets of metrics with the
  -- same pending requests get the same report.
  pub llm_performance_ad-single :
      (metrics others : List (Replica numbers)) (replicas max_num_seqs : numbers.Number)
      → numbers.eq replicas (numbers.of_ℕ 1) ≡ true
      → map (λ r. r.pending_requests) metrics ≡ map (λ r. r.pending_requests) others
      → llm_performance_ad numbers analytics metrics replicas max_num_seqs
        ≡ llm_performance_ad numbers analytics others replicas max_num_seqs
  unfolding llm_performance_ad is_up_anomaly
  llm_performance_ad-single metrics others replicas max_num_seqs one same =
      rw one (ap int (is_up_anomaly_same metrics others same))
