-- ===== src/Algo/Metrics/Short.antt =====
-- A series with fewer than five points is left out (algo/service.py).
use enova.Prelude.{suc, ◌<◌, ◌≡◌, refl, List, [], ◌∷◌, none, All, length, lt→ltb, arith}
use enova.Algo.Numbers.{Numbers}
use enova.Algo.Metrics.{
  metric_freq, Analytics, Series, sort_points, insert_point, metric_norm, metric_process,
}

module _ (numbers : Numbers) (analytics : Analytics numbers) where
  length-insert_point :
      (p : numbers.Number × numbers.Number) (s : Series numbers)
      → length (insert_point numbers p s) ≡ suc (length s)
  length-insert_point p [] = refl
  length-insert_point p (q ∷ rest) = ground (arith, length-insert_point p rest)

  length-sort_points : (s : Series numbers) → length (sort_points numbers s) ≡ length s
  length-sort_points [] = refl
  length-sort_points (p ∷ rest) =
      omega (arith, length-insert_point p (sort_points numbers rest), length-sort_points rest)

  metric_freq-short :
      (s : Series numbers) (th : numbers.Number)
      → length s < 5
      → metric_freq numbers analytics s th ≡ none
  unfolding metric_freq
  metric_freq-short s th short = rw (lt→ltb _ _ short)

  -- A series of fewer than five points gives no frame.
  metric_norm-short : (s : Series numbers) → length s < 5 → metric_norm numbers analytics s ≡ none
  unfolding metric_norm
  metric_norm-short s short = rw (
    metric_freq-short (sort_points numbers s) (numbers.tenths 8)
        (omega (arith, length-sort_points s)),
    metric_norm,
  )

  pub metric_process-short :
      (metrics : List (Series numbers))
      → All (λ s. length s < 5) metrics
      → metric_process numbers analytics metrics ≡ none
  unfolding metric_process
  metric_process-short [] h = refl
  metric_process-short (s ∷ rest) (short, h) =
      rw (metric_norm-short s short) (metric_process-short rest h)
