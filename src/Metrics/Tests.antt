-- ===== src/Metrics/Tests.antt =====
-- The latency histogram at concrete samples.
use shunya_kv.Prelude.{ℕ, List, [], ◌∷◌, arith}
use shunya_kv.Metrics.{quantile_us}
use shunya_kv.Metrics.Samples.{record_all}
use shunya_kv.Metrics.Quantile.{Is64, IsQuantile, quantile_us-IsQuantile}

abbrev three_samples : List ℕ
three_samples = 5 ∷ 900 ∷ 3 ∷ []

three_samples-Is64 : Is64 three_samples
three_samples-Is64 = (omega arith, (omega arith, (omega arith, tt)))

quantile_us-IsQuantile_example :
    IsQuantile three_samples 2 (quantile_us (record_all three_samples) 2)
quantile_us-IsQuantile_example =
    quantile_us-IsQuantile three_samples 2 three_samples-Is64 (omega arith) (omega arith)
      (omega arith)
