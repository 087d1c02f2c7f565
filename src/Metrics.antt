-- ===== src/Metrics.antt =====
-- include/router_metrics.hh: the latency histogram of a service. An array is a function of the index.
pub mod Samples
pub mod Quantile
mod Tests
use shunya_kv.Prelude.{
  ℕ, zero, suc, ◌+◌, ◌-◌, ◌/◌, ◌%◌, ◌^◌, Bool, true, false, ltb, leb, ◌==◌, if◌then◌else◌,
}
use shunya_kv.Pool.{inc64}

pub record LatencyHistogram : Type 0 where
  pub buckets : ℕ → ℕ
  pub count : ℕ

abbrev pub empty_histogram : LatencyHistogram
empty_histogram = record { buckets = λ i. 0; count = 0 }

-- `63 - __builtin_clzll(us)`: the place of the highest bit, found by halving at most `fuel` times.
unfoldable pub highest_bit : (fuel us : ℕ) → ℕ
highest_bit zero us = 0
highest_bit (suc fuel) us = let rest = highest_bit fuel (us / 2) in if ltb us 2 then 0 else rest + 1

-- The bucket of a latency; 64 halvings are enough for 64 bits.
abbrev pub bucket_of : ℕ → ℕ
bucket_of us = if us == 0 then 0 else highest_bit 64 us

unfoldable pub add_us : LatencyHistogram → ℕ → LatencyHistogram
add_us h us = record {
  buckets = λ i. if i == bucket_of us then inc64 (h.buckets i) else h.buckets i;
  count = inc64 h.count;
}

unfoldable pub merge_from : LatencyHistogram → LatencyHistogram → LatencyHistogram
merge_from h other = record {
  buckets = λ i. if ltb i 64 then (h.buckets i + other.buckets i) % 2 ^ 64 else h.buckets i;
  count = (h.count + other.count) % 2 ^ 64;
}

-- The loop of `quantile_us`, from bucket `i` on with `left` rounds to go.
unfoldable pub scan_buckets : LatencyHistogram → (rank i left seen : ℕ) → ℕ
scan_buckets h rank i zero seen = 2 ^ 64 - 1
scan_buckets h rank i (suc left) seen =
    let seen' = (seen + h.buckets i) % 2 ^ 64 in
    let rest = scan_buckets h rank (i + 1) left seen' in
    if leb rank seen' then (if leb 63 i then 2 ^ 64 - 1 else 2 ^ (i + 1) - 1) else rest

-- `quantile_us` for the rank that it computes from the quantile and the count in floating point.
unfoldable pub quantile_us : LatencyHistogram → (rank : ℕ) → ℕ
quantile_us h rank =
    let rank' = if rank == 0 then 1 else rank in
    if h.count == 0 then 0 else scan_buckets h rank' 0 64 0
