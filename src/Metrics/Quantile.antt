-- ===== src/Metrics/Quantile.antt =====
-- The bound that `quantile_us` of include/router_metrics.hh gives, against the samples.
use shunya_kv.Prelude.{
  ℕ, zero, suc, ◌+◌, ◌-◌, ◌*◌, ◌%◌, ◌^◌, ◌≤◌, ◌<◌, ◌≡◌, refl, ap, ◌∙◌, true, false, List, [], ◌∷◌,
  ltb, leb, ltb→lt, lt→ltb, leb→le, subst, ◌==◌, length, All, ◌⊎◌, Bool-cases, inl, inr, arith,
}
use native.Mathlib.Nat.{pow-le-pow_right}
use shunya_kv.Metrics.{highest_bit, bucket_of, scan_buckets, quantile_us}
use shunya_kv.Metrics.Samples.{
  record_all, count_if, count_if-length, record_all-count, record_all-buckets, count_if_split,
  count_if_le, count_if-All, pow_double, highest_bit_above, highest_bit_below,
}

le_suc : (i : ℕ) → 0 ≤ i + 1
le_suc i = omega arith

-- A 64-bit sample is in a bucket up to `i` where it is below `2 ^ (i + 1)`, and only there.
bucket_above : (us i : ℕ) → us < 2 ^ 64 → bucket_of us ≤ i → us < 2 ^ (i + 1)
bucket_above us i w h = elim (Bool-cases (us == 0)) [
  | inl t ↦
      let z : us ≡ 0 = ground (arith, t) in
      let p : 2 ^ 0 ≤ 2 ^ (i + 1) = pow-le-pow_right (omega arith) (le_suc i) in omega (arith, z, p)
  | inr t ↦
      let k : highest_bit 64 us ≤ i = rw t at h in
      let a = highest_bit_above 64 us (omega (arith, w)) in
      let p : 2 ^ (highest_bit 64 us + 1) ≤ 2 ^ (i + 1) =
        pow-le-pow_right (omega arith) (omega (arith, k)) in
      omega (arith, a, p)
]

bucket_below : (us i : ℕ) → 0 < i → us < 2 ^ i → bucket_of us < i
bucket_below us i pos h = elim (Bool-cases (us == 0)) [
  | inl t ↦ rw t pos
  | inr t ↦
      let some_us : 0 < us = ground (arith, t) in
      let b = highest_bit_below 64 us some_us in
      rw t (elim (Bool-cases (ltb (highest_bit 64 us) i)) [
        | inl l ↦ ground (arith, l)
        | inr l ↦
            let k : i ≤ highest_bit 64 us = ground (arith, l) in
            let p : 2 ^ i ≤ 2 ^ highest_bit 64 us = pow-le-pow_right (omega arith) k in
            absurd (omega (arith, b, p, h))
      ])
]

abbrev pub Is64 : List ℕ → Type 0
Is64 = All (λ us. us < 2 ^ 64)

All-of_each : (P : ℕ → Type 0) (l : List ℕ) → Is64 l → ((us : ℕ) → us < 2 ^ 64 → P us) → All P l
All-of_each P [] w f = tt
All-of_each P (us ∷ l) w f = (f us (w.0), All-of_each P l w.1 f)

-- What a quantile's bound `r` says: at least `rank` samples are at most `r`, and where `r` is not the
-- first bucket's, fewer than `rank` are below the bucket that `r` ends.
pub record IsQuantile (l : List ℕ) (rank r : ℕ) : Type 0 where
  pub enough : rank ≤ count_if (λ us. leb us r) l
  pub tight : (r ≡ 1) ⊎ (count_if (λ us. ltb (us * 2) (r + 1)) l < rank)

abbrev pub below_count : List ℕ → ℕ → ℕ
below_count l i = count_if (λ us. ltb (bucket_of us) i) l

seen_step :
    (l : List ℕ) (i seen : ℕ)
    → length l < 2 ^ 64
    → seen ≡ below_count l i
    → (seen + (record_all l).buckets i) % 2 ^ 64 ≡ below_count l (i + 1)
seen_step l i seen w e =
    let b = record_all-buckets i l w in
    let s = count_if_split bucket_of i l in
    let n = count_if-length (λ us. ltb (bucket_of us) (i + 1)) l in
    rw (b, e, s) (omega (arith, n, w))

no_samples : (l : List ℕ) → 0 ≡ below_count l 0
unfolding count_if
no_samples [] = refl
no_samples (us ∷ l) = ground (arith, no_samples l)

le_of_test : (a i : ℕ) → ltb a (i + 1) ≡ true → a ≤ i
le_of_test a i t = let k = ltb→lt a (i + 1) t in omega (arith, k)

test_of_le : (a b : ℕ) → a ≤ b → leb a b ≡ true
test_of_le a b h = ground arith

-- The sizes of a bucket's samples, as tests.
upto_bucket :
    (us i : ℕ) → us < 2 ^ 64 → ltb (bucket_of us) (i + 1) ≡ true → leb us (2 ^ (i + 1) - 1) ≡ true
upto_bucket us i w t =
    let k : bucket_of us ≤ i = le_of_test (bucket_of us) i t in
    let a = bucket_above us i w k in test_of_le us (2 ^ (i + 1) - 1) (omega (arith, a))

under_bucket :
    (us i : ℕ) → 0 < i → ltb (us * 2) (2 ^ (i + 1) - 1 + 1) ≡ true → ltb (bucket_of us) i ≡ true
under_bucket us i pos t =
    let d = pow_double i in
    let least : 0 ≤ i = omega arith in
    let one : 2 ^ 0 ≤ 2 ^ i = pow-le-pow_right (omega arith) least in
    let k : us * 2 < 2 ^ (i + 1) - 1 + 1 = ltb→lt (us * 2) (2 ^ (i + 1) - 1 + 1) t in
    lt→ltb (bucket_of us) i (bucket_below us i pos (omega (arith, k, d, one)))

found-IsQuantile :
    (l : List ℕ) (rank i : ℕ)
    → Is64 l
    → below_count l i < rank
    → rank ≤ below_count l (i + 1)
    → IsQuantile l rank (2 ^ (i + 1) - 1)
found-IsQuantile l rank i w few many =
    let up =
      count_if_le (λ us. ltb (bucket_of us) (i + 1)) (λ us. leb us (2 ^ (i + 1) - 1)) l
        (All-of_each _ l w (λ us low. upto_bucket us i low)) in
    record {
      enough = omega (arith, up, many);
      tight = elim (Bool-cases (ltb 0 i)) [
        | inl t ↦
            let pos = ltb→lt 0 i t in
            let down =
              count_if_le (λ us. ltb (us * 2) (2 ^ (i + 1) - 1 + 1)) (λ us. ltb (bucket_of us) i) l
                (All-of_each _ l w (λ us low. under_bucket us i pos)) in
            inr (omega (arith, down, few))
        | inr t ↦ let z : i ≡ 0 = ground (arith, t) in inl (rw z refl)
      ];
    }

full_count : (l : List ℕ) → Is64 l → below_count l 64 ≡ length l
full_count l w =
    count_if-All (λ us. ltb (bucket_of us) 64) l
      (All-of_each _ l w
        (λ us low. lt→ltb (bucket_of us) 64 (bucket_below us 64 (omega arith) low)))

scan-IsQuantile :
    (l : List ℕ) (rank i left seen : ℕ)
    → Is64 l
    → length l < 2 ^ 64
    → i + left ≡ 64
    → seen ≡ below_count l i
    → seen < rank
    → rank ≤ length l
    → IsQuantile l rank (scan_buckets (record_all l) rank i left seen)
unfolding scan_buckets
scan-IsQuantile l rank i zero seen w n at e few many =
    let last : i ≡ 64 = omega arith in
    let f = ap (below_count l) last ∙ full_count l w in absurd (omega (arith, f, e, few, many))
scan-IsQuantile l rank i (suc left) seen w n at e few many =
    let step = seen_step l i seen n e in
    rw step (elim (Bool-cases (leb rank (below_count l (i + 1)))) [
      | inl t ↦
          let enough : rank ≤ below_count l (i + 1) = leb→le rank (below_count l (i + 1)) t in
          let q = found-IsQuantile l rank i w (omega (arith, e, few)) enough in
          rw t (elim (Bool-cases (leb 63 i)) [
            | inl u ↦
                let top : i ≡ 63 = ground (arith, u, at) in
                rw u (subst (λ k. IsQuantile l rank (2 ^ (k + 1) - 1)) top q)
            | inr u ↦ rw u q
          ])
      | inr t ↦ rw t (
          scan-IsQuantile l rank (i + 1) left (below_count l (i + 1)) w n (omega (arith, at)) refl
            (ground (arith, t)) many)
    ])

-- The bound that `quantile_us` gives for a rank from 1 to the number of recorded samples, each of 64
-- bits: at least so many samples are at most the bound, and fewer are below the bucket that the bound
-- ends, unless that is the first one. There are fewer than 2^64 samples.
pub quantile_us-IsQuantile :
    (l : List ℕ) (rank : ℕ)
    → Is64 l
    → length l < 2 ^ 64
    → 0 < rank
    → rank ≤ length l
    → IsQuantile l rank (quantile_us (record_all l) rank)
unfolding quantile_us
quantile_us-IsQuantile l rank w n low many =
    let c = record_all-count l n in
    let z : (rank == 0) ≡ false = ground (arith, low) in
    let y : ((record_all l).count == 0) ≡ false = ground (arith, c, low, many) in
    rw (z, y) (scan-IsQuantile l rank 0 64 0 w n refl (no_samples l) low many)
