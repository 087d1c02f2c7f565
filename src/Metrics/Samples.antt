-- ===== src/Metrics/Samples.antt =====
-- What the latency histogram of include/router_metrics.hh says of the samples that it was given.
use shunya_kv.Prelude.{
  ℕ, zero, suc, ◌+◌, ◌*◌, ◌/◌, ◌^◌, ◌≤◌, ◌<◌, ◌≡◌, refl, Bool, true, List, [], ◌∷◌, ◌++◌, ltb,
  lt→ltb, ◌==◌, if◌then◌else◌, length, length-append, All, Bool-cases, inl, inr, arith,
}
use native.Mathlib.Nat.{pow-suc}
use shunya_kv.Metrics.{
  LatencyHistogram, empty_histogram, highest_bit, bucket_of, add_us, merge_from,
}

-- The histogram of the samples, and how many of them pass a test.
unfoldable pub record_all : List ℕ → LatencyHistogram
record_all [] = empty_histogram
record_all (us ∷ l) = add_us (record_all l) us

unfoldable pub count_if : (ℕ → Bool) → List ℕ → ℕ
count_if f [] = 0
count_if f (us ∷ l) = let rest = count_if f l in if f us then rest + 1 else rest

pub count_if-length : (f : ℕ → Bool) (l : List ℕ) → count_if f l ≤ length l
unfolding count_if
count_if-length f [] = omega arith
count_if-length f (us ∷ l) = ground (arith, count_if-length f l)

count_if-append : (f : ℕ → Bool) (a b : List ℕ) → count_if f (a ++ b) ≡ count_if f a + count_if f b
unfolding count_if
count_if-append f [] b = omega arith
count_if-append f (us ∷ a) b = ground (arith, count_if-append f a b)

pub record_all-count : (l : List ℕ) → length l < 2 ^ 64 → (record_all l).count ≡ length l
unfolding record_all add_us
record_all-count [] h = refl
record_all-count (us ∷ l) h = let r = record_all-count l (omega arith) in omega (arith, r)

pub record_all-buckets :
    (i : ℕ) (l : List ℕ)
    → length l < 2 ^ 64
    → (record_all l).buckets i ≡ count_if (λ us. i == bucket_of us) l
unfolding record_all add_us count_if
record_all-buckets i [] h = refl
record_all-buckets i (us ∷ l) h =
    let r = record_all-buckets i l (omega arith) in
    let small = count_if-length (λ u. i == bucket_of u) l in
    elim (Bool-cases (i == bucket_of us)) [
      | inl t ↦ rw (t, r) (omega (arith, small, h))
      | inr t ↦ rw (t, r) refl
    ]

-- The samples of the buckets below `i`, and of bucket `i`.
pub count_if_split :
    (b : ℕ → ℕ) (i : ℕ) (l : List ℕ)
    → count_if (λ us. ltb (b us) i) l + count_if (λ us. i == b us) l
      ≡ count_if (λ us. ltb (b us) (i + 1)) l
unfolding count_if
count_if_split b i [] = refl
count_if_split b i (us ∷ l) = ground (arith, count_if_split b i l)

-- A test that implies another one counts fewer.
pub count_if_le :
    (f g : ℕ → Bool) (l : List ℕ)
    → All (λ us. f us ≡ true → g us ≡ true) l
    → count_if f l ≤ count_if g l
unfolding count_if
count_if_le f g [] h = omega arith
count_if_le f g (us ∷ l) h =
    let r = count_if_le f g l h.1 in
    elim (Bool-cases (f us)) [
      | inl t ↦ let u = h.0 t in rw (t, u) (omega (arith, r))
      | inr t ↦ elim (Bool-cases (g us)) [
        | inl u ↦ rw (t, u) (omega (arith, r))
        | inr u ↦ rw (t, u) r
      ]
    ]

pub count_if-All : (f : ℕ → Bool) (l : List ℕ) → All (λ us. f us ≡ true) l → count_if f l ≡ length l
unfolding count_if
count_if-All f [] h = refl
count_if-All f (us ∷ l) h = rw (h.0) (omega (arith, count_if-All f l h.1))

pub pow_double : (n : ℕ) → 2 ^ (n + 1) ≡ 2 ^ n * 2
pow_double n = let e : n + 1 ≡ suc n = omega arith in rw e (pow-suc 2 n)

pow_double_suc : (n : ℕ) → 2 ^ (suc n + 1) ≡ 2 ^ (n + 1) * 2
pow_double_suc n = let e : suc n + 1 ≡ suc (n + 1) = omega arith in rw e (pow-suc 2 (n + 1))

pub highest_bit_above : (fuel us : ℕ) → us < 2 ^ (fuel + 1) → us < 2 ^ (highest_bit fuel us + 1)
unfolding highest_bit
highest_bit_above zero us h = h
highest_bit_above (suc fuel) us h = elim (Bool-cases (ltb us 2)) [
  | inl t ↦ rw t (ground (arith, t))
  | inr t ↦
      let half : us / 2 < 2 ^ (fuel + 1) = omega (arith, h, pow_double_suc fuel) in
      let r = highest_bit_above fuel (us / 2) half in
      rw t (omega (arith, r, pow_double (highest_bit fuel (us / 2) + 1)))
]

pub highest_bit_below : (fuel us : ℕ) → 0 < us → 2 ^ highest_bit fuel us ≤ us
unfolding highest_bit
highest_bit_below zero us h = omega (arith, h)
highest_bit_below (suc fuel) us h = elim (Bool-cases (ltb us 2)) [
  | inl t ↦ rw t (omega (arith, h))
  | inr t ↦
      let two : 2 ≤ us = ground (arith, t) in
      let r = highest_bit_below fuel (us / 2) (omega (arith, two)) in
      rw t (omega (arith, r, pow_double (highest_bit fuel (us / 2))))
]

-- Merging two histograms gives the one of all samples together, in the count and in each bucket, where
-- there are fewer than 2^64 of them.
pub merge_from-record_all :
    (a b : List ℕ)
    → length (a ++ b) < 2 ^ 64
    → (let h = merge_from (record_all a) (record_all b) in
        (h.count ≡ (record_all (a ++ b)).count)
        × ((i : ℕ) → i < 64 → h.buckets i ≡ (record_all (a ++ b)).buckets i))
unfolding merge_from
merge_from-record_all a b n =
    let sum = length-append a b in
    let na : length a < 2 ^ 64 = omega (arith, sum, n) in
    let nb : length b < 2 ^ 64 = omega (arith, sum, n) in
    let ca = record_all-count a na in
    let cb = record_all-count b nb in
    let c = record_all-count (a ++ b) n in
    (
      omega (arith, ca, cb, c, sum, n),
      λ i low.
          let t : ltb i 64 ≡ true = lt→ltb i 64 low in
          let f : ℕ → Bool = λ us. i == bucket_of us in
          let ba = record_all-buckets i a na in
          let bb = record_all-buckets i b nb in
          let bc = record_all-buckets i (a ++ b) n in
          let app = count_if-append f a b in
          let small = count_if-length f (a ++ b) in rw t (omega (arith, ba, bb, bc, app, small, n)),
    )
