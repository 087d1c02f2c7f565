-- ===== src/Routing/Owner.antt =====
-- Which range of src/node_info_helpers.cc a hash falls in, and which shard include/hash.hh sends it to.
use native.Mathlib.Nat.{
  div-mul-le_self, div-lt_iff_lt-mul, div-add-mod', zero-mod, mod-eq_of_lt, lt-div-mul-add,
}
use native.Mathlib.Decide.{dec_lt}
use shunya_kv.Prelude.{
  ℕ, zero, suc, ◌+◌, ◌-◌, ◌*◌, ◌/◌, ◌%◌, ◌≤◌, ◌<◌, ◌≡◌, ◌∙◌, subst, refl, arith, some, ◌==◌,
  if◌then◌else◌,
}
use shunya_kv.Prelude.Bytes.{Bytes}
use shunya_kv.Routing.{
  hash_space, u32_mod, index_of_hash, owner_shard, shard_for, NodeCfg, HashRange, first_sid,
  range_at, compute_hash,
}
use shunya_kv.Routing.Ranges.{bound, bound_lt, bound_le_space, range_at_bounds}

index_lt : (h d : ℕ) → h < hash_space → 0 < d → h * d / hash_space < d
index_lt h d lt pos = (div-lt_iff_lt-mul (omega arith)).1 (grind arith)

index_small :
    (h d : ℕ) → h < hash_space → 0 < d → d ≤ u32_mod → index_of_hash h d ≡ h * d / hash_space
unfolding index_of_hash
index_small h d lt pos w = mod-eq_of_lt (omega (arith, index_lt h d lt pos))

-- Every 64-bit hash is owned by a data shard: its id is at least `first` and below `smp`.
pub owner_shard_bounds :
    (h smp first : ℕ)
    → h < hash_space
    → first < smp
    → smp < u32_mod
    → (first ≤ owner_shard h smp first) × (owner_shard h smp first < smp)
unfolding owner_shard
owner_shard_bounds h smp first lt some_data w =
    let small = index_small h (smp - first) lt (omega arith) (omega arith) in
    let below = index_lt h (smp - first) lt (omega arith) in ground (arith, small, below)

index_of_bounds :
    (h d i : ℕ)
    → h < hash_space
    → 0 < d
    → d ≤ u32_mod
    → i * hash_space ≤ h * d
    → h * d < (i + 1) * hash_space
    → index_of_hash h d ≡ i
index_of_bounds h d i lt pos w low high = index_small h d lt pos w ∙ omega arith

-- `h` is past the start of range `i`, or at the start and the start is exact.
past_start : (h d i : ℕ) → 0 < d → bound d i < h → i * hash_space ≤ h * d
past_start h d i pos lt =
    let up : hash_space * i < bound d i * d + d = lt-div-mul-add pos in grind arith

before_end : (h d i : ℕ) → 0 < d → h < bound d (i + 1) → h * d < (i + 1) * hash_space
before_end h d i pos lt =
    let down : bound d (i + 1) * d ≤ hash_space * (i + 1) =
      div-mul-le_self (hash_space * (i + 1)) d in
    grind arith

at_start : (d i : ℕ) → 0 < d → (hash_space * i) % d ≡ 0 → i * hash_space ≤ bound d i * d
at_start d i pos exact = let split = div-add-mod' (hash_space * i) d in omega (arith, split)

before_start : (d i : ℕ) → 0 < d → 0 < (hash_space * i) % d → bound d i * d < i * hash_space
before_start d i pos frac = let split = div-add-mod' (hash_space * i) d in omega (arith, split)

frac_pos : (d i : ℕ) → 0 < (hash_space * i) % d → 0 < i
frac_pos d zero frac = absurd (omega (arith, zero-mod d))
frac_pos d (suc i) frac = omega arith

-- A range is wider than one shard's share of a hash, so its start is past the one before.
j_before : (d i : ℕ) → 0 < d → d ≤ u32_mod → 0 < i → (i - 1) * hash_space ≤ bound d i * d
j_before d i pos w some_left =
    let up : hash_space * i < bound d i * d + d = lt-div-mul-add pos in omega (arith, up)

owner_of_index :
    (smp first h j : ℕ)
    → first < smp
    → first + j < u32_mod
    → index_of_hash h (smp - first) ≡ j
    → owner_shard h smp first ≡ first + j
unfolding owner_shard
owner_of_index smp first h j some_data w e = ground arith

module _ (c : NodeCfg) (smp first i : ℕ) (inside : i < smp - first) (w : smp < u32_mod) where
  d_pos : 0 < smp - first
  d_pos = omega arith

  pub range_at-owner_shard :
      (h sid : ℕ)
      → (range_at c (smp - first) i sid).lo < h
      → h ≤ (range_at c (smp - first) i sid).hi
      → owner_shard h smp first ≡ first + i
  range_at-owner_shard h sid low high =
      let d = smp - first in
      let b = range_at_bounds c d i sid inside (omega arith) in
      let top = bound_le_space d (i + 1) d_pos (omega arith) in
      owner_of_index smp first h i (omega arith) (omega arith) (
        index_of_bounds h d i (omega (arith, b.1, top)) d_pos (omega arith)
          (past_start h d i d_pos (omega (arith, b.0)))
          (before_end h d i d_pos (omega (arith, b.1))))

  -- The first hash of the range of data shard `i` is owned by that shard exactly where `i * 2^64`
  -- divides evenly among the data shards; elsewhere it is owned by the shard before.
  pub range_at-owner_shard_start :
      owner_shard (range_at c (smp - first) i (first + i)).lo smp first
      ≡ (if hash_space * i % (smp - first) == 0 then first + i else first + i - 1)
  range_at-owner_shard_start =
      let d = smp - first in
      let b = range_at_bounds c d i (first + i) inside (omega arith) in
      let rise : bound d i < bound d (i + 1) = bound_lt d i d_pos (omega arith) in
      let top = bound_le_space d (i + 1) d_pos (omega arith) in
      let before = before_end (bound d i) d i d_pos rise in
      rw (b.0) (elim (dec_lt 0 (hash_space * i % d)) [
        | no none_left ↦
            let exact : hash_space * i % d ≡ 0 = omega arith in
            rw (exact) (
              owner_of_index smp first (bound d i) i (omega arith) (omega arith) (
                index_of_bounds (bound d i) d i (omega arith) d_pos (omega arith)
                  (at_start d i d_pos exact) before))
        | yes frac ↦
            let short = before_start d i d_pos frac in
            let pos : 0 < i = frac_pos d i frac in
            let j_low = j_before d i d_pos (omega arith) pos in
            let e = owner_of_index smp first (bound d i) (i - 1) (omega arith) (omega arith) (
              index_of_bounds (bound d i) d (i - 1) (omega arith) d_pos (omega arith) j_low
                (omega (arith, short))) in
            ground (arith, e)
      ])

range_shard : (c : NodeCfg) (d i sid : ℕ) {r : HashRange} → r ≡ range_at c d i sid → r.shard ≡ sid
unfolding range_at
range_shard c d i sid e = ground arith

compute_hash_inv :
    (c : NodeCfg) (sid : ℕ) {r : HashRange}
    → compute_hash c sid ≡ some r
    → (first_sid c ≤ sid)
      × (sid < c.smp)
      × (r ≡ range_at c (c.smp - first_sid c) (sid - first_sid c) sid)
unfolding compute_hash
compute_hash_inv c sid e = ground arith

module _ (fnv1a64 : Bytes → ℕ) where
  shard_for-owner_shard :
      (smp first : ℕ) (key : Bytes)
      → shard_for fnv1a64 smp first key ≡ owner_shard (fnv1a64 key) smp first
  unfolding shard_for owner_shard
  shard_for-owner_shard smp first key = refl

  -- Every key whose hash is below 2^64 is sent to a data shard, of id at least `first` and below
  -- `smp`, where there is one.
  shard_for_bounds :
      (smp first : ℕ) (key : Bytes)
      → fnv1a64 key < hash_space
      → first < smp
      → smp < u32_mod
      → (first ≤ shard_for fnv1a64 smp first key) × (shard_for fnv1a64 smp first key < smp)
  shard_for_bounds smp first key lt some_data w =
      rw (shard_for-owner_shard smp first key)
        (owner_shard_bounds (fnv1a64 key) smp first lt some_data w)

  -- Where `compute_hash` announces a range for a shard, every key whose hash lies in the range, past
  -- its first hash, is routed to that shard.
  pub compute_hash-shard_for :
      (c : NodeCfg) (sid : ℕ) (key : Bytes) {r : HashRange}
      → c.smp < u32_mod
      → compute_hash c sid ≡ some r
      → r.lo < fnv1a64 key
      → fnv1a64 key ≤ r.hi
      → (shard_for fnv1a64 c.smp (first_sid c) key ≡ sid) × (r.shard ≡ sid)
  compute_hash-shard_for c sid key {r} w e low high =
      let (above, below, e') = compute_hash_inv c sid e in
      let first = first_sid c in
      let i = sid - first in
      let owner =
        range_at-owner_shard c c.smp first i (omega arith) w (fnv1a64 key) sid
          (subst (λ (q : HashRange). q.lo < fnv1a64 key) e' low)
          (subst (λ (q : HashRange). fnv1a64 key ≤ q.hi) e' high) in
      let route = shard_for-owner_shard c.smp first key in
      (omega (arith, owner, route), range_shard c (c.smp - first) i sid e')
