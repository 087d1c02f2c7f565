-- ===== src/Routing/Ranges.antt =====
-- The ranges of src/node_info_helpers.cc cover the hash space.
use native.Mathlib.Nat.{
  mul-div_left, le-div_iff_mul-le, div-mul-le_self, div-le_of_le-mul, div-lt_iff_lt-mul,
  mod-eq_of_lt,
}
use shunya_kv.Prelude.{
  ℕ, zero, suc, ◌+◌, ◌-◌, ◌*◌, ◌/◌, ◌≤◌, ◌<◌, ◌≡◌, refl, arith, some, none, List, [], ◌∷◌,
  get_elem?,
}
use shunya_kv.Routing.{
  hash_space, u32_mod, NodeCfg, HashRange, first_sid, range_at, ranges_from, compute_hash_ranges,
  compute_hash,
}

-- Where data shard `i` of `d` begins.
abbrev pub bound : ℕ → ℕ → ℕ
bound d i = hash_space * i / d

-- Each range begins where the one before ends, from `a` up to `b`, and none is empty.
abbrev pub Covers : ℕ → List HashRange → ℕ → Type 0
Covers a [] b = a ≡ b
Covers a (r ∷ rs) b = (r.lo ≡ a) × (r.lo ≤ r.hi) × Covers (r.hi + 1) rs b

pub bound_top : (d : ℕ) → 0 < d → bound d d ≡ hash_space
bound_top d h = mul-div_left hash_space h

pub bound_lt : (d i : ℕ) → 0 < d → d ≤ u32_mod → bound d i < bound d (i + 1)
bound_lt d i h w =
    let low : bound d i * d ≤ hash_space * i = div-mul-le_self (hash_space * i) d in
    (le-div_iff_mul-le h).1 (grind (arith, low))

pub bound_le_space : (d i : ℕ) → 0 < d → i ≤ d → bound d i ≤ hash_space
bound_le_space d i h le = div-le_of_le-mul d (omega arith)

pub bound_lt_space : (d i : ℕ) → i < d → bound d i < hash_space
bound_lt_space d i h = (div-lt_iff_lt-mul (omega arith)).1 (omega arith)

-- The casts to 64 bits lose nothing.
pub range_at_bounds :
    (c : NodeCfg) (d i sid : ℕ)
    → i < d
    → d ≤ u32_mod
    → ((range_at c d i sid).lo ≡ bound d i) × ((range_at c d i sid).hi + 1 ≡ bound d (i + 1))
unfolding range_at
range_at_bounds c d i sid h w =
    let rise : bound d i < bound d (i + 1) = bound_lt d i (omega arith) w in
    let top : bound d (i + 1) ≤ hash_space = bound_le_space d (i + 1) (omega arith) (omega arith) in
    (
      mod-eq_of_lt (bound_lt_space d i h),
      ground (arith, mod-eq_of_lt {n = bound d (i + 1) - 1} {m = hash_space} (omega arith)),
    )

ranges_from-Covers :
    (c : NodeCfg) (d i left : ℕ)
    → 0 < d
    → d ≤ u32_mod
    → i + left ≡ d
    → Covers (bound d i) (ranges_from c d i left) hash_space
unfolding ranges_from
ranges_from-Covers c d i zero h w e = let e' : i ≡ d = omega arith in rw (e') (bound_top d h)
ranges_from-Covers c d i (suc left) h w e =
    let b = range_at_bounds c d i (first_sid c + i) (omega arith) w in
    let rise : bound d i < bound d (i + 1) = bound_lt d i (omega arith) w in
    let rest = ranges_from-Covers c d (i + 1) left h w (omega arith) in
    (b.0, omega (arith, b.0, b.1, rise), rw (b.1) rest)

bound_zero : (d : ℕ) → bound d 0 ≡ 0
bound_zero d = omega arith

-- With at least one data shard, and fewer than 2^32 shards, the ranges of `compute_hash_ranges`
-- follow one another without gap or overlap from 0 to the last 64-bit hash, and none is empty.
pub compute_hash_ranges-Covers :
    (c : NodeCfg)
    → first_sid c < c.smp
    → c.smp < u32_mod
    → (rs : List HashRange) × (compute_hash_ranges c ≡ some rs) × Covers 0 rs hash_space
unfolding compute_hash_ranges
compute_hash_ranges-Covers c h w =
    let d = c.smp - first_sid c in
    let cover = ranges_from-Covers c d 0 d (omega arith) (omega arith) (omega arith) in
    (ranges_from c d 0 d, ground arith, rw (bound_zero d) at cover)

get_elem?-ranges_from :
    (c : NodeCfg) (d i left k : ℕ)
    → k < left
    → get_elem? (ranges_from c d i left) k ≡ some (range_at c d (i + k) (first_sid c + (i + k)))
unfolding ranges_from
get_elem?-ranges_from c d i zero k h = absurd (omega arith)
get_elem?-ranges_from c d i (suc left) zero h = let e : i + 0 ≡ i = omega arith in rw e
get_elem?-ranges_from c d i (suc left) (suc k) h =
    let e : i + suc k ≡ i + 1 + k = omega arith in
    rw e (get_elem?-ranges_from c d (i + 1) left k (omega arith))

get_elem?-ranges_from_end :
    (c : NodeCfg) (d i left k : ℕ) → left ≤ k → get_elem? (ranges_from c d i left) k ≡ none
unfolding ranges_from
get_elem?-ranges_from_end c d i zero k h = refl
get_elem?-ranges_from_end c d i (suc left) zero h = absurd (omega arith)
get_elem?-ranges_from_end c d i (suc left) (suc k) h =
    get_elem?-ranges_from_end c d (i + 1) left k (omega arith)

-- For a shard id from the first data shard on, `compute_hash` gives the very entry that
-- `compute_hash_ranges` lists for it, and none where the list has no entry for it.
pub compute_hash-get_elem? :
    (c : NodeCfg) (sid : ℕ) {rs : List HashRange}
    → first_sid c ≤ sid
    → compute_hash_ranges c ≡ some rs
    → compute_hash c sid ≡ get_elem? rs (sid - first_sid c)
unfolding compute_hash compute_hash_ranges
compute_hash-get_elem? c sid h e =
    let d = c.smp - first_sid c in
    let k = sid - first_sid c in
    let zk : 0 + k ≡ k = omega arith in
    let back : first_sid c + k ≡ sid = omega arith in
    let here = get_elem?-ranges_from c d 0 d k in
    let past = get_elem?-ranges_from_end c d 0 d k in ground (arith, here, past, zk, back)
