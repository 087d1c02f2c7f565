-- ===== src/Routing.antt =====
-- include/hash.hh and include/hash_wrapper.hh: which shard owns a key; src/node_info_helpers.cc and
-- include/cmd_node_info.hh: the hash ranges and ports that a client is told.
pub mod Ranges
pub mod Owner
mod Tests
use shunya_kv.Prelude.{
  ℕ, zero, suc, ◌+◌, ◌-◌, ◌*◌, ◌/◌, ◌%◌, ◌^◌, Option, none, some, List, [], ◌∷◌, ltb, leb, ◌==◌,
  ◌||◌, if◌then◌else◌,
}
use shunya_kv.Prelude.Bytes.{Bytes}

-- `1 << 64`
abbrev pub hash_space : ℕ
hash_space = 2 ^ 64

abbrev pub u32_mod : ℕ
u32_mod = 2 ^ 32

-- `unsigned(((__uint128_t)h * D) >> 64)`
pub index_of_hash : ℕ → ℕ → ℕ
index_of_hash h d = (h * d / hash_space) % u32_mod

-- The shard of a 64-bit hash among the data shards `first .. smp - 1`.
pub owner_shard : (h smp first : ℕ) → ℕ
owner_shard h smp first =
    if leb smp first then first else (first + index_of_hash h (smp - first)) % u32_mod

-- The key's hash is third-party code: a parameter.
module _ (fnv1a64 : Bytes → ℕ) where
  pub shard_for : (smp first : ℕ) → Bytes → ℕ
  shard_for smp first key =
      if leb smp first then first else (first + index_of_hash (fnv1a64 key) (smp - first)) % u32_mod

pub record NodeCfg : Type 0 where
  pub base_port : ℕ
  pub smp : ℕ
  pub port_offset : ℕ

pub record HashRange : Type 0 where
  pub lo : ℕ
  pub hi : ℕ
  pub shard : ℕ
  pub port : ℕ

unfoldable pub first_sid : NodeCfg → ℕ
first_sid c = if c.port_offset == 0 then 0 else 1

-- Data shard number `i` of `d`: the bounds are computed in 128 bits and cast to 64.
unfoldable pub range_at : NodeCfg → (d i sid : ℕ) → HashRange
range_at c d i sid = record {
  lo = (hash_space * i / d) % hash_space;
  hi = (hash_space * (i + 1) / d - 1) % hash_space;
  shard = sid;
  port = ((c.base_port + sid) % u32_mod) % 2 ^ 16;
}

-- The loop over the data shards, with `left` rounds to go.
unfoldable pub ranges_from : NodeCfg → (d i left : ℕ) → List HashRange
ranges_from c d i zero = []
ranges_from c d i (suc left) = range_at c d i (first_sid c + i) ∷ ranges_from c d (i + 1) left

-- `none` stands for the reply `{}`.
unfoldable pub compute_hash_ranges : NodeCfg → Option (List HashRange)
compute_hash_ranges c =
    let d = c.smp - first_sid c in
    if c.smp == 0 || ltb c.smp (first_sid c) then none else some (ranges_from c d 0 d)

pub compute_hash : NodeCfg → ℕ → Option HashRange
compute_hash c sid =
    let first = first_sid c in
    let d = c.smp - first in
    if c.smp == 0 || ltb c.smp first
    then none
    else if d == 0
    then none
    else if ltb sid first || leb c.smp sid
    then none
    else some (range_at c d (sid - first) sid)

pub port_for_shard : NodeCfg → ℕ → ℕ
port_for_shard c sid =
    (((c.base_port + (sid + u32_mod - first_sid c)) % u32_mod) + 1) % u32_mod % 2 ^ 16
