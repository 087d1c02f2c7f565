-- ===== src/Routing/Tests.antt =====
-- The routing theorems at concrete inputs.
use shunya_kv.Prelude.{ℕ, ◌-◌, ◌*◌, ◌%◌, ◌<◌, ◌≡◌, refl, arith, some, List, ◌==◌, if◌then◌else◌}
use shunya_kv.Prelude.Bytes.{Bytes, codes}
use shunya_kv.Routing.{
  hash_space, NodeCfg, HashRange, first_sid, range_at, compute_hash_ranges, compute_hash,
  owner_shard, shard_for, index_of_hash,
}
use shunya_kv.Routing.Ranges.{Covers, compute_hash_ranges-Covers}
use shunya_kv.Routing.Owner.{compute_hash-shard_for, range_at-owner_shard_start}

abbrev three_shards : NodeCfg
three_shards = record { base_port = 60110; smp = 3; port_offset = 0 }

-- A hash that sends every key to the middle of the space.
abbrev middle : Bytes → ℕ
middle key = 9223372036854775808

has_three : first_sid three_shards < 3
unfolding first_sid
has_three = omega arith

compute_hash_ranges-Covers_example :
    (rs : List HashRange) × (compute_hash_ranges three_shards ≡ some rs) × Covers 0 rs hash_space
compute_hash_ranges-Covers_example = compute_hash_ranges-Covers three_shards has_three (omega arith)

compute_hash-shard_for_example :
    (shard_for middle 3 (first_sid three_shards) (codes "k") ≡ 1)
    × ((range_at three_shards 3 1 1).shard ≡ 1)
unfolding first_sid compute_hash range_at
compute_hash-shard_for_example =
    compute_hash-shard_for middle three_shards 1 (codes "k") (omega arith) refl (omega arith)
      (omega arith)

-- With three shards, the first hash that is announced for shard 1 belongs to shard 0.
range_at-owner_shard_start_example :
    owner_shard (range_at three_shards 3 1 1).lo 3 0
    ≡ (if hash_space * 1 % 3 == 0 then 1 else 1 - 1)
range_at-owner_shard_start_example =
    range_at-owner_shard_start three_shards 3 0 1 (omega arith) (omega arith)

boundary : owner_shard (range_at three_shards 3 1 1).lo 3 0 ≡ 0
unfolding owner_shard range_at index_of_hash
boundary = refl
