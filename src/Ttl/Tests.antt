-- ===== src/Ttl/Tests.antt =====
-- The adaptive time to live at a concrete policy.
use shunya_kv.Prelude.{◌+◌, ◌*◌, ◌%◌, ◌^◌, ◌≤◌, min, ◌≡◌, refl, true, false, [], arith}
use shunya_kv.Ttl.{Entry, probation}
use shunya_kv.Ttl.Policy.{
  TtlPolicy, tiered_exponential, heat_after, compute_new_expiry, compute_new_expiry_tiered,
}

-- The default values of the source, in the tiered mode.
abbrev tiered : TtlPolicy
tiered = record {
  mode = tiered_exponential;
  base_ttl = 5000;
  max_ttl = 600000;
  idle_window = 30000;
  heat_max = 10;
}

abbrev warm_entry : Entry
warm_entry = record {
  value = [];
  key = [];
  expires_at = 0;
  ver = 0;
  heat = 2;
  last_access = 1000;
  visited = false;
  pool_type = probation;
  in_use = true;
}

compute_new_expiry_tiered_example :
    ((compute_new_expiry tiered 2000 warm_entry).1
      ≡ (2000 + min (5000 * 2 ^ heat_after tiered 2000 warm_entry) 600000) % 2 ^ 64)
    × (heat_after tiered 2000 warm_entry ≤ 10)
    × ((compute_new_expiry tiered 2000 warm_entry).0.last_access ≡ 2000)
unfolding compute_new_expiry
compute_new_expiry_tiered_example =
    compute_new_expiry_tiered tiered 2000 300000 warm_entry refl refl (omega arith) (omega arith)
      (omega arith)
