-- ===== src/Eviction/Tests.antt =====
-- The theorems on the sanctuary's eviction order at a concrete list.
use shunya_kv.Prelude.{◌≡◌, refl, true, false, some, [], ◌∷◌, ◌==◌, if◌then◌else◌, arith}
use shunya_kv.Ttl.{Memory, sanctuary}
use shunya_kv.Eviction.{
  SievePolicy, on_erase, evict, sweep, sweep_step, sweep_start, is_victim, is_expired, take_victim,
}
use shunya_kv.Prelude.Links.{next, erase}
use shunya_kv.Eviction.Sweep.{sort_out}
use shunya_kv.Eviction.Invariant.{IsValid, on_erase-IsValid}
use shunya_kv.Eviction.Victims.{IsSortedOut, Evicted, evict-Evicted, evict-IsValid}

-- Entry 2 is visited, the others are not.
abbrev three_entries : Memory
three_entries p = record {
  value = [];
  key = p ∷ [];
  expires_at = 0;
  ver = 0;
  heat = 0;
  last_access = 0;
  visited = if p == 2 then true else false;
  pool_type = sanctuary;
  in_use = true;
}

abbrev three_linked : SievePolicy
three_linked = record { sieve_list = 1 ∷ 2 ∷ 3 ∷ []; hand = some 2; budget = 1 }

abbrev three_linked-IsValid : IsValid three_linked
three_linked-IsValid = record {
  distinct = ground arith;
  before = 1 ∷ [];
  onward = 2 ∷ 3 ∷ [];
  cut = refl;
  at_hand = refl;
  at_rest = λ e. cc;
}

-- The hand spares entry 2 and takes entry 3.
evict_three : (evict three_entries three_linked 5).2 ≡ (3 ∷ []) ∷ []
unfolding evict sweep sweep_step sweep_start is_victim is_expired next take_victim erase
evict_three = refl

evict-Evicted_example :
    Evicted three_entries three_linked
      (1 ∷ [])
      (sort_out three_entries 5 1 (2 ∷ 3 ∷ []))
      (evict three_entries three_linked 5)
    × IsSortedOut three_entries 5 1 (2 ∷ 3 ∷ []) (sort_out three_entries 5 1 (2 ∷ 3 ∷ []))
evict-Evicted_example = evict-Evicted three_entries three_linked 5 three_linked-IsValid

evict-IsValid_example : IsValid (evict three_entries three_linked 5).1
evict-IsValid_example = evict-IsValid three_entries three_linked 5 three_linked-IsValid

on_erase-IsValid_example : IsValid (on_erase three_linked 2)
on_erase-IsValid_example = on_erase-IsValid three_linked 2 three_linked-IsValid
