-- ===== src/Eviction.antt =====
-- src/eviction/sieve_policy.cc: `SievePolicy`, the eviction order of the sanctuary. The yields inside
-- `evict` are left out: a sweep is one step.
pub mod Sweep
pub mod Invariant
pub mod Victims
pub mod Subset
mod Tests
use shunya_kv.Prelude.{
  ℕ, zero, suc, ◌+◌, ◌-◌, Bool, true, false, not, ◌&&◌, ◌||◌, Option, none, some, List, [], ◌∷◌,
  ◌++◌, ltb, leb, ◌==◌, if◌then◌else◌, length,
}
use shunya_kv.Prelude.Bytes.{Bytes}
use shunya_kv.Prelude.Links.{is_linked, front, next, erase}
use shunya_kv.Ttl.{Entry, Memory, write, sanctuary}

pub record SievePolicy : Type 0 where
  pub sieve_list : List ℕ
  pub hand : Option ℕ
  pub budget : ℕ

-- `is_expired` of sieve_policy.cc.
pub is_expired : (now expires_at : ℕ) → Bool
is_expired now expires_at = not (expires_at == 0) && leb expires_at now

abbrev pub is_end : Option ℕ → Bool
is_end none = true
is_end (some x) = false

unfoldable pub on_insert : Memory → SievePolicy → ℕ → Memory × SievePolicy
on_insert mem s e =
    let list = s.sieve_list ++ e ∷ [] in
    if is_linked e s.sieve_list then (mem, s) else (
      write mem e (record (mem e) { visited = true; pool_type = sanctuary }),
      record s { sieve_list = list; hand = if is_end s.hand then front list else s.hand },
    )

-- The hand moves off an entry that is about to be erased, round to the first.
pub hand_off : SievePolicy → ℕ → Option ℕ
hand_off s e =
    let after = next e s.sieve_list in
    elim s.hand [
      | none ↦ none
      | some h ↦ if h == e then (if is_end after then front s.sieve_list else after) else some h
    ]

unfoldable pub on_erase : SievePolicy → ℕ → SievePolicy
on_erase s e =
    let list = erase e s.sieve_list in
    if not (is_linked e s.sieve_list)
    then s
    else record s { sieve_list = list; hand = elim list [ [] ↦ none | x ∷ r ↦ hand_off s e ] }

unfoldable pub on_hit : Memory → ℕ → Memory
on_hit mem e = write mem e (record (mem e) { visited = true })

-- The loop of `evict`: its variables, with the memory.
pub record SweepState : Type 0 where
  pub mem : Memory
  pub list : List ℕ
  pub at : Option ℕ
  pub victim_list : List Bytes
  pub evicted_count : ℕ

pub is_victim : (now : ℕ) → Entry → Bool
is_victim now e = is_expired now e.expires_at || not e.visited

-- The entry under the hand is erased; its key is noted.
pub take_victim : SweepState → ℕ → SweepState
take_victim s h = record s {
  list = erase h s.list;
  at = next h s.list;
  victim_list = s.victim_list ++ (s.mem h).key ∷ [];
}

pub data SweepNext : Type 0 where
  halt on : SweepState → SweepNext

abbrev pub is_empty : List ℕ → Bool
is_empty [] = true
is_empty (x ∷ l) = false

-- One round of the loop. It breaks off when the list has run empty, before the count.
pub sweep_step : (budget now : ℕ) → SweepState → SweepNext
sweep_step budget now s = elim s.at [
  | none ↦ halt s
  | some h ↦
      let taken = take_victim s h in
      if not (ltb s.evicted_count budget)
      then halt s
      else if is_victim now (s.mem h)
      then (if is_empty taken.list
          then halt (record taken { at = none })
          else on (record taken { evicted_count = s.evicted_count + 1 }))
      else on (record s {
        mem = write s.mem h (record (s.mem h) { visited = false });
        at = next h s.list;
      })
]

-- The loop, with fuel.
pub sweep : (budget now fuel : ℕ) → SweepState → SweepState
sweep budget now zero s = s
sweep budget now (suc fuel) s = elim (sweep_step budget now s) [
  | halt s' ↦ s'
  | on s' ↦ sweep budget now fuel s'
]

-- The hand at rest: at the end of an empty list, else at an entry.
abbrev pub settle : List ℕ → Option ℕ → Option ℕ
settle list at = if is_end at then front list else at

pub sweep_start : Memory → SievePolicy → SweepState
sweep_start mem s = record {
  mem = mem;
  list = s.sieve_list;
  at = settle s.sieve_list s.hand;
  victim_list = [];
  evicted_count = 0;
}

unfoldable pub evict : Memory → SievePolicy → (now : ℕ) → Memory × SievePolicy × List Bytes
evict mem s now =
    let done = sweep s.budget now (length s.sieve_list) (sweep_start mem s) in
    if is_empty s.sieve_list then (mem, s, []) else (
      done.mem,
      record s { sieve_list = done.list; hand = settle done.list done.at },
      done.victim_list,
    )
