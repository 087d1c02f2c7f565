-- ===== src/Pool.antt =====
-- src/pool/object_pool.cc: `CacheEntryPool`, the recycled entries of a shard with the probation list.
-- The sieve policy that it points to is a field here. Logging and the yields are left out.
pub mod Init
pub mod Reaper
pub mod Release
pub mod Shrink
pub mod Places
pub use shunya_kv.Prelude.{inc64, dec64}
use shunya_kv.Prelude.{
  ℕ, zero, suc, ◌+◌, ◌-◌, ◌%◌, ◌^◌, Bool, true, false, not, Option, none, some, List, [], ◌∷◌, ◌++◌,
  ltb, leb, ◌==◌, if◌then◌else◌, length,
}
use shunya_kv.Prelude.Bytes.{Bytes}
use shunya_kv.Prelude.Links.{is_linked, front, next, erase}
use shunya_kv.Ttl.{Entry, Memory, write, PoolType, probation, sanctuary, is_sanctuary}
use shunya_kv.Eviction.{SievePolicy, on_insert, on_erase, is_end, is_empty}

pub record Pool : Type 0 where
  pub mem : Memory
  -- The number of the next entry that is allocated.
  pub next_entry : ℕ
  pub pool : List ℕ
  pub sieve : SievePolicy
  pub probation_list : List ℕ
  pub probation_hand : Option ℕ
  pub max_size : ℕ
  pub prob_pool_max_size : ℕ
  pub prob_threshold : ℕ
  pub reaper_budget : ℕ
  pub prob_count : ℕ
  pub sanc_count : ℕ
  pub prob_eviction_count : ℕ

abbrev pub get_available_slots : Pool → ℕ
get_available_slots s = length s.pool

-- `max_size_ - pool_.size()`; the pool never holds more than `max_size_` entries.
abbrev pub get_used_slots : Pool → ℕ
get_used_slots s = s.max_size - length s.pool

abbrev pub get_total_slots : Pool → ℕ
get_total_slots s = s.max_size

-- The entry after the hand, round to the first one of the list.
abbrev pub next_round : ℕ → List ℕ → Option ℕ
next_round h l = let next_it = next h l in if is_end next_it then front l else next_it

-- The loop of the reaper: at most as many rounds as the budget has left.
unfoldable pub reap : ℕ → Pool → (victim_list : List Bytes) → Pool × List Bytes
reap zero s v = (s, v)
reap (suc n) s v = elim s.probation_hand [
  | none ↦ (s, v)
  | some h ↦
      let list = erase h s.probation_list in
      let s' = record s {
        probation_list = list;
        prob_count = dec64 s.prob_count;
        probation_hand = if is_empty list then none else next_round h s.probation_list;
      } in
      let rest = reap n s' (v ++ (s.mem h).key ∷ []) in
      if is_empty s.probation_list then (s, v) else rest
]

abbrev pub no_keys : List Bytes → Bool
no_keys [] = true
no_keys (k ∷ l) = false

abbrev pub points_to : Option ℕ → ℕ → Bool
points_to none e = false
points_to (some h) e = h == e

unfoldable pub remove_from_probation : Pool → ℕ → Pool
remove_from_probation s e =
    let list = erase e s.probation_list in
    let removed_hand = points_to s.probation_hand e in
    if not (is_linked e s.probation_list) then s else record s {
      probation_list = list;
      prob_count = if ltb 0 s.prob_count then s.prob_count - 1 else s.prob_count;
      probation_hand =
          if is_empty list
          then none
          else if removed_hand
          then next_round e s.probation_list
          else s.probation_hand;
    }

-- `sieve_policy_->on_insert`
abbrev pub insert_sieve : Pool → ℕ → Pool
insert_sieve s e =
    let (mem, sieve) = on_insert s.mem s.sieve e in record s { mem = mem; sieve = sieve }

unfoldable pub promote_to_sanctuary : Pool → ℕ → Pool
promote_to_sanctuary s e =
    let s' = insert_sieve (remove_from_probation s e) e in
    if is_sanctuary (s.mem e).pool_type then s else record s' { sanc_count = inc64 s'.sanc_count }

-- A default `ttl::Entry`.
abbrev pub new_entry : Entry
new_entry = record {
  value = [];
  key = [];
  expires_at = 0;
  ver = 0;
  heat = 0;
  last_access = 0;
  visited = false;
  pool_type = probation;
  in_use = false;
}

abbrev pub acquired : Pool → ℕ → Pool
acquired s e = record s { mem = write s.mem e (record (s.mem e) { in_use = true }) }

-- `std::make_unique<ttl::Entry>()`
abbrev pub make_entry : Pool → Pool
make_entry s = record s { mem = write s.mem s.next_entry new_entry; next_entry = s.next_entry + 1 }

abbrev pub rest_of : List ℕ → List ℕ
rest_of [] = []
rest_of (x ∷ l) = l

-- `pool_.front()`, with a default for the empty pool, where the source does not read it.
abbrev pub front_of : List ℕ → ℕ → ℕ
front_of [] d = d
front_of (x ∷ l) d = x

unfoldable pub do_acquire : Pool → Pool × ℕ
do_acquire s = elim (front s.pool) [
  | none ↦
      let made = acquired (make_entry s) s.next_entry in
      (insert_sieve (record made { sanc_count = inc64 s.sanc_count }) s.next_entry, s.next_entry)
  | some e ↦
      let taken = acquired (record s { pool = rest_of s.pool }) e in
      (insert_sieve (record taken { sanc_count = inc64 s.sanc_count }) e, e)
]

abbrev pub as_probation : Pool → ℕ → Pool
as_probation s e = record s { mem = write s.mem e (record (s.mem e) { pool_type = probation }) }

-- The eviction callback, which changes a state `M` of its own.
module _ {M : Type 0} (on_sequential_evict : M → Pool → List Bytes → M × Pool) where
  unfoldable pub run_sequential_reaper : M → Pool → M × Pool
  run_sequential_reaper m s =
      let (reaped, victims) =
        reap s.reaper_budget (record s { probation_hand = front s.probation_list }) [] in
      let counted = record reaped {
        prob_eviction_count = (s.prob_eviction_count + length victims) % 2 ^ 64;
      } in
      if is_empty s.probation_list
      then (m, s)
      else if no_keys victims
      then (m, counted)
      else on_sequential_evict m counted victims

  -- Where the pool runs empty, the new entry counts as probationary and stays out of the list. After
  -- a reaper run, the front of the pool is read again.
  unfoldable pub do_prob_acquire : M → Pool → M × Pool × ℕ
  do_prob_acquire m s =
      let made = as_probation (acquired (make_entry s) s.next_entry) s.next_entry in
      let (m1, s1) = run_sequential_reaper m (record made { prob_count = inc64 s.prob_count }) in
      let (m2, s2) =
        if leb s.prob_threshold s.prob_count then run_sequential_reaper m s else (m, s) in
      let e = front_of s2.pool s2.next_entry in
      let taken = as_probation (acquired (record s2 { pool = rest_of s2.pool }) e) e in
      if is_empty s.pool then (m1, s1, s.next_entry) else (
        m2,
        record taken {
          prob_count = inc64 taken.prob_count;
          probation_list = taken.probation_list ++ e ∷ [];
        },
        e,
      )

  unfoldable pub acquire : M → Pool → M × Pool × ℕ
  acquire m s =
      let (s', e) = do_acquire s in
      if leb s.prob_pool_max_size 0 then (m, s', e) else do_prob_acquire m s

-- The fields that a release clears.
abbrev pub cleared : Entry → Entry
cleared e = record e {
  in_use = false;
  visited = false;
  value = [];
  key = [];
  expires_at = 0;
  ver = 0;
  heat = 0;
  last_access = 0;
  pool_type = probation;
}

abbrev pub clear : Pool → ℕ → Pool
clear s e = record s { mem = write s.mem e (cleared (s.mem e)) }

-- Unlinked from the sieve and uncounted.
abbrev pub leave_sanctuary : Pool → ℕ → Pool
leave_sanctuary s e = record s {
  sieve = on_erase s.sieve e;
  sanc_count = if ltb 0 s.sanc_count then s.sanc_count - 1 else s.sanc_count;
}

-- A full pool lets the entry go.
abbrev pub put_back : Pool → ℕ → Pool
put_back s e = if ltb (length s.pool) s.max_size then record s { pool = s.pool ++ e ∷ [] } else s

abbrev pub do_release : Pool → ℕ → Pool
do_release s e = put_back (leave_sanctuary (clear s e) e) e

abbrev pub do_prob_release : Pool → ℕ → Pool
do_prob_release s e =
    let left =
      if is_sanctuary (s.mem e).pool_type then leave_sanctuary s e else remove_from_probation s e in
    put_back (clear left e) e

-- The source's null pointer is `none`.
unfoldable pub release : Pool → Option ℕ → Pool
release s none = s
release s (some e) = if leb s.prob_pool_max_size 0 then do_release s e else do_prob_release s e
