-- ===== src/Store/Calls.antt =====
-- The calls of src/kv_store.cc: what `get` gives after a `set`, and who owns the entries.
use shunya_kv.Prelude.{
  ℕ, ◌+◌, ◌%◌, ◌^◌, ◌<◌, ◌≡◌, refl, ap, sym, subst, ◌∙◌, Bool, true, false, not, ◌&&◌, Option, none,
  some, [], arith, Bool-cases, Option-cases, inl, inr, ◌==◌, if◌then◌else◌, leb,
}
use shunya_kv.Prelude.Bytes.{Bytes}
use shunya_kv.Eviction.{evict}
use shunya_kv.Pool.{Pool, acquire, get_used_slots, get_total_slots}
use shunya_kv.Store.{
  Shelf, Store, find, put, evict_keys, count_fallback, check_memory_and_evict, set, set_with_ttl,
  get, plain_fields, ttl_fields,
}
use shunya_kv.Store.Ownership.{IsOwned, Keeps, evict_keys-Keeps, extract-Keeps, same-Keeps}
use shunya_kv.Store.Landed.{promote_to_sanctuary-fields, promote_to_sanctuary-pool}
use shunya_kv.Store.Put.{IsPut, put-IsPut, put-IsPut_present, put-IsPut_absent, put-IsOwned}

abbrev pub has_passed : (expires_at now_s : ℕ) → Bool
has_passed expires_at now_s = not (expires_at == 0) && leb expires_at now_s

-- The state behind the first call of a `set`: an entry has been acquired.
abbrev pub at_put : Store → Shelf × Pool × ℕ
at_put st = acquire evict_keys (count_fallback st.shelf st.entry_pool) st.entry_pool

-- The time that a key has behind a `set` without TTL: that of its old entry, or that of the acquired one.
abbrev pub time_of : Pool → (acquired : ℕ) → Option ℕ → ℕ
time_of s acquired none = (s.mem acquired).expires_at
time_of s acquired (some old) = (s.mem old).expires_at

abbrev pub time_behind : Store → (key : Bytes) → ℕ
time_behind st key = time_of (at_put st).1 (at_put st).2 (find (at_put st).0.map key)

abbrev pub Owned : Store → Type 0
Owned st = IsOwned [] st.shelf st.entry_pool

get_put :
    (st : Store) (key value : Bytes) (time now_s : ℕ)
    → IsPut st key value time
    → (get st now_s key).1 ≡ (if has_passed time now_s then none else some value)
unfolding get
get_put st key value time now_s p =
    let (v, t) = promote_to_sanctuary-fields st.entry_pool p.at p.at in
    elim (Bool-cases (has_passed time now_s)) [
      | inl h ↦ rw (p.found, p.has_time, h, get) refl
      | inr h ↦ rw (p.found, p.has_time, h, get) (ap some (v ∙ p.has_value))
    ]

-- Each entry of a shard stays in the pool or in the map, at one place, through a `get`, whether the
-- key is absent, expired or present.
pub get-Owned : (st : Store) (now_s : ℕ) (key : Bytes) → Owned st → Owned (get st now_s key).0
unfolding get
get-Owned st now_s key o = elim (Option-cases (find st.shelf.map key)) [
  | inl f ↦ rw (f, get) o
  | inr (e, f) ↦
      rw (f, get)
        (elim (Bool-cases (has_passed (st.entry_pool.mem e).expires_at now_s)) [
          | inl h ↦ rw h (
              Keeps.owned (extract-Keeps st.shelf _ _ key e f refl) []
                (Keeps.owned (same-Keeps st.shelf st.entry_pool _ refl refl) [] o))
          | inr h ↦
              let (p, n) = promote_to_sanctuary-pool st.entry_pool e in
              rw h (Keeps.owned (same-Keeps st.shelf st.entry_pool _ p n) [] o)
        ])
]

module _ (over_soft_trigger : (used_slots total_slots : ℕ) → Bool) where
  check_memory_and_evict-Owned :
      (st : Store) (now_s : ℕ)
      → Owned st
      → Owned (check_memory_and_evict over_soft_trigger st now_s)
  unfolding check_memory_and_evict
  check_memory_and_evict-Owned st now_s o =
      let s = st.entry_pool in
      let (mem, sieve, victims) = evict s.mem s.sieve now_s in
      elim (Bool-cases (get_total_slots s == 0)) [
        | inl z ↦ rw z o
        | inr z ↦
            rw z (elim (Bool-cases (over_soft_trigger (get_used_slots s) (get_total_slots s))) [
              | inl h ↦ rw h (
                  Keeps.owned (evict_keys-Keeps victims st.shelf _) []
                    (Keeps.owned (same-Keeps st.shelf s _ refl refl) [] o))
              | inr h ↦ rw h o
            ])
      ]

  -- Each entry of a shard stays in the pool or in the map, at one place, through a `set_with_ttl`:
  -- with the reaper's run, the update of a key that is there and the eviction that it starts.
  pub set_with_ttl-Owned :
      (st : Store) (now_s : ℕ) (key value : Bytes) (ttl : ℕ)
      → Owned st
      → Owned (set_with_ttl over_soft_trigger st now_s key value ttl).0
  unfolding set_with_ttl
  set_with_ttl-Owned st now_s key value ttl o =
      check_memory_and_evict-Owned _ now_s
        (put-IsOwned st key (ttl_fields now_s ttl key value) true o)

  -- Each entry of a shard stays in the pool or in the map, at one place, through a `set` without TTL:
  -- with the reaper's run, the update of a key that is there and the eviction that it starts.
  pub set-Owned :
      (st : Store) (now_s : ℕ) (key value : Bytes)
      → Owned st
      → Owned (set over_soft_trigger st now_s key value).0
  unfolding set
  set-Owned st now_s key value o =
      check_memory_and_evict-Owned _ now_s (put-IsOwned st key (plain_fields key value) false o)

  -- The memory check finds the pool's usage below the trigger.
  abbrev pub NoEviction : Store → Type 0
  NoEviction st =
      over_soft_trigger (get_used_slots st.entry_pool) (get_total_slots st.entry_pool) ≡ false

  check_idle :
      (st : Store) (now_s : ℕ)
      → NoEviction st
      → check_memory_and_evict over_soft_trigger st now_s ≡ st
  unfolding check_memory_and_evict
  check_idle st now_s h = elim (Bool-cases (get_total_slots st.entry_pool == 0)) [
    | inl z ↦ rw z refl
    | inr z ↦ rw (z, h) refl
  ]

  -- After a `set_with_ttl` that starts no eviction, in a state in which each entry is in the pool or in the
  -- map, at one place, a `get` of the key gives the value until the clock reaches the time of the call and
  -- the TTL, where these do not overflow and are not both zero, and nothing from then on. The key may have
  -- been in the map before or not, the reaper may have run, and the pool may have been empty.
  pub get-set_with_ttl :
      (st : Store) (now_s : ℕ) (key value : Bytes) (ttl later : ℕ)
      → Owned st
      → 0 < now_s + ttl
      → now_s + ttl < 2 ^ 64
      → NoEviction (put st key (ttl_fields now_s ttl key value) true)
      → (get (set_with_ttl over_soft_trigger st now_s key value ttl).0 later key).1
        ≡ (if leb (now_s + ttl) later then none else some value)
  unfolding set_with_ttl
  get-set_with_ttl st now_s key value ttl later o low high h =
      let st' = put st key (ttl_fields now_s ttl key value) true in
      let time : (now_s + ttl) % 2 ^ 64 ≡ now_s + ttl = omega arith in
      let p =
        put-IsPut st key value (now_s + ttl) (ttl_fields now_s ttl key value) (λ e. (refl, time))
          o in
      let test : has_passed (now_s + ttl) later ≡ leb (now_s + ttl) later = ground (arith, low) in
      ap (λ x. (get x later key).1) (check_idle st' now_s h)
      ∙ get_put st' key value (now_s + ttl) later p
      ∙ ap (λ b. if b then none else some value) test

  -- After a `set` without TTL that starts no eviction, in a state in which each entry is in the pool or in
  -- the map, at one place, a `get` of the key gives the value as long as a time has not passed, and
  -- nothing once it has (a time of 0 never passes). Where the key is in the map
  -- when the call has acquired an entry, this is the time that its old entry has: the key keeps it. Where
  -- the key is not in the map then, because it never was or because the reaper's run took it, it is the
  -- time that stands in the acquired entry.
  pub get-set :
      (st : Store) (now_s : ℕ) (key value : Bytes) (later : ℕ)
      → Owned st
      → NoEviction (put st key (plain_fields key value) false)
      → (get (set over_soft_trigger st now_s key value).0 later key).1
        ≡ (if has_passed (time_behind st key) later then none else some value)
  unfolding set
  get-set st now_s key value later o h =
      let st' = put st key (plain_fields key value) false in
      let read : ℕ → Option Bytes = λ t. if has_passed t later then none else some value in
      ap (λ x. (get x later key).1) (check_idle st' now_s h)
      ∙ elim (Option-cases (find (at_put st).0.map key)) [
        | inl f ↦
            subst (λ x. (get st' later key).1 ≡ read (time_of (at_put st).1 (at_put st).2 x))
              (sym f)
              (get_put st' key value _ later
                (put-IsPut_absent st key (plain_fields key value) false o f))
        | inr (old, f) ↦
            subst (λ x. (get st' later key).1 ≡ read (time_of (at_put st).1 (at_put st).2 x))
              (sym f)
              (get_put st' key value _ later
                (put-IsPut_present st key (plain_fields key value) false o old f))
      ]
