-- ===== src/Store/Runs.antt =====
-- Any sequence of calls of src/kv_store.cc on one shard: who owns its entries, and in which list they
-- stand.
use shunya_kv.Prelude.{
  ℕ, ◌≡◌, inl, inr, refl, ap, subst, Bool, true, false, List, [], ◌∷◌, ◌++◌, append_assoc,
  Bool-cases, Option-cases, ◌==◌,
}
use shunya_kv.Prelude.Bytes.{Bytes}
use shunya_kv.Prelude.Links.{
  split_at, Distinct-middle, is_linked, is_linked_middle, Lacks-of_append, Distinct, Part-refl,
}
use shunya_kv.Ttl.{Entry, is_sanctuary}
use shunya_kv.Eviction.{evict, on_erase, on_hit}
use shunya_kv.Eviction.Subset.{write-type, evict-Part}
use shunya_kv.Pool.{
  acquire, promote_to_sanctuary, get_available_slots, get_used_slots, get_total_slots,
}
use shunya_kv.Pool.Shrink.{Part-on_erase}
use shunya_kv.Pool.Places.{Linked, Shrinks-Linked, same-Linked, promote_to_sanctuary-Linked}
use shunya_kv.Store.{
  Store, find, evict_keys, count_fallback, put, plain_fields, ttl_fields, check_memory_and_evict,
  set, set_with_ttl, get,
}
use shunya_kv.Store.Ownership.{entries, find-split}
use shunya_kv.Store.Taken.{acquire-IsTaken}
use shunya_kv.Pool.Release.{Unlinked}
use shunya_kv.Store.Places.{lists-Lack, evict_keys-Linked, extract-Linked}
use shunya_kv.Store.Placement.{acquire-Linked, emplace-Linked}
use shunya_kv.Store.Put.{count_fallback-IsOwned}
use shunya_kv.Store.Calls.{Owned, has_passed, get-Owned, set-Owned, set_with_ttl-Owned}

-- The lists of the store's entries, with the entries of the map in use.
abbrev pub Tidy : Store → Type 0
Tidy st = Linked (entries st.shelf.map) st.entry_pool

put-Tidy :
    (st : Store) (key : Bytes) (wf : Entry → Entry) (u : Bool)
    → ((e : Entry) → (wf e).pool_type ≡ e.pool_type)
    → Owned st
    → Tidy st
    → Tidy (put st key wf u)
unfolding put
put-Tidy st key wf u type o l =
    let sh0 = count_fallback st.shelf st.entry_pool in
    let o0 = count_fallback-IsOwned st.shelf st.entry_pool o in
    let same : sh0.map ≡ st.shelf.map = elim (Bool-cases (get_available_slots st.entry_pool == 0)) [
      | inl t ↦ rw (t, count_fallback) refl
      | inr t ↦ rw (t, count_fallback) refl
    ] in
    let l0 : Linked (entries sh0.map) st.entry_pool = rw same l in
    let (sh, s, e) = acquire evict_keys sh0 st.entry_pool in
    let taken = acquire-IsTaken sh0 st.entry_pool o0 in
    let lacks = (Lacks-of_append e s.pool (entries sh.map) taken.distinct.0).1 in
    emplace-Linked sh s e key (wf (s.mem e)) u (acquire-Linked sh0 st.entry_pool o0 l0 lacks)
      (type (s.mem e))

get-Tidy : (st : Store) (now_s : ℕ) (key : Bytes) → Tidy st → Tidy (get st now_s key).0
unfolding get on_hit
get-Tidy st now_s key l = elim (Option-cases (find st.shelf.map key)) [
  | inl f ↦ rw (f, get) l
  | inr (e, f) ↦
      let s = st.entry_pool in
      let live = entries st.shelf.map in
      rw (f, get)
        (elim (Bool-cases (has_passed (s.mem e).expires_at now_s)) [
          | inl h ↦
              let off = record s { sieve = on_erase s.sieve e } in
              let l1 : Linked live off =
                Shrinks-Linked live live s off l
                  (record {
                    probation = Part-refl s.probation_list;
                    sieve = Part-on_erase s.sieve e;
                    same_max = refl;
                  })
                  (λ x i a. a) (λ x i. refl) in
              rw h (extract-Linked st.shelf.map off key e f l1)
          | inr h ↦
              let (a, b, cut, left) = find-split st.shelf.map key e f in
              let used : is_linked e live ≡ true = rw cut (is_linked_middle e a b) in
              let promoted = promote_to_sanctuary s e in
              rw h (
                same-Linked live promoted _ (promote_to_sanctuary-Linked live s e l used) refl refl
                  refl
                  (λ x i.
                    write-type promoted.mem e x (record (promoted.mem e) { visited = true }) refl))
        ])
]

-- A call on the store, with the second at which it comes.
pub data StoreCall : Type 0 where
  sets : (now_s : ℕ) (key value : Bytes) → StoreCall
  sets_with_ttl : (now_s : ℕ) (key value : Bytes) (ttl : ℕ) → StoreCall
  gets : (now_s : ℕ) (key : Bytes) → StoreCall

pub record IsSound (st : Store) : Type 0 where
  pub owned : Owned st
  pub tidy : Tidy st

-- An entry of the pool stands in no list.
pub pooled-Unlinked :
    (st : Store) (e : ℕ)
    → IsSound st
    → is_linked e st.entry_pool.pool ≡ true
    → Unlinked st.entry_pool e
unfolding Unlinked
pooled-Unlinked st e i h =
    let s = st.entry_pool in
    let live = entries st.shelf.map in
    let (a, b, cut) = split_at e s.pool h in
    let d = subst (λ q. Distinct (q ++ live)) cut i.owned.distinct in
    let (la, lb, d') =
      Distinct-middle a e (b ++ live) (subst Distinct (append_assoc a (e ∷ b) live) d) in
    lists-Lack live s e i.tidy (Lacks-of_append e b live lb).1

module _ (over_soft_trigger : (used_slots total_slots : ℕ) → Bool) where
  check_memory_and_evict-Tidy :
      (st : Store) (now_s : ℕ) → Tidy st → Tidy (check_memory_and_evict over_soft_trigger st now_s)
  unfolding check_memory_and_evict
  check_memory_and_evict-Tidy st now_s l =
      let s = st.entry_pool in
      let live = entries st.shelf.map in
      let (mem, sieve, victims) = evict s.mem s.sieve now_s in
      let swept = record s { mem = mem; sieve = sieve } in
      let (part, types) = evict-Part s.mem s.sieve now_s in
      let l1 : Linked live swept =
        Shrinks-Linked live live s swept l
          (record { probation = Part-refl s.probation_list; sieve = part; same_max = refl })
          (λ x i a. a) (λ x i. ap is_sanctuary (types x)) in
      elim (Bool-cases (get_total_slots s == 0)) [
        | inl z ↦ rw z l
        | inr z ↦
            rw z (elim (Bool-cases (over_soft_trigger (get_used_slots s) (get_total_slots s))) [
              | inl h ↦ rw h (evict_keys-Linked victims st.shelf swept l1)
              | inr h ↦ rw h l
            ])
      ]

  unfoldable pub run_call : Store → StoreCall → Store
  run_call st (sets now_s key value) = (set over_soft_trigger st now_s key value).0
  run_call st (sets_with_ttl now_s key value ttl) =
      (set_with_ttl over_soft_trigger st now_s key value ttl).0
  run_call st (gets now_s key) = (get st now_s key).0

  unfoldable pub run_calls : Store → List StoreCall → Store
  run_calls st [] = st
  run_calls st (c ∷ calls) = run_calls (run_call st c) calls

  pub run_call-IsSound : (st : Store) (c : StoreCall) → IsSound st → IsSound (run_call st c)
  unfolding run_call set set_with_ttl
  run_call-IsSound st (sets now_s key value) i = record {
    owned = set-Owned over_soft_trigger st now_s key value i.owned;
    tidy =
        check_memory_and_evict-Tidy _ now_s
          (put-Tidy st key (plain_fields key value) false (λ e. refl) i.owned i.tidy);
  }
  run_call-IsSound st (sets_with_ttl now_s key value ttl) i = record {
    owned = set_with_ttl-Owned over_soft_trigger st now_s key value ttl i.owned;
    tidy =
        check_memory_and_evict-Tidy _ now_s
          (put-Tidy st key (ttl_fields now_s ttl key value) true (λ e. refl) i.owned i.tidy);
  }
  run_call-IsSound st (gets now_s key) i = record {
    owned = get-Owned st now_s key i.owned;
    tidy = get-Tidy st now_s key i.tidy;
  }

  run_calls-IsSound :
      (calls : List StoreCall) (st : Store) → IsSound st → IsSound (run_calls st calls)
  unfolding run_calls
  run_calls-IsSound [] st i = i
  run_calls-IsSound (c ∷ calls) st i =
      run_calls-IsSound calls (run_call st c) (run_call-IsSound st c i)

  -- Whatever calls of `set`, `set_with_ttl` and `get` are made on a shard, from a state in which each entry is in the pool or in the map,
  -- at one place, and in which the probation list and the sieve's list hold entries of the map only,
  -- each of its own type and at most once: these facts hold again, and no entry of the pool stands in
  -- a list. So neither list keeps a link to an entry that has been released, through reaping,
  -- promotion, eviction and expiry.
  pub run_calls-Unlinked :
      (calls : List StoreCall) (st : Store)
      → IsSound st
      → (let st' = run_calls st calls in
          IsSound st'
          × ((e : ℕ) → is_linked e st'.entry_pool.pool ≡ true → Unlinked st'.entry_pool e))
  run_calls-Unlinked calls st i =
      let i' = run_calls-IsSound calls st i in
      (i', λ e h. pooled-Unlinked (run_calls st calls) e i' h)
