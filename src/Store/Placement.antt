-- ===== src/Store/Placement.antt =====
-- The lists of a shard's entries, through the acquisition of an entry and its way into the map in
-- src/pool/object_pool.cc and src/kv_store.cc.
use shunya_kv.Prelude.{
  ℕ, ◌≡◌, inl, inr, refl, ap, ◌∙◌, Bool, true, false, List, [], ◌∷◌, ◌++◌, Bool-cases, Option-cases,
  leb,
}
use shunya_kv.Prelude.Bytes.{Bytes}
use shunya_kv.Prelude.Links.{is_linked, is_linked_middle, Lacks, Lacks-of_append}
use shunya_kv.Ttl.{Entry, write, update_from, probation}
use shunya_kv.Eviction.{is_empty}
use shunya_kv.Eviction.Subset.{write-type}
use shunya_kv.Pool.{
  Pool, new_entry, acquired, make_entry, as_probation, insert_sieve, acquire, do_acquire,
  do_prob_acquire, run_sequential_reaper, rest_of, promote_to_sanctuary, inc64,
}
use shunya_kv.Pool.Places.{
  Linked, release-Linked, insert_sieve-Linked, append_probation-Linked, same-Linked,
  promote_to_sanctuary-Linked,
}
use shunya_kv.Store.{Shelf, find, evict_keys, emplace}
use shunya_kv.Store.Ownership.{entries, IsOwned, find-split}
use shunya_kv.Store.Taken.{pool-cases, Lacks-of_Below}
use shunya_kv.Store.Places.{
  lists-Lack, write-Linked, more-Linked, more_live, live_front, is_linked-without,
  run_sequential_reaper-Linked, run_sequential_reaper-max,
}

-- An acquired entry is put into the sieve's list.
module _ (live : List ℕ) (s : Pool) (e : ℕ) (l : Linked live s) (lacks : Lacks e live) where
  acquired-Linked : Linked live (acquired s e)
  acquired-Linked = write-Linked live s e l lacks (acquired s e) _ refl refl refl refl

  sanctuary-Linked : Linked (e ∷ live) (insert_sieve s e)
  sanctuary-Linked =
      let (lp, ls) = lists-Lack live s e l lacks in
      insert_sieve-Linked live (e ∷ live) s e l lp ls (λ f h. more_live e f live h)
        (live_front e live)

  -- Or at the end of the probation list.
  probation-Linked :
      (s' : Pool)
      → leb s.prob_pool_max_size 0 ≡ false
      → s'.mem ≡ write s.mem e (record (s.mem e) { pool_type = probation })
      → s'.probation_list ≡ s.probation_list ++ e ∷ []
      → s'.sieve ≡ s.sieve
      → s'.prob_pool_max_size ≡ s.prob_pool_max_size
      → Linked (e ∷ live) s'
  probation-Linked s' max m p v x =
      let (lp, ls) = lists-Lack live s e l lacks in
      append_probation-Linked live (e ∷ live) s e l lp ls (λ f h. more_live e f live h)
        (live_front e live) _ s' refl max m p v x

-- A new entry.
make_entry-Linked :
    (live : List ℕ) (s : Pool)
    → Linked live s
    → Lacks s.next_entry live
    → Linked live (make_entry s)
make_entry-Linked live s l lacks =
    write-Linked live s s.next_entry l lacks (make_entry s) new_entry refl refl refl refl

-- Changes of other fields.
module _ (live : List ℕ) (s s' : Pool) (l : Linked live s) where
  kept-Linked :
      s'.mem ≡ s.mem
      → s'.probation_list ≡ s.probation_list
      → s'.sieve ≡ s.sieve
      → s'.prob_pool_max_size ≡ s.prob_pool_max_size
      → Linked live s'
  kept-Linked m p v x =
      same-Linked live s s' l p (ap (λ q. q.sieve_list) v) x (λ f h. ap (λ q. (q f).pool_type) m)

do_acquire-Linked :
    (live : List ℕ) (s : Pool)
    → Linked live s
    → (let (s', e) = do_acquire s in Lacks e live → Linked (e ∷ live) s')
unfolding do_acquire
do_acquire-Linked live s l = elim (pool-cases s.pool) [
  | inl p ↦ rw p (λ lacks.
      let n = s.next_entry in
      let dry = record s { pool = [] } in
      let l0 : Linked live dry = kept-Linked live s dry l refl refl refl refl in
      let made = acquired (make_entry dry) n in
      let l1 =
        acquired-Linked live (make_entry dry) n (make_entry-Linked live dry l0 lacks) lacks in
      let counted = record made { sanc_count = inc64 s.sanc_count } in
      sanctuary-Linked live counted n (kept-Linked live made counted l1 refl refl refl refl) lacks)
  | inr (x, r, p) ↦ rw p (λ lacks.
      let left = record s { pool = r } in
      let taken = acquired left x in
      let l0 : Linked live left = kept-Linked live s left l refl refl refl refl in
      let l1 = acquired-Linked live left x l0 lacks in
      let counted = record taken { sanc_count = inc64 s.sanc_count } in
      sanctuary-Linked live counted x (kept-Linked live taken counted l1 refl refl refl refl) lacks)
]

-- From the front of a pool that is not empty.
front-Linked :
    (live : List ℕ) (s : Pool) (e : ℕ) (s' : Pool)
    → Linked live s
    → leb s.prob_pool_max_size 0 ≡ false
    → s' ≡ (
        let taken = as_probation (acquired (record s { pool = rest_of s.pool }) e) e in
        record taken {
          prob_count = inc64 taken.prob_count;
          probation_list = taken.probation_list ++ e ∷ [];
        })
    → Lacks e live
    → Linked (e ∷ live) s'
front-Linked live s e s' l max eq lacks =
    let left = record s { pool = rest_of s.pool } in
    let l0 : Linked live left = kept-Linked live s left l refl refl refl refl in
    let l1 = acquired-Linked live left e l0 lacks in
    rw eq (probation-Linked live (acquired left e) e l1 lacks _ max refl refl refl refl)

do_prob_acquire-Linked :
    (sh : Shelf) (s : Pool)
    → IsOwned [] sh s
    → Linked (entries sh.map) s
    → leb s.prob_pool_max_size 0 ≡ false
    → (let (sh', s', e) = do_prob_acquire evict_keys sh s in
        Lacks e (entries sh'.map) → Linked (e ∷ entries sh'.map) s')
unfolding do_prob_acquire
do_prob_acquire-Linked sh s o l max =
    let live = entries sh.map in
    elim (Bool-cases (is_empty s.pool)) [
      | inl t ↦
          let n = s.next_entry in
          let fresh = (Lacks-of_append n s.pool live (Lacks-of_Below n _ o.below)).1 in
          let l1 = acquired-Linked live (make_entry s) n (make_entry-Linked live s l fresh) fresh in
          let made = as_probation (acquired (make_entry s) n) n in
          let l2 : Linked live made =
            write-Linked live (acquired (make_entry s) n) n l1 fresh made _ refl refl refl refl in
          let counted = record made { prob_count = inc64 s.prob_count } in
          let l3 : Linked live counted = kept-Linked live made counted l2 refl refl refl refl in
          let r = run_sequential_reaper-Linked sh counted l3 in rw t (λ lacks. more-Linked n _ _ r)
      | inr t ↦ rw t (elim (Bool-cases (leb s.prob_threshold s.prob_count)) [
        | inl f ↦
            let (sh', s') = run_sequential_reaper evict_keys sh s in
            let max' : leb s'.prob_pool_max_size 0 ≡ false =
              ap (λ q. leb q 0) (run_sequential_reaper-max sh s) ∙ max in
            rw f (
              front-Linked (entries sh'.map) s' _ _ (run_sequential_reaper-Linked sh s l) max' refl)
        | inr f ↦ rw f (front-Linked live s _ _ l max refl)
      ])
    ]

pub acquire-Linked :
    (sh : Shelf) (s : Pool)
    → IsOwned [] sh s
    → Linked (entries sh.map) s
    → (let (sh', s', e) = acquire evict_keys sh s in
        Lacks e (entries sh'.map) → Linked (e ∷ entries sh'.map) s')
unfolding acquire
acquire-Linked sh s o l = elim (Bool-cases (leb s.prob_pool_max_size 0)) [
  | inl z ↦ rw z (do_acquire-Linked (entries sh.map) s l)
  | inr z ↦ rw z (do_prob_acquire-Linked sh s o l z)
]

update_from-type : (a b : Entry) (u : Bool) → (update_from a b u).pool_type ≡ a.pool_type
unfolding update_from
update_from-type a b true = refl
update_from-type a b false = refl

-- The taken entry is written, and goes into the map or back to the pool.
pub emplace-Linked :
    (sh : Shelf) (s : Pool) (e : ℕ) (key : Bytes) (w : Entry) (u : Bool)
    → Linked (e ∷ entries sh.map) s
    → w.pool_type ≡ (s.mem e).pool_type
    → (let st = emplace sh s e key w u in Linked (entries st.shelf.map) st.entry_pool)
emplace-Linked sh s e key w u l type =
    let live = e ∷ entries sh.map in
    let s2 = record s { mem = write s.mem e w } in
    let l2 : Linked live s2 =
      same-Linked live s s2 l refl refl refl (λ f h. write-type s.mem e f w type) in
    elim (Option-cases (find sh.map key)) [
      | inl f ↦ rw (f, emplace) l2
      | inr (old, f) ↦
          let (a, b, cut, left) = find-split sh.map key old f in
          let up = update_from (s2.mem old) (s2.mem e) u in
          let s3 = record s2 { mem = write s2.mem old up } in
          let l3 : Linked live s3 =
            same-Linked live s2 s3 l2 refl refl refl
              (λ x h. write-type s2.mem old x up (update_from-type (s2.mem old) (s2.mem e) u)) in
          let used : is_linked old (entries sh.map) ≡ true = rw cut (is_linked_middle old a b) in
          let l4 =
            promote_to_sanctuary-Linked live s3 old l3 (more_live e old (entries sh.map) used) in
          rw (f, emplace)
            (release-Linked live (entries sh.map) (promote_to_sanctuary s3 old) e l4
              (λ x ne h. is_linked-without x e [] (entries sh.map) ne h))
    ]
