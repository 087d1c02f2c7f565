-- ===== src/Store/Places.antt =====
-- Which list an entry of a shard stands in, through the calls of src/kv_store.cc.
use shunya_kv.Prelude.{
  ℕ, ◌+◌, ◌%◌, ◌^◌, ◌≡◌, ◌≢◌, inl, inr, refl, sym, ap, subst, ◌∙◌, true, some, List, [], ◌∷◌, ◌++◌,
  arith, length, Bool-cases, Option-cases,
}
use shunya_kv.Prelude.Bytes.{Bytes}
use shunya_kv.Prelude.Links.{is_linked, is_linked_of_Lacks, Lacks, Lacks-of_is_linked, front}
use shunya_kv.Ttl.{Entry, write, is_sanctuary}
use shunya_kv.Eviction.{is_empty}
use shunya_kv.Pool.{Pool, run_sequential_reaper, reap, release, no_keys}
use shunya_kv.Pool.Shrink.{Shrinks, release-Shrinks, reap-Shrinks, reap-mem}
use shunya_kv.Pool.Places.{Linked, Shrinks-Linked, release-Linked, same-Linked, write-other}
use shunya_kv.Store.{Map, Shelf, find, without, evict_key, evict_keys}
use shunya_kv.Store.Ownership.{entries, find-split}

-- Without `e`, a list has its other members still.
pub is_linked-without :
    (f e : ℕ) (a b : List ℕ) → f ≢ e → is_linked f (a ++ e ∷ b) ≡ true → is_linked f (a ++ b) ≡ true
unfolding is_linked
is_linked-without f e [] b ne h = ground (arith, ne, h)
is_linked-without f e (y ∷ a) b ne h = ground (arith, h, is_linked-without f e a b ne)

pub extract-Linked :
    (m : Map) (s : Pool) (k : Bytes) (e : ℕ)
    → find m k ≡ some e
    → Linked (entries m) s
    → Linked (entries (without m k)) (release s (some e))
extract-Linked m s k e f l =
    let (a, b, cut, left) = find-split m k e f in
    release-Linked (entries m) (entries (without m k)) s e l (λ x ne h.
      subst (λ q. is_linked x q ≡ true) (sym left)
        (is_linked-without x e a b ne (subst (λ q. is_linked x q ≡ true) cut h)))

evict_key-Linked :
    (sh : Shelf) (s : Pool) (k : Bytes)
    → Linked (entries sh.map) s
    → (let (sh', s') = evict_key sh s k in Linked (entries sh'.map) s')
evict_key-Linked sh s k l = elim (Option-cases (find sh.map k)) [
  | inl f ↦ rw (f, evict_key) l
  | inr (e, f) ↦ rw (f, evict_key) (extract-Linked sh.map s k e f l)
]

pub evict_keys-Linked :
    (keys : List Bytes) (sh : Shelf) (s : Pool)
    → Linked (entries sh.map) s
    → (let (sh', s') = evict_keys sh s keys in Linked (entries sh'.map) s')
unfolding evict_keys
evict_keys-Linked [] sh s l = l
evict_keys-Linked (k ∷ keys) sh s l =
    let (sh', s') = evict_key sh s k in evict_keys-Linked keys sh' s' (evict_key-Linked sh s k l)

pub run_sequential_reaper-Linked :
    (sh : Shelf) (s : Pool)
    → Linked (entries sh.map) s
    → (let (sh', s') = run_sequential_reaper evict_keys sh s in Linked (entries sh'.map) s')
unfolding run_sequential_reaper
run_sequential_reaper-Linked sh s l = elim (Bool-cases (is_empty s.probation_list)) [
  | inl t ↦ rw t l
  | inr t ↦
      let live = entries sh.map in
      let start = record s { probation_hand = front s.probation_list } in
      let (reaped, victims) = reap s.reaper_budget start [] in
      let counted = record reaped {
        prob_eviction_count = (s.prob_eviction_count + length victims) % 2 ^ 64;
      } in
      let l0 : Linked live start = same-Linked live s start l refl refl refl (λ f h. refl) in
      let l1 : Linked live reaped =
        Shrinks-Linked live live start reaped l0 (reap-Shrinks s.reaper_budget start [])
          (λ f h a. a)
          (λ f h. ap (λ m. is_sanctuary (m f).pool_type) (reap-mem s.reaper_budget start [])) in
      let l2 : Linked live counted =
        same-Linked live reaped counted l1 refl refl refl (λ f h. refl) in
      rw t (elim (Bool-cases (no_keys victims)) [
        | inl f ↦ rw f l2
        | inr f ↦ rw f (evict_keys-Linked victims sh counted l2)
      ])
]

-- An entry that is not in use stands in no list.
pub lists-Lack :
    (live : List ℕ) (s : Pool) (e : ℕ)
    → Linked live s
    → Lacks e live
    → Lacks e s.probation_list × Lacks e s.sieve.sieve_list
lists-Lack live s e l lacks =
    let out = is_linked_of_Lacks e live lacks in
    (
      elim (Bool-cases (is_linked e s.probation_list)) [
        | inl h ↦ absurd (cc (out, (l.in_probation e h).0))
        | inr h ↦ Lacks-of_is_linked e s.probation_list h
      ],
      elim (Bool-cases (is_linked e s.sieve.sieve_list)) [
        | inl h ↦ absurd (cc (out, (l.in_sieve e h).0))
        | inr h ↦ Lacks-of_is_linked e s.sieve.sieve_list h
      ],
    )

-- An entry that is not in use may be written.
module _ (live : List ℕ) (s : Pool) (e : ℕ) (l : Linked live s) (lacks : Lacks e live) where
  pub write-Linked :
      (s' : Pool) (w : Entry)
      → s'.mem ≡ write s.mem e w
      → s'.probation_list ≡ s.probation_list
      → s'.sieve ≡ s.sieve
      → s'.prob_pool_max_size ≡ s.prob_pool_max_size
      → Linked live s'
  write-Linked s' w m p v x =
      let (lp, ls) = lists-Lack live s e l lacks in
      same-Linked live s s' l p (ap (λ q. q.sieve_list) v) x (λ f h.
        let ne : f ≢ e = λ q. elim h [
          | inl a ↦ cc (
            a,
            is_linked_of_Lacks e s.probation_list lp,
            ap (λ y. is_linked y s.probation_list) q,
          )
          | inr a ↦ cc (
            a,
            is_linked_of_Lacks e s.sieve.sieve_list ls,
            ap (λ y. is_linked y s.sieve.sieve_list) q,
          )
        ] in
        rw m (ap (λ y. y.pool_type) (write-other s e f w ne)))

pub more_live : (e f : ℕ) (live : List ℕ) → is_linked f live ≡ true → is_linked f (e ∷ live) ≡ true
unfolding is_linked
more_live e f live h = ground (arith, h)

pub live_front : (e : ℕ) (live : List ℕ) → is_linked e (e ∷ live) ≡ true
unfolding is_linked
live_front e live = ground arith

pub more-Linked : (e : ℕ) (live : List ℕ) (s : Pool) → Linked live s → Linked (e ∷ live) s
more-Linked e live s l = record {
  in_probation = λ f h. let (a, t) = l.in_probation f h in (more_live e f live a, t);
  in_sieve = λ f h. let (a, t) = l.in_sieve f h in (more_live e f live a, t);
  probation_distinct = l.probation_distinct;
  sieve_distinct = l.sieve_distinct;
  no_probation = l.no_probation;
}

evict_key-max :
    (sh : Shelf) (s : Pool) (k : Bytes)
    → (evict_key sh s k).1.prob_pool_max_size ≡ s.prob_pool_max_size
evict_key-max sh s k = elim (Option-cases (find sh.map k)) [
  | inl f ↦ rw (f, evict_key) refl
  | inr (e, f) ↦ rw (f, evict_key) (Shrinks.same_max (release-Shrinks s e))
]

evict_keys-max :
    (keys : List Bytes) (sh : Shelf) (s : Pool)
    → (evict_keys sh s keys).1.prob_pool_max_size ≡ s.prob_pool_max_size
unfolding evict_keys
evict_keys-max [] sh s = refl
evict_keys-max (k ∷ keys) sh s = evict_keys-max keys _ _ ∙ evict_key-max sh s k

pub run_sequential_reaper-max :
    (sh : Shelf) (s : Pool)
    → (run_sequential_reaper evict_keys sh s).1.prob_pool_max_size ≡ s.prob_pool_max_size
unfolding run_sequential_reaper
run_sequential_reaper-max sh s = elim (Bool-cases (is_empty s.probation_list)) [
  | inl t ↦ rw t refl
  | inr t ↦
      let start = record s { probation_hand = front s.probation_list } in
      let (reaped, victims) = reap s.reaper_budget start [] in
      let m = Shrinks.same_max (reap-Shrinks s.reaper_budget start []) in
      rw t (elim (Bool-cases (no_keys victims)) [
        | inl f ↦ rw f m
        | inr f ↦ rw f (evict_keys-max victims sh _ ∙ m)
      ])
]
