-- ===== src/Pool/Places.antt =====
-- Which list an entry stands in, through the calls of src/pool/object_pool.cc: the entries of the
-- probation list and of the sieve's list are in use, and each list holds those of its type.
use shunya_kv.Prelude.{
  ℕ, ◌≡◌, ◌≢◌, ◌⊎◌, inl, inr, refl, sym, ap, subst, ◌∙◌, true, false, some, List, [], ◌∷◌, ◌++◌,
  arith, Bool-cases, leb, ◌==◌, ==_refl,
}
use shunya_kv.Prelude.Links.{
  Part, Part-refl, is_linked, is_linked_of_Lacks, Lacks, Lacks-of_is_linked, Distinct,
  Distinct-snoc,
}
use shunya_kv.Ttl.{Entry, is_sanctuary, sanctuary, write}
use shunya_kv.Eviction.{on_insert}
use shunya_kv.Pool.{
  Pool, new_entry, remove_from_probation, release, insert_sieve, promote_to_sanctuary,
}
use shunya_kv.Pool.Release.{
  Placed, Unlinked, release-Unlinked, release-mem, remove_from_probation-mem,
  remove_from_probation-Lacks,
}
use shunya_kv.Pool.Shrink.{Shrinks, release-Shrinks, remove_from_probation-Shrinks}

-- Each entry of a list is one of those in use, and of the list's type; no entry is twice in a list;
-- without probationary slots the probation list is empty.
pub record Linked (live : List ℕ) (s : Pool) : Type 0 where
  pub in_probation :
      (e : ℕ)
      → is_linked e s.probation_list ≡ true
      → (is_linked e live ≡ true) × (is_sanctuary (s.mem e).pool_type ≡ false)
  pub in_sieve :
      (e : ℕ)
      → is_linked e s.sieve.sieve_list ≡ true
      → (is_linked e live ≡ true) × (is_sanctuary (s.mem e).pool_type ≡ true)
  pub probation_distinct : Distinct s.probation_list
  pub sieve_distinct : Distinct s.sieve.sieve_list
  pub no_probation : s.prob_pool_max_size ≡ 0 → s.probation_list ≡ []

abbrev pub InList : Pool → ℕ → Type 0
InList s f = (is_linked f s.probation_list ≡ true) ⊎ (is_linked f s.sieve.sieve_list ≡ true)

-- Entries may leave the lists, if those that stay are still in use and keep their type.
pub Shrinks-Linked :
    (live live' : List ℕ) (s s' : Pool)
    → Linked live s
    → Shrinks s s'
    → ((f : ℕ) → InList s' f → is_linked f live ≡ true → is_linked f live' ≡ true)
    → ((f : ℕ) → InList s' f → is_sanctuary (s'.mem f).pool_type ≡ is_sanctuary (s.mem f).pool_type)
    → Linked live' s'
Shrinks-Linked live live' s s' l p stays same = record {
  in_probation = λ e h.
      let (a, t) = l.in_probation e (p.probation.sub e h) in
      (stays e (inl h) a, same e (inl h) ∙ t);
  in_sieve =
      λ e h. let (a, t) = l.in_sieve e (p.sieve.sub e h) in (stays e (inr h) a, same e (inr h) ∙ t);
  probation_distinct = p.probation.distinct l.probation_distinct;
  sieve_distinct = p.sieve.distinct l.sieve_distinct;
  no_probation = λ z. p.probation.empty (l.no_probation (sym p.same_max ∙ z));
}

not_linked : (e : ℕ) (l : List ℕ) → ¬ (is_linked e l ≡ true) → Lacks e l
not_linked e l n = elim (Bool-cases (is_linked e l)) [
  | inl h ↦ absurd (n h)
  | inr h ↦ Lacks-of_is_linked e l h
]

apart : (e f : ℕ) (l : List ℕ) → Lacks e l → is_linked f l ≡ true → f ≢ e
apart e f l lacks h q = cc (h, is_linked_of_Lacks e l lacks, ap (λ x. is_linked x l) q)

-- An entry that is written and stands in no list.
pub write-other : (s : Pool) (e f : ℕ) (w : Entry) → f ≢ e → write s.mem e w f ≡ s.mem f
write-other s e f w ne = let t : (e == f) ≡ false = ground (arith, ne) in rw t refl

pub Linked-Placed : (live : List ℕ) (s : Pool) (e : ℕ) → Linked live s → Placed s e
Linked-Placed live s e l = record {
  in_one = elim (Bool-cases (is_sanctuary (s.mem e).pool_type)) [
    | inl t ↦ rw t (not_linked e s.probation_list (λ h. cc (t, (l.in_probation e h).1)))
    | inr t ↦ rw t (not_linked e s.sieve.sieve_list (λ h. cc (t, (l.in_sieve e h).1)))
  ];
  no_probation = l.no_probation;
  probation_distinct = l.probation_distinct;
  sieve_distinct = l.sieve_distinct;
}

-- The released entry is no longer among those in use.
pub release-Linked :
    (live live' : List ℕ) (s : Pool) (e : ℕ)
    → Linked live s
    → ((f : ℕ) → f ≢ e → is_linked f live ≡ true → is_linked f live' ≡ true)
    → Linked live' (release s (some e))
unfolding Unlinked
release-Linked live live' s e l keeps =
    let s' = release s (some e) in
    let (out_prob, out_sieve) = release-Unlinked s e (Linked-Placed live s e l) in
    let other : (f : ℕ) → InList s' f → f ≢ e = λ f h. elim h [
      | inl a ↦ apart e f s'.probation_list out_prob a
      | inr a ↦ apart e f s'.sieve.sieve_list out_sieve a
    ] in
    Shrinks-Linked live live' s s' l (release-Shrinks s e) (λ f h. keeps f (other f h))
      (λ f h.
        ap (λ m. is_sanctuary (m f).pool_type) (release-mem s e)
        ∙ ap (λ w. is_sanctuary w.pool_type) (write-other s e f new_entry (other f h)))

is_linked-snoc :
    (f e : ℕ) (l : List ℕ) → is_linked f (l ++ e ∷ []) ≡ true → (is_linked f l ≡ true) ⊎ (f ≡ e)
unfolding is_linked
is_linked-snoc f e [] h = inr (ground (arith, h))
is_linked-snoc f e (y ∷ l) h = elim (Bool-cases (y == f)) [
  | inl t ↦ inl (rw (is_linked, t) refl)
  | inr t ↦ elim (is_linked-snoc f e l (ground (arith, h, t))) [
    | inl a ↦ inl (rw (is_linked, a) (ground arith))
    | inr q ↦ inr q
  ]
]

-- An entry that stands in neither list comes to be in use, at the end of one of them.
module _ (live live' : List ℕ) (s : Pool) (e : ℕ) (l : Linked live s)
    (lp : Lacks e s.probation_list) (ls : Lacks e s.sieve.sieve_list)
    (more : (f : ℕ) → is_linked f live ≡ true → is_linked f live' ≡ true)
    (used : is_linked e live' ≡ true) where
  pub insert_sieve-Linked : Linked live' (insert_sieve s e)
  unfolding on_insert
  insert_sieve-Linked =
      let w = record (s.mem e) { visited = true; pool_type = sanctuary } in
      rw (is_linked_of_Lacks e s.sieve.sieve_list ls) (record {
        in_probation = λ f h.
            let (a, t) = l.in_probation f h in
            let ne = apart e f s.probation_list lp h in
            (more f a, ap (λ x. is_sanctuary x.pool_type) (write-other s e f w ne) ∙ t);
        in_sieve = λ f h. elim (is_linked-snoc f e s.sieve.sieve_list h) [
          | inl b ↦
              let (a, t) = l.in_sieve f b in
              let ne = apart e f s.sieve.sieve_list ls b in
              (more f a, ap (λ x. is_sanctuary x.pool_type) (write-other s e f w ne) ∙ t)
          | inr q ↦ rw q (used, rw (==_refl e) refl)
        ];
        probation_distinct = l.probation_distinct;
        sieve_distinct = Distinct-snoc s.sieve.sieve_list e ls l.sieve_distinct;
        no_probation = l.no_probation;
      })

  pub append_probation-Linked :
      (w : Entry) (s' : Pool)
      → is_sanctuary w.pool_type ≡ false
      → (leb s.prob_pool_max_size 0) ≡ false
      → s'.mem ≡ write s.mem e w
      → s'.probation_list ≡ s.probation_list ++ e ∷ []
      → s'.sieve ≡ s.sieve
      → s'.prob_pool_max_size ≡ s.prob_pool_max_size
      → Linked live' s'
  append_probation-Linked w s' type max em ep es ex = record {
    in_probation = λ f h.
        rw em (elim (is_linked-snoc f e s.probation_list (subst (λ q. is_linked f q ≡ true) ep h)) [
          | inl b ↦
              let (a, t) = l.in_probation f b in
              let ne = apart e f s.probation_list lp b in
              (more f a, ap (λ x. is_sanctuary x.pool_type) (write-other s e f w ne) ∙ t)
          | inr q ↦ rw q (used, rw (==_refl e) type)
        ]);
    in_sieve = λ f h.
        let b = subst (λ q. is_linked f q.sieve_list ≡ true) es h in
        let (a, t) = l.in_sieve f b in
        let ne = apart e f s.sieve.sieve_list ls b in
        rw em (more f a, ap (λ x. is_sanctuary x.pool_type) (write-other s e f w ne) ∙ t);
    probation_distinct =
        subst Distinct (sym ep) (Distinct-snoc s.probation_list e lp l.probation_distinct);
    sieve_distinct = subst (λ q. Distinct q.sieve_list) (sym es) l.sieve_distinct;
    no_probation = λ z. absurd (ground (arith, z, ex, max));
  }

-- Nothing but types, lists and the size of the probation pool matters.
pub same-Linked :
    (live : List ℕ) (s s' : Pool)
    → Linked live s
    → s'.probation_list ≡ s.probation_list
    → s'.sieve.sieve_list ≡ s.sieve.sieve_list
    → s'.prob_pool_max_size ≡ s.prob_pool_max_size
    → ((f : ℕ) → InList s f → (s'.mem f).pool_type ≡ (s.mem f).pool_type)
    → Linked live s'
same-Linked live s s' l p v m same =
    Shrinks-Linked live live s s' l
      (record {
        probation = subst (Part s.probation_list) (sym p) (Part-refl s.probation_list);
        sieve = subst (Part s.sieve.sieve_list) (sym v) (Part-refl s.sieve.sieve_list);
        same_max = m;
      })
      (λ f h a. a)
      (λ f h. ap is_sanctuary (
        same f (elim h [
          | inl a ↦ inl (subst (λ q. is_linked f q ≡ true) p a)
          | inr a ↦ inr (subst (λ q. is_linked f q ≡ true) v a)
        ])))

-- A promotion moves the entry from the one list to the other.
pub promote_to_sanctuary-Linked :
    (live : List ℕ) (s : Pool) (e : ℕ)
    → Linked live s
    → is_linked e live ≡ true
    → Linked live (promote_to_sanctuary s e)
unfolding promote_to_sanctuary
promote_to_sanctuary-Linked live s e l used = elim (Bool-cases (is_sanctuary (s.mem e).pool_type)) [
  | inl t ↦ rw t l
  | inr t ↦
      let r = remove_from_probation s e in
      let (m, p, n, v) = remove_from_probation-mem s e in
      let lr : Linked live r =
        Shrinks-Linked live live s r l (remove_from_probation-Shrinks s e) (λ f h a. a)
          (λ f h. ap (λ q. is_sanctuary (q f).pool_type) m) in
      let lp = remove_from_probation-Lacks s e l.probation_distinct in
      let ls : Lacks e s.sieve.sieve_list =
        not_linked e s.sieve.sieve_list (λ h. cc (t, (l.in_sieve e h).1)) in
      let i =
        insert_sieve-Linked live live r e lr lp (subst (λ q. Lacks e q.sieve_list) (sym v) ls)
          (λ f a. a) used in
      rw t (same-Linked live (insert_sieve r e) _ i refl refl refl (λ f h. refl))
]
