-- ===== src/Store/Landed.antt =====
-- What becomes of an entry that was taken from the pool: src/kv_store.cc puts it in the map or gives
-- it back to the pool.
use shunya_kv.Prelude.{
  ℕ, ◌≡◌, ◌⊎◌, refl, sym, ap, subst, ◌∙◌, [], ◌∷◌, ◌++◌, append_assoc, arith, Bool-cases, inl, inr,
}
use shunya_kv.Prelude.Links.{Lacks-of_append, Distinct, is_linked}
use shunya_kv.Ttl.{is_sanctuary}
use shunya_kv.Eviction.{on_insert}
use shunya_kv.Pool.{Pool, promote_to_sanctuary, remove_from_probation, insert_sieve}
use shunya_kv.Pool.Release.{remove_from_probation-mem}
use shunya_kv.Store.{Shelf}
use shunya_kv.Store.Ownership.{entries, Below, IsOwned, Distinct-insert, Below-insert}
use shunya_kv.Store.Taken.{IsTaken}

insert_sieve-fields :
    (s : Pool) (q e : ℕ)
    → (((insert_sieve s q).mem e).value ≡ (s.mem e).value)
      × (((insert_sieve s q).mem e).expires_at ≡ (s.mem e).expires_at)
unfolding on_insert
insert_sieve-fields s q e = elim (Bool-cases (is_linked q s.sieve.sieve_list)) [
  | inl t ↦ rw t (refl, refl)
  | inr t ↦ rw t (ground arith, ground arith)
]

-- A promotion changes neither an entry's value nor its time, nor the pool.
pub promote_to_sanctuary-fields :
    (s : Pool) (q e : ℕ)
    → (((promote_to_sanctuary s q).mem e).value ≡ (s.mem e).value)
      × (((promote_to_sanctuary s q).mem e).expires_at ≡ (s.mem e).expires_at)
unfolding promote_to_sanctuary
promote_to_sanctuary-fields s q e = elim (Bool-cases (is_sanctuary (s.mem q).pool_type)) [
  | inl t ↦ rw t (refl, refl)
  | inr t ↦
      let (m, p, n, v) = remove_from_probation-mem s q in
      let (f, g) = insert_sieve-fields (remove_from_probation s q) q e in
      rw t (f ∙ ap (λ mem. (mem e).value) m, g ∙ ap (λ mem. (mem e).expires_at) m)
]

pub promote_to_sanctuary-pool :
    (s : Pool) (q : ℕ)
    → ((promote_to_sanctuary s q).pool ≡ s.pool)
      × ((promote_to_sanctuary s q).next_entry ≡ s.next_entry)
unfolding promote_to_sanctuary
promote_to_sanctuary-pool s q = elim (Bool-cases (is_sanctuary (s.mem q).pool_type)) [
  | inl t ↦ rw t (refl, refl)
  | inr t ↦ let (m, p, n, v) = remove_from_probation-mem s q in rw t (p, n)
]

-- A taken entry comes to stand in the map, or at the back of the pool, or is let go.
pub mapped-IsOwned :
    (sh sh' : Shelf) (s s' : Pool) (e : ℕ)
    → IsTaken sh s e
    → s'.pool ≡ s.pool
    → s'.next_entry ≡ s.next_entry
    → entries sh'.map ≡ e ∷ entries sh.map
    → IsOwned [] sh' s'
mapped-IsOwned sh sh' s s' e o p n m =
    let (lp, lm) = Lacks-of_append e s.pool (entries sh.map) o.distinct.0 in
    let d = Distinct-insert s.pool e (entries sh.map) lp lm o.distinct.1 in
    let b = Below-insert s.next_entry s.pool e (entries sh.map) o.below.0 o.below.1 in
    record {
      distinct =
          subst (λ q. Distinct (q ++ entries sh'.map)) (sym p)
            (subst (λ l. Distinct (s.pool ++ l)) (sym m) d);
      below =
          subst (λ k. Below k (s'.pool ++ entries sh'.map)) (sym n)
            (subst (λ q. Below s.next_entry (q ++ entries sh'.map)) (sym p)
              (subst (λ l. Below s.next_entry (s.pool ++ l)) (sym m) b));
    }

pub returned-IsOwned :
    (sh : Shelf) (s s' : Pool) (e : ℕ)
    → IsTaken sh s e
    → ((s'.pool ≡ s.pool ++ e ∷ []) ⊎ (s'.pool ≡ s.pool))
    → s'.next_entry ≡ s.next_entry
    → IsOwned [] sh s'
returned-IsOwned sh s s' e o (inr p) n = record {
  distinct = subst (λ q. Distinct (q ++ entries sh.map)) (sym p) o.distinct.1;
  below =
      subst (λ k. Below k (s'.pool ++ entries sh.map)) (sym n)
        (subst (λ q. Below s.next_entry (q ++ entries sh.map)) (sym p) o.below.1);
}
returned-IsOwned sh s s' e o (inl p) n =
    let (lp, lm) = Lacks-of_append e s.pool (entries sh.map) o.distinct.0 in
    let d = Distinct-insert s.pool e (entries sh.map) lp lm o.distinct.1 in
    let b = Below-insert s.next_entry s.pool e (entries sh.map) o.below.0 o.below.1 in
    let q : s.pool ++ e ∷ entries sh.map ≡ s'.pool ++ entries sh.map =
      sym (ap (λ z. z ++ entries sh.map) p ∙ append_assoc s.pool (e ∷ []) (entries sh.map)) in
    record {
      distinct = subst Distinct q d;
      below =
          subst (λ k. Below k (s'.pool ++ entries sh.map)) (sym n) (subst (Below s.next_entry) q b);
    }
