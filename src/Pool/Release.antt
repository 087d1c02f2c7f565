-- ===== src/Pool/Release.antt =====
-- What the calls of src/pool/object_pool.cc do to the memory and the pool of an entry.
use shunya_kv.Prelude.{
  ℕ, zero, suc, ◌≡◌, ◌⊎◌, refl, sym, ap, subst, ◌∙◌, true, some, List, [], ◌∷◌, ◌++◌, length, arith,
  Bool-cases, Option-cases, inl, inr, if◌then◌else◌, ltb, leb,
}
use shunya_kv.Prelude.Bytes.{Bytes}
use shunya_kv.Prelude.Links.{
  is_linked, Lacks, Lacks-of_is_linked, Lacks-append, Distinct, Distinct-middle, split_at, erase,
  erase_middle,
}
use shunya_kv.Ttl.{is_sanctuary, write}
use shunya_kv.Eviction.{SievePolicy, is_empty, on_erase}
use shunya_kv.Pool.{
  Pool, new_entry, reap, remove_from_probation, release, leave_sanctuary, put_back, clear,
}

pub remove_from_probation-mem :
    (s : Pool) (e : ℕ)
    → ((remove_from_probation s e).mem ≡ s.mem)
      × ((remove_from_probation s e).pool ≡ s.pool)
      × ((remove_from_probation s e).next_entry ≡ s.next_entry)
      × ((remove_from_probation s e).sieve ≡ s.sieve)
unfolding remove_from_probation
remove_from_probation-mem s e = elim (Bool-cases (is_linked e s.probation_list)) [
  | inl h ↦ rw h (refl, refl, refl, refl)
  | inr h ↦ rw h (refl, refl, refl, refl)
]

put_back-mem : (s : Pool) (e : ℕ) → (put_back s e).mem ≡ s.mem
put_back-mem s e = elim (Bool-cases (ltb (length s.pool) s.max_size)) [
  | inl h ↦ rw h refl
  | inr h ↦ rw h refl
]

-- A released entry is as good as new.
pub release-mem : (s : Pool) (e : ℕ) → (release s (some e)).mem ≡ write s.mem e new_entry
unfolding release
release-mem s e = elim (Bool-cases (leb s.prob_pool_max_size 0)) [
  | inl z ↦ rw z (put_back-mem (leave_sanctuary (clear s e) e) e)
  | inr z ↦ rw z (elim (Bool-cases (is_sanctuary (s.mem e).pool_type)) [
    | inl t ↦ rw t (put_back-mem (clear (leave_sanctuary s e) e) e)
    | inr t ↦
        let (m, p, n, v) = remove_from_probation-mem s e in
        rw t (
          put_back-mem (clear (remove_from_probation s e) e) e
          ∙ ap (λ mem. write mem e new_entry) m)
  ])
]

put_back-pool :
    (s : Pool) (e : ℕ) (l : List ℕ)
    → s.pool ≡ l
    → ((put_back s e).next_entry ≡ s.next_entry)
      × (((put_back s e).pool ≡ l ++ e ∷ []) ⊎ ((put_back s e).pool ≡ l))
put_back-pool s e l eq = elim (Bool-cases (ltb (length s.pool) s.max_size)) [
  | inl h ↦ rw h (refl, inl (ap (λ p. p ++ e ∷ []) eq))
  | inr h ↦ rw h (refl, inr eq)
]

-- The entry goes to the back of the pool, or the pool is full and stays as it is.
pub release-pool :
    (s : Pool) (e : ℕ)
    → ((release s (some e)).next_entry ≡ s.next_entry)
      × (((release s (some e)).pool ≡ s.pool ++ e ∷ []) ⊎ ((release s (some e)).pool ≡ s.pool))
unfolding release
release-pool s e = elim (Bool-cases (leb s.prob_pool_max_size 0)) [
  | inl z ↦ rw z (put_back-pool (leave_sanctuary (clear s e) e) e s.pool refl)
  | inr z ↦ rw z (elim (Bool-cases (is_sanctuary (s.mem e).pool_type)) [
    | inl t ↦ rw t (put_back-pool (clear (leave_sanctuary s e) e) e s.pool refl)
    | inr t ↦
        let (m, p, n, v) = remove_from_probation-mem s e in
        let (next, back) = put_back-pool (clear (remove_from_probation s e) e) e s.pool p in
        rw t (next ∙ n, back)
  ])
]

pub reap-pool :
    (n : ℕ) (s : Pool) (v : List Bytes)
    → ((reap n s v).0.pool ≡ s.pool) × ((reap n s v).0.next_entry ≡ s.next_entry)
unfolding reap
reap-pool zero s v = (refl, refl)
reap-pool (suc n) s v = elim (Option-cases s.probation_hand) [
  | inl e ↦ rw e (refl, refl)
  | inr (h, e) ↦ rw e (elim (Bool-cases (is_empty s.probation_list)) [
    | inl f ↦ rw f (refl, refl)
    | inr f ↦ rw f (reap-pool n _ _)
  ])
]

-- Which list an entry may stand in is told by its type; without probationary slots no entry stands in
-- the probation list.
pub record Placed (s : Pool) (e : ℕ) : Type 0 where
  pub in_one :
      if is_sanctuary (s.mem e).pool_type
      then Lacks e s.probation_list
      else Lacks e s.sieve.sieve_list
  pub no_probation : s.prob_pool_max_size ≡ 0 → s.probation_list ≡ []
  pub probation_distinct : Distinct s.probation_list
  pub sieve_distinct : Distinct s.sieve.sieve_list

Lacks-erased : (e : ℕ) (l : List ℕ) → Distinct l → is_linked e l ≡ true → Lacks e (erase e l)
Lacks-erased e l d h =
    let (a, b, cut) = split_at e l h in
    let (la, lb, d') = Distinct-middle a e b (subst Distinct cut d) in
    subst (Lacks e) (sym (ap (erase e) cut ∙ erase_middle e a b la)) (Lacks-append e a b la lb)

on_erase-Lacks :
    (s : SievePolicy) (e : ℕ) → Distinct s.sieve_list → Lacks e (on_erase s e).sieve_list
unfolding on_erase
on_erase-Lacks s e d = elim (Bool-cases (is_linked e s.sieve_list)) [
  | inl h ↦ rw h (Lacks-erased e s.sieve_list d h)
  | inr h ↦ rw h (Lacks-of_is_linked e s.sieve_list h)
]

pub remove_from_probation-Lacks :
    (s : Pool) (e : ℕ)
    → Distinct s.probation_list
    → Lacks e (remove_from_probation s e).probation_list
unfolding remove_from_probation
remove_from_probation-Lacks s e d = elim (Bool-cases (is_linked e s.probation_list)) [
  | inl h ↦ rw h (Lacks-erased e s.probation_list d h)
  | inr h ↦ rw h (Lacks-of_is_linked e s.probation_list h)
]

unfoldable pub Unlinked : Pool → ℕ → Type 0
Unlinked s e = Lacks e s.probation_list × Lacks e s.sieve.sieve_list

put_back-Unlinked : (s : Pool) (e : ℕ) → Unlinked s e → Unlinked (put_back s e) e
unfolding Unlinked
put_back-Unlinked s e u = elim (Bool-cases (ltb (length s.pool) s.max_size)) [
  | inl h ↦ rw h u
  | inr h ↦ rw h u
]

pub release-Unlinked : (s : Pool) (e : ℕ) → Placed s e → Unlinked (release s (some e)) e
unfolding release Unlinked
release-Unlinked s e p = elim (Bool-cases (leb s.prob_pool_max_size 0)) [
  | inl z ↦
      let none_there : s.probation_list ≡ [] = p.no_probation (ground (arith, z)) in
      rw z (
        put_back-Unlinked (leave_sanctuary (clear s e) e) e
          (subst (Lacks e) (sym none_there) tt, on_erase-Lacks s.sieve e p.sieve_distinct))
  | inr z ↦ rw z (elim (Bool-cases (is_sanctuary (s.mem e).pool_type)) [
    | inl t ↦ rw t (
        put_back-Unlinked (clear (leave_sanctuary s e) e) e
          (rw t at p.in_one, on_erase-Lacks s.sieve e p.sieve_distinct))
    | inr t ↦
        let (m, q, n, v) = remove_from_probation-mem s e in
        rw t (
          put_back-Unlinked (clear (remove_from_probation s e) e) e (
            remove_from_probation-Lacks s e p.probation_distinct,
            subst (λ x. Lacks e x.sieve_list) (sym v) (rw t at p.in_one),
          ))
  ])
]

-- A release of an entry that stands in no list but that of its type: in each mode of the pool the
-- entry has its first values again, no other entry changes, it stands in neither list, and it is at
-- the back of the pool or has left it.
pub release_lem :
    (s : Pool) (e : ℕ)
    → Placed s e
    → (let s' = release s (some e) in
        (s'.mem ≡ write s.mem e new_entry)
        × Unlinked s' e
        × ((s'.pool ≡ s.pool ++ e ∷ []) ⊎ (s'.pool ≡ s.pool)))
release_lem s e p = (release-mem s e, release-Unlinked s e p, (release-pool s e).1)
