-- ===== src/Pool/Shrink.antt =====
-- The calls of src/pool/object_pool.cc that take entries out of the probation list and of the sieve's
-- list, and put none in.
use shunya_kv.Prelude.{
  ℕ, zero, suc, ◌≡◌, inl, inr, refl, sym, subst, ◌∙◌, some, List, length, Bool-cases, Option-cases,
  ltb, leb,
}
use shunya_kv.Prelude.Bytes.{Bytes}
use shunya_kv.Prelude.Links.{Part, Part-refl, Part-trans, Part-erase, is_linked}
use shunya_kv.Ttl.{is_sanctuary}
use shunya_kv.Eviction.{SievePolicy, is_empty, on_erase}
use shunya_kv.Pool.{Pool, reap, remove_from_probation, release, leave_sanctuary, put_back, clear}

pub record Shrinks (s s' : Pool) : Type 0 where
  pub probation : Part s.probation_list s'.probation_list
  pub sieve : Part s.sieve.sieve_list s'.sieve.sieve_list
  pub same_max : s'.prob_pool_max_size ≡ s.prob_pool_max_size

pub Shrinks-refl : (s : Pool) → Shrinks s s
Shrinks-refl s = record {
  probation = Part-refl s.probation_list;
  sieve = Part-refl s.sieve.sieve_list;
  same_max = refl;
}

pub Shrinks-trans : (a b c : Pool) → Shrinks a b → Shrinks b c → Shrinks a c
Shrinks-trans a b c p q = record {
  probation = Part-trans a.probation_list b.probation_list c.probation_list p.probation q.probation;
  sieve = Part-trans a.sieve.sieve_list b.sieve.sieve_list c.sieve.sieve_list p.sieve q.sieve;
  same_max = q.same_max ∙ p.same_max;
}

pub remove_from_probation-Shrinks : (s : Pool) (e : ℕ) → Shrinks s (remove_from_probation s e)
unfolding remove_from_probation
remove_from_probation-Shrinks s e = elim (Bool-cases (is_linked e s.probation_list)) [
  | inl h ↦ rw h (record {
    probation = Part-erase e s.probation_list;
    sieve = Part-refl s.sieve.sieve_list;
    same_max = refl;
  })
  | inr h ↦ rw h (Shrinks-refl s)
]

pub Part-on_erase : (s : SievePolicy) (e : ℕ) → Part s.sieve_list (on_erase s e).sieve_list
unfolding on_erase
Part-on_erase s e = elim (Bool-cases (is_linked e s.sieve_list)) [
  | inl h ↦ rw h (Part-erase e s.sieve_list)
  | inr h ↦ rw h (Part-refl s.sieve_list)
]

put_back-Shrinks : (s t : Pool) (e : ℕ) → Shrinks s t → Shrinks s (put_back t e)
put_back-Shrinks s t e p = elim (Bool-cases (ltb (length t.pool) t.max_size)) [
  | inl h ↦ rw h (record { probation = p.probation; sieve = p.sieve; same_max = p.same_max })
  | inr h ↦ rw h p
]

pub release-Shrinks : (s : Pool) (e : ℕ) → Shrinks s (release s (some e))
unfolding release
release-Shrinks s e = elim (Bool-cases (leb s.prob_pool_max_size 0)) [
  | inl z ↦ rw z (
      put_back-Shrinks s (leave_sanctuary (clear s e) e) e (record {
        probation = Part-refl s.probation_list;
        sieve = Part-on_erase s.sieve e;
        same_max = refl;
      }))
  | inr z ↦ rw z (elim (Bool-cases (is_sanctuary (s.mem e).pool_type)) [
    | inl t ↦ rw t (
        put_back-Shrinks s (clear (leave_sanctuary s e) e) e (record {
          probation = Part-refl s.probation_list;
          sieve = Part-on_erase s.sieve e;
          same_max = refl;
        }))
    | inr t ↦
        let r = remove_from_probation-Shrinks s e in
        rw t (
          put_back-Shrinks s (clear (remove_from_probation s e) e) e
            (record { probation = r.probation; sieve = r.sieve; same_max = r.same_max }))
  ])
]

reap-Part :
    (n : ℕ) (s : Pool) (v : List Bytes)
    → Part s.probation_list (reap n s v).0.probation_list
      × ((reap n s v).0.sieve ≡ s.sieve)
      × ((reap n s v).0.prob_pool_max_size ≡ s.prob_pool_max_size)
      × ((reap n s v).0.mem ≡ s.mem)
unfolding reap
reap-Part zero s v = (Part-refl s.probation_list, refl, refl, refl)
reap-Part (suc n) s v = elim (Option-cases s.probation_hand) [
  | inl e ↦ rw e (Part-refl s.probation_list, refl, refl, refl)
  | inr (h, e) ↦ rw e (elim (Bool-cases (is_empty s.probation_list)) [
    | inl f ↦ rw f (Part-refl s.probation_list, refl, refl, refl)
    | inr f ↦ rw f (
        let (p, v', m, y) = reap-Part n _ _ in
        (Part-trans s.probation_list _ _ (Part-erase h s.probation_list) p, v', m, y))
  ])
]

pub reap-Shrinks : (n : ℕ) (s : Pool) (v : List Bytes) → Shrinks s (reap n s v).0
reap-Shrinks n s v =
    let (p, same, m, y) = reap-Part n s v in
    record {
      probation = p;
      sieve =
          subst (λ q. Part s.sieve.sieve_list q.sieve_list) (sym same)
            (Part-refl s.sieve.sieve_list);
      same_max = m;
    }

pub reap-mem : (n : ℕ) (s : Pool) (v : List Bytes) → (reap n s v).0.mem ≡ s.mem
reap-mem n s v = (reap-Part n s v).3
