-- ===== src/Eviction/Subset.antt =====
-- A call of `SievePolicy::evict` only takes entries out of the list, and changes no entry's type.
use shunya_kv.Prelude.{
  ℕ, zero, suc, ◌≡◌, refl, ap, ◌∙◌, false, length, ltb, ◌==◌, Bool-cases, Option-cases, inl, inr,
  arith,
}
use shunya_kv.Prelude.Links.{Part, Part-refl, Part-trans, Part-erase, erase}
use shunya_kv.Ttl.{Memory, Entry, write}
use shunya_kv.Eviction.{
  SievePolicy, SweepState, sweep, sweep_step, take_victim, is_victim, is_empty, evict, sweep_start,
}

-- An entry is written that keeps its type.
pub write-type :
    (mem : Memory) (h f : ℕ) (w : Entry)
    → w.pool_type ≡ (mem h).pool_type
    → (write mem h w f).pool_type ≡ (mem f).pool_type
write-type mem h f w e = elim (Bool-cases (h == f)) [
  | inl t ↦ let q : h ≡ f = ground (arith, t) in rw t (e ∙ ap (λ x. (mem x).pool_type) q)
  | inr t ↦ rw t refl
]

sweep-Part :
    (budget now fuel : ℕ) (s : SweepState)
    → Part s.list (sweep budget now fuel s).list
      × ((f : ℕ) → ((sweep budget now fuel s).mem f).pool_type ≡ (s.mem f).pool_type)
unfolding sweep sweep_step take_victim
sweep-Part budget now zero s = (Part-refl s.list, λ f. refl)
sweep-Part budget now (suc fuel) s = elim (Option-cases s.at) [
  | inl e ↦ rw e (Part-refl s.list, λ f. refl)
  | inr (h, e) ↦ rw e (elim (Bool-cases (ltb s.evicted_count budget)) [
    | inr done ↦ rw (sweep, done) (Part-refl s.list, λ f. refl)
    | inl more ↦
        rw (sweep, more)
          (elim (Bool-cases (is_victim now (s.mem h))) [
            | inl gone ↦
                rw (sweep, gone)
                  (elim (Bool-cases (is_empty (erase h s.list))) [
                    | inl last ↦ rw (sweep, last) (Part-erase h s.list, λ f. refl)
                    | inr left ↦
                        rw (sweep, left)
                          (let (p, t) = sweep-Part budget now fuel _ in
                            (Part-trans s.list _ _ (Part-erase h s.list) p, t))
                  ])
            | inr stays ↦
                rw (sweep, stays)
                  (let (p, t) = sweep-Part budget now fuel _ in
                    (
                      p,
                      λ f. t f ∙ write-type s.mem h f (record (s.mem h) { visited = false }) refl,
                    ))
          ])
  ])
]

pub evict-Part :
    (mem : Memory) (s : SievePolicy) (now : ℕ)
    → Part s.sieve_list (evict mem s now).1.sieve_list
      × ((f : ℕ) → ((evict mem s now).0 f).pool_type ≡ (mem f).pool_type)
unfolding evict sweep_start
evict-Part mem s now = elim (Bool-cases (is_empty s.sieve_list)) [
  | inl t ↦ rw t (Part-refl s.sieve_list, λ f. refl)
  | inr t ↦ rw t (sweep-Part s.budget now (length s.sieve_list) (sweep_start mem s))
]
