-- ===== src/Eviction/Victims.antt =====
-- What a call of `evict` takes, what it spares, and what it leaves.
use mathlib.Core.List.{Perm, perm_middle}
use mathlib.Core.List.Perm
use shunya_kv.Prelude.{
  ℕ, zero, suc, ◌≤◌, ◌<◌, ◌≡◌, refl, sym, ap, ◌∙◌, subst, true, false, none, List, [], ◌∷◌, ◌++◌,
  append-nil, append_assoc, length, length-append, arith, All, inl, inr, Bool-cases,
}
use shunya_kv.Prelude.Bytes.{Bytes}
use shunya_kv.Prelude.Links.{front, Lacks, Lacks-append, Lacks-of_append, Distinct}
use shunya_kv.Ttl.{Memory}
use shunya_kv.Eviction.{SievePolicy, sweep, is_victim, settle, evict, sweep_start, is_empty}
use shunya_kv.Eviction.Sweep.{
  Sorted, sort_out, Swept, sweep_lem, unvisit_all, keys_of, nil_of_append,
}
use shunya_kv.Eviction.Invariant.{IsValid, settled-IsValid}

module _ (mem : Memory) (now : ℕ) where
  -- Each entry from the hand on is a victim, spared or not reached; at most `k` are victims, and if
  -- fewer are, then the hand has reached the end.
  pub record IsSortedOut (k : ℕ) (l : List ℕ) (r : Sorted) : Type 0 where
    pub same : Perm l (r.gone ++ (r.spared ++ r.rest))
    pub gone_victims : All (λ x. is_victim now (mem x) ≡ true) r.gone
    pub spared_not : All (λ x. is_victim now (mem x) ≡ false) r.spared
    pub bounded : length r.gone ≤ k
    pub reaches_end : length r.gone < k → r.rest ≡ []

  pub sort_out-IsSortedOut : (k : ℕ) (l : List ℕ) → IsSortedOut k l (sort_out mem now k l)
  unfolding sort_out
  sort_out-IsSortedOut k [] = record {
    same = Perm.nil;
    gone_victims = tt;
    spared_not = tt;
    bounded = omega arith;
    reaches_end = λ h. refl;
  }
  sort_out-IsSortedOut zero (x ∷ l) = record {
    same = Perm.rfl;
    gone_victims = tt;
    spared_not = tt;
    bounded = omega arith;
    reaches_end = λ h. absurd (omega arith);
  }
  sort_out-IsSortedOut (suc k) (x ∷ l) = elim (Bool-cases (is_victim now (mem x))) [
    | inl v ↦
        let r = sort_out-IsSortedOut k l in
        rw v (record {
          same = Perm.cons x r.same;
          gone_victims = (v, r.gone_victims);
          spared_not = r.spared_not;
          bounded = omega (arith, r.bounded);
          reaches_end = λ h. r.reaches_end (omega arith);
        })
    | inr v ↦
        let r = sort_out-IsSortedOut (suc k) l in
        let m = sort_out mem now (suc k) l in
        rw v (record {
          same =
              Perm.trans (Perm.cons x r.same) (Perm.symm (perm_middle m.gone (m.spared ++ m.rest)));
          gone_victims = r.gone_victims;
          spared_not = (v, r.spared_not);
          bounded = r.bounded;
          reaches_end = r.reaches_end;
        })
  ]

  sort_out-Lacks :
      (z k : ℕ) (l : List ℕ)
      → Lacks z l
      → Lacks z ((sort_out mem now k l).spared ++ (sort_out mem now k l).rest)
  unfolding sort_out
  sort_out-Lacks z k [] h = tt
  sort_out-Lacks z zero (x ∷ l) h = h
  sort_out-Lacks z (suc k) (x ∷ l) h =
      ground (arith, sort_out-Lacks z k l h.1, sort_out-Lacks z (suc k) l h.1, h.0)

  sort_out-Distinct :
      (k : ℕ) (l : List ℕ)
      → Distinct l
      → Distinct ((sort_out mem now k l).spared ++ (sort_out mem now k l).rest)
  unfolding sort_out
  sort_out-Distinct k [] d = tt
  sort_out-Distinct zero (x ∷ l) d = d
  sort_out-Distinct (suc k) (x ∷ l) d = ground (
    arith,
    sort_out-Distinct k l d.1,
    sort_out-Distinct (suc k) l d.1,
    sort_out-Lacks x (suc k) l d.0,
  )

  kept-Distinct :
      (a : List ℕ) (k : ℕ) (l : List ℕ)
      → Distinct (a ++ l)
      → Distinct (a ++ ((sort_out mem now k l).spared ++ (sort_out mem now k l).rest))
  kept-Distinct [] k l d = sort_out-Distinct k l d
  kept-Distinct (x ∷ a) k l d =
      let (here, there) = Lacks-of_append x a l d.0 in
      (Lacks-append x a _ here (sort_out-Lacks x k l there), kept-Distinct a k l d.1)

nil_of_is_empty : (l : List ℕ) → is_empty l ≡ true → l ≡ []
nil_of_is_empty [] e = refl
nil_of_is_empty (x ∷ l) e = cc

settle_rest :
    (s : SievePolicy) (a b : List ℕ)
    → s.sieve_list ≡ a ++ b
    → s.hand ≡ front b
    → (b ≡ [] → a ≡ [])
    → settle s.sieve_list s.hand ≡ front b
settle_rest s a [] cut hand rest =
    let empty : s.sieve_list ≡ [] = cut ∙ append-nil a ∙ rest refl in rw (hand, empty)
settle_rest s a (x ∷ b) cut hand rest = rw hand

-- The outcome of `evict` for the entries `before` the hand and the others, sorted out.
pub record Evicted (mem : Memory) (s : SievePolicy) (before : List ℕ) (r : Sorted)
    (out : Memory × SievePolicy × List Bytes) : Type 0 where
  pub memory : out.0 ≡ unvisit_all mem r.spared
  pub kept : out.1.sieve_list ≡ before ++ (r.spared ++ r.rest)
  pub hand : out.1.hand ≡ settle out.1.sieve_list (front r.rest)
  pub victims : out.2 ≡ keys_of mem r.gone

module _ (mem : Memory) (s : SievePolicy) (now : ℕ) (v : IsValid s) where
  sweep_of_evict :
      Swept
        (sweep_start mem s)
        (sweep s.budget now (length s.sieve_list) (sweep_start mem s))
        v.before
        (sort_out mem now s.budget v.onward)
  unfolding sweep_start
  sweep_of_evict =
      sweep_lem s.budget now v.onward (length s.sieve_list) s.budget v.before (sweep_start mem s)
        (subst Distinct v.cut v.distinct)
        (omega (arith, ap length v.cut, length-append v.before v.onward)) v.cut
        (settle_rest s v.before v.onward v.cut v.at_hand v.at_rest) (omega arith)

  evict_empty :
      (a b : List ℕ)
      → s.sieve_list ≡ []
      → s.hand ≡ front b
      → (a ≡ []) × (b ≡ [])
      → Evicted mem s a (sort_out mem now s.budget b) (mem, s, [])
  unfolding sort_out unvisit_all keys_of
  evict_empty a b e at (na, nb) =
      let none_left : s.hand ≡ none = at ∙ ap front nb in
      let front_none : front s.sieve_list ≡ none = ap front e in
      rw (na, nb)
        (record { memory = refl; kept = e; hand = none_left ∙ sym front_none; victims = refl })

  pub evict_outcome : Evicted mem s v.before (sort_out mem now s.budget v.onward) (evict mem s now)
  unfolding evict sweep_start
  evict_outcome = elim (Bool-cases (is_empty s.sieve_list)) [
    | inl e ↦
        let empty = nil_of_is_empty s.sieve_list e in
        rw e (
          evict_empty v.before v.onward empty v.at_hand
            (nil_of_append v.before v.onward (sym v.cut ∙ empty)))
    | inr e ↦
        let w = sweep_of_evict in
        rw e (record { memory = w.memory; kept = w.kept; hand = w.hand; victims = w.victims })
  ]

  -- What one call of `evict` does, from a consistent state. The entries from the hand on are sorted out
  -- without following it: `gone` were taken, `spared` were passed by and `rest` were not reached. Each
  -- taken entry is expired or unvisited, each spared one is neither; at most the budget is taken, and
  -- if less is, then the hand has reached the end of the list. The keys of the taken entries are
  -- returned in order; the spared entries lose their visited mark, and no other entry changes. The
  -- list keeps the entries before the hand, the spared and the rest, in order. The hand is at the
  -- first entry of the rest, or where there is none at the front of the list.
  pub evict-Evicted :
      Evicted mem s v.before (sort_out mem now s.budget v.onward) (evict mem s now)
      × IsSortedOut mem now s.budget v.onward (sort_out mem now s.budget v.onward)
  evict-Evicted = (evict_outcome, sort_out-IsSortedOut mem now s.budget v.onward)

  -- A call of `evict` keeps the list and the hand consistent.
  pub evict-IsValid : IsValid (evict mem s now).1
  evict-IsValid =
      let w = evict_outcome in
      let r = sort_out mem now s.budget v.onward in
      settled-IsValid (evict mem s now).1 (v.before ++ r.spared) r.rest
        (subst Distinct (sym w.kept)
          (kept-Distinct mem now v.before s.budget v.onward (subst Distinct v.cut v.distinct)))
        (w.kept ∙ sym (append_assoc v.before r.spared r.rest)) w.hand
