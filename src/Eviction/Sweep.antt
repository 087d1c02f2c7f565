-- ===== src/Eviction/Sweep.antt =====
-- What one sweep of `SievePolicy::evict` does, against a description that does not follow the hand.
use shunya_kv.Prelude.{
  ℕ, zero, suc, ◌+◌, ◌≤◌, ◌<◌, ◌≡◌, refl, sym, ap, ◌∙◌, subst, true, false, none, some, List, [],
  ◌∷◌, ◌++◌, map, append-nil, append_assoc, if◌then◌else◌, length, arith, inl, inr, ◌⊎◌, Bool-cases,
}
use shunya_kv.Prelude.Bytes.{Bytes}
use shunya_kv.Prelude.Links.{
  front, next, erase, Lacks, Distinct, Distinct-middle, erase_middle, next_middle,
}
use shunya_kv.Ttl.{Memory, write}
use shunya_kv.Eviction.{SweepState, sweep, sweep_step, halt, on, take_victim, is_victim, settle}

-- The entries from the hand on, sorted out: the first `k` victims, the entries that were passed by
-- on the way, and those that the hand did not reach.
pub record Sorted : Type 0 where
  pub gone : List ℕ
  pub spared : List ℕ
  pub rest : List ℕ

unfoldable pub sort_out : Memory → (now k : ℕ) → List ℕ → Sorted
sort_out mem now k [] = record { gone = []; spared = []; rest = [] }
sort_out mem now zero (x ∷ l) = record { gone = []; spared = []; rest = x ∷ l }
sort_out mem now (suc k) (x ∷ l) =
    let hit = sort_out mem now k l in
    let miss = sort_out mem now (suc k) l in
    if is_victim now (mem x)
    then record hit { gone = x ∷ hit.gone }
    else record miss { spared = x ∷ miss.spared }

abbrev pub unvisit : Memory → ℕ → Memory
unvisit mem x = write mem x (record (mem x) { visited = false })

unfoldable pub unvisit_all : Memory → List ℕ → Memory
unvisit_all mem [] = mem
unvisit_all mem (x ∷ l) = unvisit_all (unvisit mem x) l

sort_out-unvisit :
    (mem : Memory) (x now k : ℕ) (l : List ℕ)
    → Lacks x l
    → sort_out (unvisit mem x) now k l ≡ sort_out mem now k l
unfolding sort_out
sort_out-unvisit mem x now k [] h = refl
sort_out-unvisit mem x now zero (y ∷ l) h = refl
sort_out-unvisit mem x now (suc k) (y ∷ l) h =
    ground
      (arith, h.0, sort_out-unvisit mem x now k l h.1, sort_out-unvisit mem x now (suc k) l h.1)

unfoldable pub keys_of : Memory → List ℕ → List Bytes
keys_of mem = map (λ x. (mem x).key)

keys_of-unvisit : (mem : Memory) (x : ℕ) (l : List ℕ) → keys_of (unvisit mem x) l ≡ keys_of mem l
unfolding keys_of
keys_of-unvisit mem x [] = refl
keys_of-unvisit mem x (y ∷ l) = ground (arith, keys_of-unvisit mem x l)

module _ (budget now : ℕ) where
  sweep-halt :
      (fuel : ℕ) (s s' : SweepState)
      → sweep_step budget now s ≡ halt s'
      → sweep budget now (suc fuel) s ≡ s'
  unfolding sweep
  sweep-halt fuel s s' e = rw (e, sweep)

  sweep-on :
      (fuel : ℕ) (s s' : SweepState)
      → sweep_step budget now s ≡ on s'
      → sweep budget now (suc fuel) s ≡ sweep budget now fuel s'
  unfolding sweep
  sweep-on fuel s s' e = rw (e, sweep)

  step_end : (s : SweepState) → s.at ≡ none → sweep_step budget now s ≡ halt s
  unfolding sweep_step
  step_end s e = ground (arith, e)

  module _ (h : ℕ) (s : SweepState) (at : s.at ≡ some h) where
    step_full : budget ≤ s.evicted_count → sweep_step budget now s ≡ halt s
    unfolding sweep_step
    step_full e = ground (arith, e, at)

    step_spare :
        s.evicted_count < budget
        → is_victim now (s.mem h) ≡ false
        → sweep_step budget now s ≡ on (record s { mem = unvisit s.mem h; at = next h s.list })
    unfolding sweep_step
    step_spare low v = ground (arith, at, low, v)

    step_evict :
        (x : ℕ) (l : List ℕ)
        → s.evicted_count < budget
        → is_victim now (s.mem h) ≡ true
        → erase h s.list ≡ x ∷ l
        → sweep_step budget now s
          ≡ on (record (take_victim s h) { evicted_count = s.evicted_count + 1 })
    unfolding sweep_step take_victim
    step_evict x l low v e = ground (arith, at, low, v, e)

    step_break :
        s.evicted_count < budget
        → is_victim now (s.mem h) ≡ true
        → erase h s.list ≡ []
        → sweep_step budget now s ≡ halt (record (take_victim s h) { at = none })
    unfolding sweep_step take_victim
    step_break low v e = ground (arith, at, low, v, e)

List-cases : (l : List ℕ) → (l ≡ []) ⊎ ((x : ℕ) × (r : List ℕ) × (l ≡ x ∷ r))
List-cases [] = inl refl
List-cases (x ∷ r) = inr (x, r, refl)

pub nil_of_append : (a b : List ℕ) → a ++ b ≡ [] → (a ≡ []) × (b ≡ [])
nil_of_append [] b e = (refl, e)
nil_of_append (x ∷ a) b e = cc

-- How the state `s'` at the end of a sweep follows from the state `s`, the entries `before` the hand
-- and the entries from the hand on, sorted out.
pub record Swept (s s' : SweepState) (before : List ℕ) (r : Sorted) : Type 0 where
  pub memory : s'.mem ≡ unvisit_all s.mem r.spared
  pub kept : s'.list ≡ before ++ (r.spared ++ r.rest)
  pub hand : settle s'.list s'.at ≡ settle s'.list (front r.rest)
  pub victims : s'.victim_list ≡ s.victim_list ++ keys_of s.mem r.gone

module _ (budget now : ℕ) where
  Swept-here :
      (l : List ℕ) (before : List ℕ) (s : SweepState)
      → s.list ≡ before ++ l
      → s.at ≡ front l
      → Swept s s before (record { gone = []; spared = []; rest = l })
  unfolding unvisit_all keys_of
  Swept-here l before s list at = record {
    memory = refl;
    kept = list;
    hand = ap (settle s.list) at;
    victims = sym (append-nil s.victim_list);
  }

  -- The hand passes an entry by.
  Swept-spare :
      (x : ℕ) (before : List ℕ) (s s' : SweepState) (r : Sorted)
      → Swept (record s { mem = unvisit s.mem x; at = next x s.list }) s' (before ++ x ∷ []) r
      → Swept s s' before (record r { spared = x ∷ r.spared })
  unfolding unvisit_all
  Swept-spare x before s s' r w = record {
    memory = w.memory;
    kept = w.kept ∙ append_assoc before (x ∷ []) (r.spared ++ r.rest);
    hand = w.hand;
    victims = w.victims ∙ ap (◌++◌ s.victim_list) (keys_of-unvisit s.mem x r.gone);
  }

  -- The hand takes an entry.
  Swept-evict :
      (x : ℕ) (before : List ℕ) (s s' : SweepState) (r : Sorted)
      → Swept (record (take_victim s x) { evicted_count = s.evicted_count + 1 }) s' before r
      → Swept s s' before (record r { gone = x ∷ r.gone })
  unfolding take_victim keys_of
  Swept-evict x before s s' r w = record {
    memory = w.memory;
    kept = w.kept;
    hand = w.hand;
    victims = w.victims ∙ append_assoc s.victim_list ((s.mem x).key ∷ []) (keys_of s.mem r.gone);
  }

  -- The hand takes the last entry of all.
  Swept-break :
      (x k : ℕ) (l before : List ℕ) (s : SweepState)
      → erase x s.list ≡ []
      → (before ≡ []) × (l ≡ [])
      → (let r = sort_out s.mem now k l in
          Swept s (record (take_victim s x) { at = none }) before (record r { gone = x ∷ r.gone }))
  unfolding unvisit_all keys_of take_victim sort_out
  Swept-break x k l before s e (nb, nl) =
      rw (nl, nb) (record { memory = refl; kept = e; hand = refl; victims = refl })

  pub sweep_lem :
      (l : List ℕ) (fuel k : ℕ) (before : List ℕ) (s : SweepState)
      → Distinct (before ++ l)
      → length l ≤ fuel
      → s.list ≡ before ++ l
      → s.at ≡ front l
      → s.evicted_count + k ≡ budget
      → Swept s (sweep budget now fuel s) before (sort_out s.mem now k l)
  unfolding sort_out take_victim
  sweep_lem [] zero k before s d room list at count = unfold sweep in Swept-here [] before s list at
  sweep_lem [] (suc fuel) k before s d room list at count =
      rw (sweep-halt budget now fuel s s (step_end budget now s at))
        (Swept-here [] before s list at)
  sweep_lem (x ∷ l) zero k before s d room list at count = absurd (omega arith)
  sweep_lem (x ∷ l) (suc fuel) zero before s d room list at count =
      rw (sweep-halt budget now fuel s s (step_full budget now x s at (omega arith)))
        (Swept-here (x ∷ l) before s list at)
  sweep_lem (x ∷ l) (suc fuel) (suc k) before s d room list at count =
      let (lack, lack', d') = Distinct-middle before x l d in
      let erased : erase x s.list ≡ before ++ l =
        ap (erase x) list ∙ erase_middle x before l lack in
      let after : next x s.list ≡ front l = ap (next x) list ∙ next_middle x before l lack in
      let low : s.evicted_count < budget = omega arith in
      elim (Bool-cases (is_victim now (s.mem x))) [
        | inl v ↦ rw v (elim (List-cases (before ++ l)) [
          | inl e ↦
              let none_left = erased ∙ e in
              rw (sweep-halt budget now fuel s _ (step_break budget now x s at low v none_left))
                (Swept-break x k l before s none_left (nil_of_append before l e))
          | inr (y, r, e) ↦
              let s1 = record (take_victim s x) { evicted_count = s.evicted_count + 1 } in
              rw
                (sweep-on budget now fuel s s1
                  (step_evict budget now x s at y r low v (erased ∙ e)))
                (Swept-evict x before s _ _
                  (sweep_lem l fuel k before s1 d' (omega arith) erased after (omega arith)))
        ])
        | inr v ↦
            let s1 = record s { mem = unvisit s.mem x; at = next x s.list } in
            let snoc : (before ++ x ∷ []) ++ l ≡ before ++ x ∷ l = append_assoc before (x ∷ []) l in
            rw (v, sweep-on budget now fuel s s1 (step_spare budget now x s at low v))
              (Swept-spare x before s _ _ (
                subst (Swept s1 (sweep budget now fuel s1) (before ++ x ∷ []))
                  (sort_out-unvisit s.mem x now (suc k) l lack')
                  (sweep_lem l fuel (suc k) (before ++ x ∷ []) s1 (subst Distinct (sym snoc) d)
                    (omega arith) (list ∙ sym snoc) after count)))
      ]
