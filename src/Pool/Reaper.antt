-- ===== src/Pool/Reaper.antt =====
-- The reaper of src/pool/object_pool.cc against a description that does not follow the hand.
use shunya_kv.Prelude.{
  ℕ, zero, suc, ◌+◌, ◌-◌, ◌%◌, ◌^◌, ◌≤◌, ◌<◌, min, ◌≡◌, ◌≢◌, refl, ap, ◌∙◌, false, List, [], ◌∷◌,
  ◌++◌, append-nil, append_assoc, length, length-take, take, drop, arith, ==_refl,
}
use shunya_kv.Prelude.Bytes.{Bytes}
use shunya_kv.Prelude.Links.{front, next, erase}
use shunya_kv.Ttl.{Memory}
use shunya_kv.Eviction.{is_empty}
use shunya_kv.Eviction.Sweep.{keys_of}
use shunya_kv.Pool.{Pool, reap, dec64, no_keys, run_sequential_reaper}

-- A pool with the probation list `l`, the hand at its front, and a count of its entries.
abbrev pub reaped : Pool → List ℕ → ℕ → Pool
reaped s l c = record s { probation_list = l; prob_count = c; probation_hand = front l }

erase_front : (x : ℕ) (l : List ℕ) → erase x (x ∷ l) ≡ l
unfolding erase
erase_front x l = rw (==_refl x)

next-front : (x : ℕ) (l : List ℕ) → next x (x ∷ l) ≡ front l
unfolding next
next-front x l = rw (==_refl x)

reap_round :
    (s : Pool) (x : ℕ) (l : List ℕ) (c n : ℕ) (v : List Bytes)
    → reap (suc n) (reaped s (x ∷ l) c) v ≡ reap n (reaped s l (dec64 c)) (v ++ (s.mem x).key ∷ [])
unfolding reap
reap_round s x [] c n v = rw (erase_front x [], reap)
reap_round s x (y ∷ l) c n v = rw (erase_front x (y ∷ l), next-front x (y ∷ l), reap)

reap_end : (s : Pool) (c n : ℕ) (v : List Bytes) → reap n (reaped s [] c) v ≡ (reaped s [] c, v)
unfolding reap
reap_end s c zero v = refl
reap_end s c (suc n) v = refl

reap_lem :
    (s : Pool) (n : ℕ) (l : List ℕ) (c : ℕ) (v : List Bytes)
    → length l ≤ c
    → reap n (reaped s l c) v
      ≡ (reaped s (drop n l) (c - min n (length l)), v ++ keys_of s.mem (take n l))
unfolding keys_of
reap_lem s zero l c v h =
    let e : c - min 0 (length l) ≡ c = omega arith in rw (e, append-nil v) (unfold reap in refl)
reap_lem s (suc n) [] c v h =
    let e : c - min (suc n) 0 ≡ c = omega arith in rw (e, append-nil v) (reap_end s c (suc n) v)
reap_lem s (suc n) (x ∷ l) c v h =
    let e : dec64 c ≡ c - 1 = ground (arith, h) in
    let room : length l ≤ c - 1 = omega arith in
    let f : c - 1 - min n (length l) ≡ c - min (suc n) (suc (length l)) = omega arith in
    reap_round s x l c n v
    ∙ ap (λ d. reap n (reaped s l d) (v ++ (s.mem x).key ∷ [])) e
    ∙ reap_lem s n l (c - 1) (v ++ (s.mem x).key ∷ []) room
    ∙ cc (f, append_assoc v ((s.mem x).key ∷ []) (keys_of s.mem (take n l)))

length-map : (mem : Memory) (l : List ℕ) → length (keys_of mem l) ≡ length l
unfolding keys_of
length-map mem [] = refl
length-map mem (x ∷ l) = ap suc (length-map mem l)

is_empty_of : (l : List ℕ) → l ≢ [] → is_empty l ≡ false
is_empty_of [] ne = absurd (ne refl)
is_empty_of (x ∷ l) ne = refl

no_keys-take :
    (mem : Memory) (n : ℕ) (l : List ℕ) → 0 < n → l ≢ [] → no_keys (keys_of mem (take n l)) ≡ false
unfolding keys_of
no_keys-take mem zero l h ne = absurd (omega arith)
no_keys-take mem (suc n) [] h ne = absurd (ne refl)
no_keys-take mem (suc n) (x ∷ l) h ne = refl

module _ {M : Type 0} (on_sequential_evict : M → Pool → List Bytes → M × Pool) where
  -- The pool after a run over the first `n` entries of its probation list.
  abbrev pub after_reaper : Pool → ℕ → Pool
  after_reaper s n =
      let gone = min n (length s.probation_list) in
      record (reaped s (drop n s.probation_list) (s.prob_count - gone)) {
        prob_eviction_count = (s.prob_eviction_count + gone) % 2 ^ 64;
      }

  -- A run of the reaper with a budget, where the count covers the probation list and the list is not
  -- empty. The callback gets the keys of the entries that have been longest in the list, in order, as
  -- many as the budget allows. They have left the list and the count, the evictions are counted, and
  -- the hand is at the front of what remains.
  pub run_sequential_reaper_lem :
      (m : M) (s : Pool)
      → length s.probation_list ≤ s.prob_count
      → 0 < s.reaper_budget
      → s.probation_list ≢ []
      → run_sequential_reaper on_sequential_evict m s
        ≡ on_sequential_evict m
            (after_reaper s s.reaper_budget)
            (keys_of s.mem (take s.reaper_budget s.probation_list))
  unfolding run_sequential_reaper
  run_sequential_reaper_lem m s h b ne =
      let l = s.probation_list in
      let e = reap_lem s s.reaper_budget l s.prob_count [] h in
      let filled = is_empty_of l ne in
      let some_keys = no_keys-take s.mem s.reaper_budget l b ne in
      let count : length (keys_of s.mem (take s.reaper_budget l)) ≡ min s.reaper_budget (length l) =
        length-map s.mem (take s.reaper_budget l) ∙ length-take s.reaper_budget l in
      rw (filled, e, some_keys, count) refl
