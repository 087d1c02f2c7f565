-- ===== src/Eviction/Invariant.antt =====
-- The sieve's list and hand stay consistent, and what a call of `evict` does.
use shunya_kv.Prelude.{
  ℕ, ◌≡◌, ◌≢◌, refl, sym, ap, ◌∙◌, subst, true, Option, none, some, List, [], ◌∷◌, ◌++◌, append-nil,
  append_assoc, if◌then◌else◌, ◌==◌, arith, inl, inr, Bool-cases,
}
use shunya_kv.Prelude.Links.{
  is_linked, front, next, erase, Lacks-of_is_linked, Distinct, Distinct-middle, Distinct-snoc,
  Distinct-erase, erase_middle, next_middle, erase_around,
}
use shunya_kv.Ttl.{Memory}
use shunya_kv.Eviction.{SievePolicy, settle, is_end, on_insert, on_erase, hand_off}

-- No entry is linked twice, and the hand is at an entry of the list; it is at the end only where the
-- list is empty.
pub record IsValid (s : SievePolicy) : Type 0 where
  pub distinct : Distinct s.sieve_list
  pub before : List ℕ
  pub onward : List ℕ
  pub cut : s.sieve_list ≡ before ++ onward
  pub at_hand : s.hand ≡ front onward
  pub at_rest : onward ≡ [] → before ≡ []

-- A list and a place to start from: where the place is the end, the front takes its place.
pub settled-IsValid :
    (s : SievePolicy) (a b : List ℕ)
    → Distinct s.sieve_list
    → s.sieve_list ≡ a ++ b
    → s.hand ≡ settle s.sieve_list (front b)
    → IsValid s
settled-IsValid s [] [] d e h = record {
  distinct = d;
  before = [];
  onward = [];
  cut = e;
  at_hand = h ∙ ap front e;
  at_rest = λ n. n;
}
settled-IsValid s (x ∷ a) [] d e h = record {
  distinct = d;
  before = [];
  onward = x ∷ a;
  cut = e ∙ append-nil (x ∷ a);
  at_hand = h ∙ ap front e;
  at_rest = λ n. refl;
}
settled-IsValid s a (x ∷ b) d e h = record {
  distinct = d;
  before = a;
  onward = x ∷ b;
  cut = e;
  at_hand = h;
  at_rest = λ n. cc;
}

insert_hand :
    (s : SievePolicy) (a b : List ℕ) (e : ℕ)
    → s.sieve_list ≡ a ++ b
    → s.hand ≡ front b
    → (b ≡ [] → a ≡ [])
    → (if is_end s.hand then front (s.sieve_list ++ e ∷ []) else s.hand)
      ≡ settle (s.sieve_list ++ e ∷ []) (front (b ++ e ∷ []))
insert_hand s a [] e cut hand rest =
    let empty : s.sieve_list ≡ [] = cut ∙ append-nil a ∙ rest refl in rw (hand, empty)
insert_hand s a (x ∷ b) e cut hand rest = rw hand

-- `on_insert` keeps the list and the hand consistent, whether the entry was linked before or not.
on_insert-IsValid :
    (mem : Memory) (s : SievePolicy) (e : ℕ) → IsValid s → IsValid (on_insert mem s e).1
unfolding on_insert
on_insert-IsValid mem s e v = elim (Bool-cases (is_linked e s.sieve_list)) [
  | inl h ↦ rw h v
  | inr h ↦ rw h (
      settled-IsValid _ v.before (v.onward ++ e ∷ [])
        (Distinct-snoc s.sieve_list e (Lacks-of_is_linked e s.sieve_list h) v.distinct)
        (ap (λ l. l ++ e ∷ []) v.cut ∙ append_assoc v.before v.onward (e ∷ []))
        (insert_hand s v.before v.onward e v.cut v.at_hand v.at_rest))
]

abbrev erased_hand : SievePolicy → ℕ → Option ℕ
erased_hand s e = elim (erase e s.sieve_list) [ [] ↦ none | x ∷ r ↦ hand_off s e ]

hand_off_same :
    (s : SievePolicy) (e : ℕ)
    → s.hand ≡ some e
    → hand_off s e
      ≡ (if is_end (next e s.sieve_list) then front s.sieve_list else next e s.sieve_list)
unfolding hand_off
hand_off_same s e h = ground (arith, h)

hand_off_other : (s : SievePolicy) (e x : ℕ) → s.hand ≡ some x → x ≢ e → hand_off s e ≡ some x
unfolding hand_off
hand_off_other s e x h ne = ground (arith, h)

hand_some :
    (s : SievePolicy) (e : ℕ) (a : List ℕ) (x : ℕ) (b : List ℕ)
    → erase e s.sieve_list ≡ a ++ x ∷ b
    → erased_hand s e ≡ hand_off s e
hand_some s e [] x b h = rw (h, erased_hand)
hand_some s e (y ∷ a) x b h = rw (h, erased_hand)

hand_none : (s : SievePolicy) (e : ℕ) → erase e s.sieve_list ≡ [] → erased_hand s e ≡ none
hand_none s e h = rw (h, erased_hand)

-- The hand is on the entry that is erased.
hand_moves :
    (s : SievePolicy) (e : ℕ) (a b : List ℕ)
    → s.sieve_list ≡ a ++ e ∷ b
    → s.hand ≡ some e
    → erase e s.sieve_list ≡ a ++ b
    → next e s.sieve_list ≡ front b
    → erased_hand s e ≡ settle (erase e s.sieve_list) (front b)
hand_moves s e [] [] cut hand gone after = hand_none s e gone ∙ ap front (sym gone)
hand_moves s e (y ∷ a) [] cut hand gone after =
    let gone' = gone ∙ append-nil (y ∷ a) in
    hand_some s e [] y a gone'
    ∙ hand_off_same s e hand
    ∙ rw after (ap front cut ∙ sym (ap front gone'))
hand_moves s e a (z ∷ b) cut hand gone after =
    hand_some s e a z b gone ∙ hand_off_same s e hand ∙ rw after

-- Where the hand goes when a linked entry is erased: it stays, or it moves on to the next entry and
-- from the last one round to the first.
erased-IsValid :
    (s : SievePolicy) (e : ℕ) (a b : List ℕ)
    → Distinct s.sieve_list
    → s.sieve_list ≡ a ++ b
    → s.hand ≡ front b
    → (b ≡ [] → a ≡ [])
    → is_linked e s.sieve_list ≡ true
    → IsValid (record s { sieve_list = erase e s.sieve_list; hand = erased_hand s e })
erased-IsValid s e a [] d cut hand rest h =
    let empty : s.sieve_list ≡ [] = cut ∙ append-nil a ∙ rest refl in
    absurd (unfold is_linked in cc (ap (is_linked e) empty))
erased-IsValid s e a (x ∷ b) d cut hand rest h = elim (Bool-cases (x == e)) [
  | inl same ↦
      let xe : x ≡ e = ground (arith, same) in
      let cut' : s.sieve_list ≡ a ++ e ∷ b = subst (λ y. s.sieve_list ≡ a ++ y ∷ b) xe cut in
      let lack = (Distinct-middle a e b (subst Distinct cut' d)).0 in
      let gone = ap (erase e) cut' ∙ erase_middle e a b lack in
      settled-IsValid _ a b (Distinct-erase e s.sieve_list d) gone (
        hand_moves s e a b cut' (hand ∙ ap some xe) gone
          (ap (next e) cut' ∙ next_middle e a b lack))
  | inr other ↦
      let ne : x ≢ e = ground (arith, other) in
      let (a', b', around) = erase_around e x a b ne in
      let gone = ap (erase e) cut ∙ around in
      settled-IsValid _ a' (x ∷ b') (Distinct-erase e s.sieve_list d) gone
        (hand_some s e a' x b' gone ∙ hand_off_other s e x hand ne)
]

-- `on_erase` keeps the list and the hand consistent, wherever the hand is: on the erased entry, on the
-- last one, or elsewhere.
pub on_erase-IsValid : (s : SievePolicy) (e : ℕ) → IsValid s → IsValid (on_erase s e)
unfolding on_erase
on_erase-IsValid s e v = elim (Bool-cases (is_linked e s.sieve_list)) [
  | inl h ↦ rw h (erased-IsValid s e v.before v.onward v.distinct v.cut v.at_hand v.at_rest h)
  | inr h ↦ rw h v
]
