-- ===== src/Store/Ownership.antt =====
-- The entries of a shard stand in the pool or in the map, each at one place, through the calls of
-- src/pool/object_pool.cc and src/kv_store.cc.
use shunya_kv.Prelude.{
  ℕ, ◌<◌, ◌≡◌, ◌⊎◌, refl, sym, ap, subst, ◌∙◌, some, List, [], ◌∷◌, ◌++◌, append-nil, append_assoc,
  All, Bool-cases, Option-cases, inl, inr,
}
use shunya_kv.Prelude.Bytes.{Bytes, same_bytes}
use shunya_kv.Prelude.Links.{Lacks, Lacks-of_append, Lacks-append, Distinct, Distinct-middle}
use shunya_kv.Pool.{Pool, release}
use shunya_kv.Pool.Release.{release-pool}
use shunya_kv.Store.{Map, Shelf, find, without, evict_key, evict_keys}

abbrev pub entries : Map → List ℕ
entries [] = []
entries ((k, e) ∷ m) = e ∷ entries m

abbrev pub Below : ℕ → List ℕ → Type 0
Below n = All (λ e. e < n)

-- No entry is in the pool twice, in the map twice, or in both, and those of the list `out` are in
-- neither; all have been allocated.
pub record IsOwned (out : List ℕ) (sh : Shelf) (s : Pool) : Type 0 where
  pub distinct : Distinct ((out ++ s.pool) ++ entries sh.map)
  pub below : Below s.next_entry ((out ++ s.pool) ++ entries sh.map)

-- Taking an entry out of the middle of a list, and putting it in elsewhere.
pub Distinct-insert :
    (a : List ℕ) (x : ℕ) (b : List ℕ)
    → Lacks x a
    → Lacks x b
    → Distinct (a ++ b)
    → Distinct (a ++ x ∷ b)
Distinct-insert [] x b la lb d = (lb, d)
Distinct-insert (y ∷ a) x b la lb d =
    let (ya, yb) = Lacks-of_append y a b d.0 in
    (Lacks-append y a (x ∷ b) ya (λ e. la.0 (sym e), yb), Distinct-insert a x b la.1 lb d.1)

pub Below-middle :
    (n : ℕ) (a : List ℕ) (x : ℕ) (b : List ℕ) → Below n (a ++ x ∷ b) → (x < n) × Below n (a ++ b)
Below-middle n [] x b h = (h.0, h.1)
Below-middle n (y ∷ a) x b h = let r = Below-middle n a x b h.1 in (r.0, (h.0, r.1))

pub Below-insert :
    (n : ℕ) (a : List ℕ) (x : ℕ) (b : List ℕ) → x < n → Below n (a ++ b) → Below n (a ++ x ∷ b)
Below-insert n [] x b h k = (h, k)
Below-insert n (y ∷ a) x b h k = (k.0, Below-insert n a x b h k.1)

-- An entry that is found is at one place of the map, and `without` takes it out there.
pub find-split :
    (m : Map) (k : Bytes) (e : ℕ)
    → find m k ≡ some e
    → (a : List ℕ) × (b : List ℕ) × (entries m ≡ a ++ e ∷ b) × (entries (without m k) ≡ a ++ b)
unfolding find without
find-split [] k e h = cc
find-split ((k', e') ∷ m) k e h = elim (Bool-cases (same_bytes k' k)) [
  | inl t ↦ let q : e' ≡ e = cc (rw t at h) in ([], entries m, ap (λ x. x ∷ entries m) q, rw t refl)
  | inr t ↦
      let (a, b, cut, left) = find-split m k e (rw t at h) in
      (e' ∷ a, b, ap (◌∷◌ e') cut, rw t (ap (◌∷◌ e') left))
]

-- One state after another one: ownership is kept, and the pool has grown at its end only.
pub record Keeps (sh : Shelf) (s : Pool) (sh' : Shelf) (s' : Pool) : Type 0 where
  pub owned : (out : List ℕ) → IsOwned out sh s → IsOwned out sh' s'
  pub added : List ℕ
  pub grown : s'.pool ≡ s.pool ++ added

pub Keeps-refl : (sh : Shelf) (s : Pool) → Keeps sh s sh s
Keeps-refl sh s = record { owned = λ out o. o; added = []; grown = sym (append-nil s.pool) }

pub Keeps-trans :
    (sh : Shelf) (s : Pool) (sh' : Shelf) (s' : Pool) (sh'' : Shelf) (s'' : Pool)
    → Keeps sh s sh' s'
    → Keeps sh' s' sh'' s''
    → Keeps sh s sh'' s''
Keeps-trans sh s sh' s' sh'' s'' u v = record {
  owned = λ out o. v.owned out (u.owned out o);
  added = u.added ++ v.added;
  grown = v.grown ∙ ap (λ p. p ++ v.added) u.grown ∙ append_assoc s.pool u.added v.added;
}

-- An extracted entry goes back to the pool, or away.
pub moved-IsOwned :
    (p a b : List ℕ) (e n : ℕ) (p' : List ℕ)
    → Distinct (p ++ (a ++ e ∷ b)) × Below n (p ++ (a ++ e ∷ b))
    → ((p' ≡ p ++ e ∷ []) ⊎ (p' ≡ p))
    → Distinct (p' ++ (a ++ b)) × Below n (p' ++ (a ++ b))
moved-IsOwned p a b e n p' (d, l) back =
    let q = sym (append_assoc p a (e ∷ b)) in
    let (x, y, rest) = Distinct-middle (p ++ a) e b (subst Distinct q d) in
    let (low, rest') = Below-middle n (p ++ a) e b (subst (Below n) q l) in
    let r = append_assoc p a b in
    let (xp, xa) = Lacks-of_append e p a x in
    let out = subst Distinct r rest in
    let out' = subst (Below n) r rest' in
    elim back [
      | inl f ↦
          let g : p ++ e ∷ (a ++ b) ≡ p' ++ (a ++ b) =
            sym (ap (λ z. z ++ (a ++ b)) f ∙ append_assoc p (e ∷ []) (a ++ b)) in
          (
            subst Distinct g (Distinct-insert p e (a ++ b) xp (Lacks-append e a b xa y) out),
            subst (Below n) g (Below-insert n p e (a ++ b) low out'),
          )
      | inr f ↦ (
        subst (λ z. Distinct (z ++ (a ++ b))) (sym f) out,
        subst (λ z. Below n (z ++ (a ++ b))) (sym f) out',
      )
    ]

extract-IsOwned :
    (sh sh' : Shelf) (s : Pool) (k : Bytes) (e : ℕ)
    → find sh.map k ≡ some e
    → sh'.map ≡ without sh.map k
    → (out : List ℕ) → IsOwned out sh s
    → IsOwned out sh' (release s (some e))
extract-IsOwned sh sh' s k e f m out o =
    let (a, b, cut, left) = find-split sh.map k e f in
    let (next, back) = release-pool s e in
    let p = out ++ s.pool in
    let p' = out ++ (release s (some e)).pool in
    let back' : (p' ≡ p ++ e ∷ []) ⊎ (p' ≡ p) = elim back [
      | inl g ↦ inl (ap (◌++◌ out) g ∙ sym (append_assoc out s.pool (e ∷ [])))
      | inr g ↦ inr (ap (◌++◌ out) g)
    ] in
    let (d, l) =
      moved-IsOwned p a b e s.next_entry p'
        (
          subst (λ l. Distinct (p ++ l)) cut o.distinct,
          subst (λ l. Below s.next_entry (p ++ l)) cut o.below,
        )
        back' in
    let left' = sym (ap entries m ∙ left) in
    record {
      distinct = subst (λ l. Distinct (p' ++ l)) left' d;
      below =
          subst (λ n. Below n (p' ++ entries sh'.map)) (sym next)
            (subst (λ l. Below s.next_entry (p' ++ l)) left' l);
    }

pub extract-Keeps :
    (sh sh' : Shelf) (s : Pool) (k : Bytes) (e : ℕ)
    → find sh.map k ≡ some e
    → sh'.map ≡ without sh.map k
    → Keeps sh s sh' (release s (some e))
extract-Keeps sh sh' s k e f m = elim (release-pool s e).1 [
  | inl g ↦ record { owned = extract-IsOwned sh sh' s k e f m; added = e ∷ []; grown = g }
  | inr g ↦ record {
    owned = extract-IsOwned sh sh' s k e f m;
    added = [];
    grown = g ∙ sym (append-nil s.pool);
  }
]

evict_key-Keeps :
    (sh : Shelf) (s : Pool) (k : Bytes) → (let (sh', s') = evict_key sh s k in Keeps sh s sh' s')
evict_key-Keeps sh s k = elim (Option-cases (find sh.map k)) [
  | inl f ↦ rw (f, evict_key) (Keeps-refl sh s)
  | inr (e, f) ↦ rw (f, evict_key) (extract-Keeps sh _ s k e f refl)
]

pub evict_keys-Keeps :
    (l : List Bytes) (sh : Shelf) (s : Pool)
    → (let (sh', s') = evict_keys sh s l in Keeps sh s sh' s')
unfolding evict_keys
evict_keys-Keeps [] sh s = Keeps-refl sh s
evict_keys-Keeps (k ∷ l) sh s =
    let (sh', s') = evict_key sh s k in
    Keeps-trans sh s sh' s' _ _ (evict_key-Keeps sh s k) (evict_keys-Keeps l sh' s')

-- A change of the pool's other fields.
pub same-Keeps :
    (sh : Shelf) (s s' : Pool) → s'.pool ≡ s.pool → s'.next_entry ≡ s.next_entry → Keeps sh s sh s'
same-Keeps sh s s' p n = record {
  owned = λ out o. record {
    distinct = subst (λ q. Distinct ((out ++ q) ++ entries sh.map)) (sym p) o.distinct;
    below =
        subst (λ q. Below s'.next_entry ((out ++ q) ++ entries sh.map)) (sym p)
          (subst (λ m. Below m ((out ++ s.pool) ++ entries sh.map)) (sym n) o.below);
  };
  added = [];
  grown = p ∙ sym (append-nil s.pool);
}
