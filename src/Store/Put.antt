-- ===== src/Store/Put.antt =====
-- `set` and `set_with_ttl` of src/kv_store.cc up to the memory check: which entry a key has after it.
use shunya_kv.Prelude.{
  ℕ, ◌≡◌, ◌≢◌, ◌⊎◌, refl, ap, subst, ◌∙◌, Bool, true, false, none, some, [], ◌∷◌, ◌++◌, arith,
  Bool-cases, Option-cases, inl, inr, ◌==◌, ==_refl, if◌then◌else◌,
}
use shunya_kv.Prelude.Bytes.{Bytes, same_bytes_refl}
use shunya_kv.Prelude.Links.{Lacks, Lacks-of_append}
use shunya_kv.Ttl.{Entry, write, update_from}
use shunya_kv.Pool.{Pool, get_available_slots, acquire, release, promote_to_sanctuary}
use shunya_kv.Pool.Release.{release-pool, release-mem}
use shunya_kv.Store.{Map, Shelf, Store, find, evict_keys, put, emplace, count_fallback}
use shunya_kv.Store.Ownership.{entries, IsOwned, find-split}
use shunya_kv.Store.Taken.{IsTaken, acquire-IsTaken}
use shunya_kv.Store.Landed.{
  promote_to_sanctuary-fields, promote_to_sanctuary-pool, mapped-IsOwned, returned-IsOwned,
}

-- What a put leaves behind: the entry `at` of the key has the given value, and with `update_ttl` the
-- given time.
pub record IsPut (st : Store) (key value : Bytes) (time : ℕ) : Type 0 where
  pub at : ℕ
  pub found : find st.shelf.map key ≡ some at
  pub has_value : (st.entry_pool.mem at).value ≡ value
  pub has_time : (st.entry_pool.mem at).expires_at ≡ time
  pub owned : IsOwned [] st.shelf st.entry_pool

find_front : (k : Bytes) (e : ℕ) (m : Map) → find ((k, e) ∷ m) k ≡ some e
unfolding find
find_front k e m = rw (same_bytes_refl k) refl

Lacks-found :
    (e : ℕ) (m : Map) (k : Bytes) (old : ℕ) → find m k ≡ some old → Lacks e (entries m) → old ≢ e
Lacks-found e m k old f l =
    let (a, b, cut, left) = find-split m k old f in
    (Lacks-of_append e a (old ∷ b) (subst (Lacks e) cut l)).1.0

emplace-IsPut_new :
    (sh : Shelf) (s : Pool) (e : ℕ) (key : Bytes) (w : Entry)
    → IsTaken sh s e
    → IsPut
        (record {
          shelf = record sh { map = (key, e) ∷ sh.map };
          entry_pool = record s { mem = write s.mem e w };
        })
        key
        w.value
        w.expires_at
emplace-IsPut_new sh s e key w o = record {
  at = e;
  found = find_front key e sh.map;
  has_value = rw (==_refl e) refl;
  has_time = rw (==_refl e) refl;
  owned = mapped-IsOwned sh _ s _ e o refl refl refl;
}

-- The time that an entry of the map has after a put: the given one, or the one that it had.
abbrev pub time_after : Pool → (old : ℕ) → Entry → (update_ttl : Bool) → ℕ
time_after s old w u = if u then w.expires_at else (s.mem old).expires_at

update_from-fields :
    (a b : Entry) (u : Bool)
    → ((update_from a b u).value ≡ b.value)
      × ((update_from a b u).expires_at ≡ (if u then b.expires_at else a.expires_at))
unfolding update_from
update_from-fields a b true = (refl, refl)
update_from-fields a b false = (refl, refl)

pub emplace-IsPut_old :
    (sh : Shelf) (s : Pool) (e old : ℕ) (key : Bytes) (w : Entry) (u : Bool)
    → IsTaken sh s e
    → find sh.map key ≡ some old
    → (let s2 = record s { mem = write s.mem e w } in
        let s3 = record s2 { mem = write s2.mem old (update_from (s2.mem old) (s2.mem e) u) } in
        IsPut
          (record { shelf = sh; entry_pool = release (promote_to_sanctuary s3 old) (some e) })
          key
          w.value
          (time_after s old w u))
emplace-IsPut_old sh s e old key w u o f =
    let s2 = record s { mem = write s.mem e w } in
    let s3 = record s2 { mem = write s2.mem old (update_from (s2.mem old) (s2.mem e) u) } in
    let s4 = promote_to_sanctuary s3 old in
    let s5 = release s4 (some e) in
    let ne =
      Lacks-found e sh.map key old f (Lacks-of_append e s.pool (entries sh.map) o.distinct.0).1 in
    let other : (e == old) ≡ false = ground (arith, ne) in
    let (p, n) = promote_to_sanctuary-pool s3 old in
    let (v, t) = promote_to_sanctuary-fields s3 old old in
    let (v', t') = update_from-fields (s2.mem old) (s2.mem e) u in
    let (n', back) = release-pool s4 e in
    let kept : s5.mem old ≡ s4.mem old = rw (release-mem s4 e, other) refl in
    let written : s2.mem e ≡ w = rw (==_refl e) refl in
    let unwritten : s2.mem old ≡ s.mem old = rw other refl in
    let updated : s3.mem old ≡ update_from (s2.mem old) (s2.mem e) u = rw (==_refl old) refl in
    record {
      at = old;
      found = f;
      has_value =
          ap (λ x. x.value) kept ∙ v ∙ ap (λ x. x.value) updated ∙ v' ∙ ap (λ x. x.value) written;
      has_time =
          ap (λ x. x.expires_at) kept
          ∙ t
          ∙ ap (λ x. x.expires_at) updated
          ∙ t'
          ∙ cc (ap (λ x. x.expires_at) written, ap (λ x. x.expires_at) unwritten);
      owned =
          returned-IsOwned sh s s5 e o (subst (λ q. (s5.pool ≡ q ++ e ∷ []) ⊎ (s5.pool ≡ q)) p back)
            (n' ∙ n);
    }

emplace-IsPut :
    (sh : Shelf) (s : Pool) (e : ℕ) (key : Bytes) (w : Entry)
    → IsTaken sh s e
    → IsPut (emplace sh s e key w true) key w.value w.expires_at
emplace-IsPut sh s e key w o = elim (Option-cases (find sh.map key)) [
  | inl f ↦ rw (f, emplace) (emplace-IsPut_new sh s e key w o)
  | inr (old, f) ↦ rw (f, emplace) (emplace-IsPut_old sh s e old key w true o f)
]

pub count_fallback-IsOwned :
    (sh : Shelf) (s : Pool) → IsOwned [] sh s → IsOwned [] (count_fallback sh s) s
count_fallback-IsOwned sh s o = elim (Bool-cases (get_available_slots s == 0)) [
  | inl t ↦ rw (t, count_fallback) (record { distinct = o.distinct; below = o.below })
  | inr t ↦ rw (t, count_fallback) o
]

pub put-IsPut :
    (st : Store) (key value : Bytes) (time : ℕ) (wf : Entry → Entry)
    → ((e : Entry) → ((wf e).value ≡ value) × ((wf e).expires_at ≡ time))
    → IsOwned [] st.shelf st.entry_pool
    → IsPut (put st key wf true) key value time
unfolding put
put-IsPut st key value time wf fields o =
    let sh0 = count_fallback st.shelf st.entry_pool in
    let taken =
      acquire-IsTaken sh0 st.entry_pool (count_fallback-IsOwned st.shelf st.entry_pool o) in
    let (sh, s, e) = acquire evict_keys sh0 st.entry_pool in
    let (v, t) = fields (s.mem e) in
    subst (λ x. IsPut (put st key wf true) key x time) v
      (subst (λ x. IsPut (put st key wf true) key (wf (s.mem e)).value x) t
        (emplace-IsPut sh s e key (wf (s.mem e)) taken))

-- A put that keeps the time of an entry that is there.
emplace-IsOwned :
    (sh : Shelf) (s : Pool) (e : ℕ) (key : Bytes) (w : Entry) (u : Bool)
    → IsTaken sh s e
    → (let st = emplace sh s e key w u in IsOwned [] st.shelf st.entry_pool)
emplace-IsOwned sh s e key w u o = elim (Option-cases (find sh.map key)) [
  | inl f ↦ rw (f, emplace) (IsPut.owned (emplace-IsPut_new sh s e key w o))
  | inr (old, f) ↦ rw (f, emplace) (IsPut.owned (emplace-IsPut_old sh s e old key w u o f))
]

module _ (st : Store) (key : Bytes) (wf : Entry → Entry) (u : Bool)
    (o : IsOwned [] st.shelf st.entry_pool) where
  pub put-IsOwned : (let st' = put st key wf u in IsOwned [] st'.shelf st'.entry_pool)
  unfolding put
  put-IsOwned =
      let sh0 = count_fallback st.shelf st.entry_pool in
      let taken =
        acquire-IsTaken sh0 st.entry_pool (count_fallback-IsOwned st.shelf st.entry_pool o) in
      let (sh, s, e) = acquire evict_keys sh0 st.entry_pool in
      emplace-IsOwned sh s e key (wf (s.mem e)) u taken

  pub put-IsPut_present :
      (old : ℕ)
      → (let (sh, s, e) =
            acquire evict_keys (count_fallback st.shelf st.entry_pool) st.entry_pool in
          find sh.map key ≡ some old
          → IsPut (put st key wf u) key (wf (s.mem e)).value (time_after s old (wf (s.mem e)) u))
  unfolding put
  put-IsPut_present old f =
      let sh0 = count_fallback st.shelf st.entry_pool in
      let taken =
        acquire-IsTaken sh0 st.entry_pool (count_fallback-IsOwned st.shelf st.entry_pool o) in
      let (sh, s, e) = acquire evict_keys sh0 st.entry_pool in
      rw (f, emplace) (emplace-IsPut_old sh s e old key (wf (s.mem e)) u taken f)

  -- A put of a key that is not in the map once an entry has been acquired.
  pub put-IsPut_absent :
      (let (sh, s, e) = acquire evict_keys (count_fallback st.shelf st.entry_pool) st.entry_pool in
        find sh.map key ≡ none
        → IsPut (put st key wf u) key (wf (s.mem e)).value (wf (s.mem e)).expires_at)
  unfolding put
  put-IsPut_absent f =
      let sh0 = count_fallback st.shelf st.entry_pool in
      let taken =
        acquire-IsTaken sh0 st.entry_pool (count_fallback-IsOwned st.shelf st.entry_pool o) in
      let (sh, s, e) = acquire evict_keys sh0 st.entry_pool in
      rw (f, emplace) (emplace-IsPut_new sh s e key (wf (s.mem e)) taken)
