-- ===== src/Commands/Calls.antt =====
-- A SET on one connection and a GET on another one, each on any shard.
use shunya_kv.Prelude.{
  ℕ, ◌+◌, ◌^◌, ◌<◌, ◌≡◌, ◌≢◌, refl, ap, subst, ◌∙◌, Bool, true, false, not, Option, none, some,
  List, [], ◌∷◌, arith, ◌==◌, leb, if◌then◌else◌,
}
use shunya_kv.Prelude.Bytes.{Bytes, codes}
use shunya_kv.Routing.{shard_for}
use shunya_kv.Resp.Writer.{write_simple, write_bulk, write_null, value, IsDecimal}
use shunya_kv.Store.{Store, set_with_ttl, get, put, ttl_fields}
use shunya_kv.Store.Calls.{Owned, NoEviction, get-set_with_ttl}
use shunya_kv.Resp.Chars.{from_chars, from_chars_digits, no_length}
use shunya_kv.Commands.{
  Node, on_shard, with_store, record_get, check_set, check_get, check_ttl, accepts, asks,
  handle_set, run_set, handle_get, run_get, get_reply, ieq,
}

check_ttl_lem :
    (key v text : Bytes) (ttl : ℕ)
    → from_chars text ≡ some (ttl, [])
    → 0 < ttl
    → check_ttl key v text ≡ accepts key v ttl
unfolding check_ttl
check_ttl_lem key v text ttl f low =
    let z : (ttl == 0) ≡ false = ground (arith, low) in rw (f, z, check_ttl) refl

-- The TTL of a SET may be any decimal number from 1 to 2^64 - 1, as the printer writes it, behind the
-- word EX in letters of either case.
pub check_set-to_sstring :
    (to_sstring : ℕ → Bytes) (ttl : ℕ) (name key v ex : Bytes)
    → IsDecimal to_sstring
    → 0 < ttl
    → ttl < 2 ^ 64
    → key ≢ []
    → ieq ex (codes "EX") ≡ true
    → check_set (name ∷ key ∷ v ∷ ex ∷ to_sstring ttl ∷ []) ≡ accepts key v ttl
unfolding check_set
check_set-to_sstring to_sstring ttl name key v ex dec low high some_key e =
    let text = to_sstring ttl in
    let small : value 0 text < 2 ^ 64 = rw (dec.exact ttl) high in
    let f = from_chars_digits text (dec.some_digit ttl) (dec.digits ttl) small in
    let g = subst (λ k. from_chars text ≡ some (k, [])) (dec.exact ttl) f in
    rw (no_length key some_key, e) (check_ttl_lem key v text ttl g low)

module _ (over_soft_trigger : (used_slots total_slots : ℕ) → Bool) (fnv1a64 : Bytes → ℕ)
    (to_sstring : ℕ → Bytes) (smp first : ℕ) where
  -- The store that a forwarded call finds at the owner is the one that was put there.
  owner_store :
      (n : Node) (sid from : ℕ) (st : Store) (f : Bool)
      → (let n' = with_store n sid st in (on_shard n' from (record_get (n' from) f) sid).store ≡ st)
  unfolding record_get
  owner_store n sid from st f = ground arith

  get_reply-snd :
      (n : Node) (this : ℕ) (o : Option Bytes) (b : Bool) (v : Bytes)
      → o ≡ (if b then none else some v)
      → (get_reply over_soft_trigger fnv1a64 to_sstring smp first n this o).1
        ≡ (if b then write_null [] else write_bulk to_sstring [] v)
  get_reply-snd n this o true v e = rw e refl
  get_reply-snd n this o false v e = rw e refl

  run_set_ttl :
      (n : Node) (now_s ttl : ℕ) (key v : Bytes)
      → 0 < ttl
      → (let sid = shard_for fnv1a64 smp first key in
          run_set over_soft_trigger fnv1a64 to_sstring smp first n now_s key v ttl ≡ (
            with_store n sid (set_with_ttl over_soft_trigger (n sid).store now_s key v ttl).0,
            write_simple [] (codes "OK"),
          ))
  unfolding run_set set_with_ttl
  run_set_ttl n now_s ttl key v low = let z : (ttl == 0) ≡ false = ground (arith, low) in rw z refl

  handle_set-run_set :
      (n : Node) (now_s ttl : ℕ) (cmd : List Bytes) (key v : Bytes)
      → check_set cmd ≡ accepts key v ttl
      → handle_set over_soft_trigger fnv1a64 to_sstring smp first n now_s cmd
        ≡ run_set over_soft_trigger fnv1a64 to_sstring smp first n now_s key v ttl
  unfolding handle_set
  handle_set-run_set n now_s ttl cmd key v c = rw (c, handle_set) refl

  handle_get-reply :
      (n : Node) (st : Store) (later from : ℕ) (ask : List Bytes) (key v : Bytes) (b : Bool)
      → check_get ask ≡ asks key
      → (get st later key).1 ≡ (if b then none else some v)
      → (let n' = with_store n (shard_for fnv1a64 smp first key) st in
          (handle_get over_soft_trigger fnv1a64 to_sstring smp first n' from later ask).1
          ≡ (if b then write_null [] else write_bulk to_sstring [] v))
  unfolding handle_get run_get
  handle_get-reply n st later from ask key v b a g =
      let sid = shard_for fnv1a64 smp first key in
      let same = owner_store n sid from st (not (sid == from)) in
      let n' = with_store n sid st in
      let n1 = on_shard n' from (record_get (n' from) (not (sid == from))) in
      let n2 = with_store n1 sid (get (n1 sid).store later key).0 in
      rw (a, handle_get) (get_reply-snd n2 from _ b v (ap (λ s. (get s later key).1) same ∙ g))

  -- A SET with a TTL that a node accepts replies OK, and a GET of the key, on a connection of any
  -- shard, then replies with the value until the time of the call and the TTL, and with null from then
  -- on. In the shard that owns the key each entry is in the pool or in the map, at one place; its memory
  -- check evicts nothing at the end of the SET; and the time of the call and the TTL is below 2^64.
  pub handle_get-handle_set :
      (n : Node) (now_s later from ttl : ℕ) (cmd ask : List Bytes) (key v : Bytes)
      → check_set cmd ≡ accepts key v ttl
      → check_get ask ≡ asks key
      → 0 < ttl
      → now_s + ttl < 2 ^ 64
      → Owned (n (shard_for fnv1a64 smp first key)).store
      → NoEviction over_soft_trigger
          (put (n (shard_for fnv1a64 smp first key)).store key (ttl_fields now_s ttl key v) true)
      → (let (n', reply) = handle_set over_soft_trigger fnv1a64 to_sstring smp first n now_s cmd in
          (reply ≡ write_simple [] (codes "OK"))
          × ((handle_get over_soft_trigger fnv1a64 to_sstring smp first n' from later ask).1
              ≡ (if leb (now_s + ttl) later then write_null [] else write_bulk to_sstring [] v)))
  handle_get-handle_set n now_s later from ttl cmd ask key v c a low high o h =
      let sid = shard_for fnv1a64 smp first key in
      let st = (set_with_ttl over_soft_trigger (n sid).store now_s key v ttl).0 in
      let e = handle_set-run_set n now_s ttl cmd key v c ∙ run_set_ttl n now_s ttl key v low in
      let g =
        get-set_with_ttl over_soft_trigger (n sid).store now_s key v ttl later o (omega arith) high
          h in
      let read = handle_get-reply n st later from ask key v (leb (now_s + ttl) later) a g in
      (
        ap (λ r. r.1) e,
        ap (λ r. (handle_get over_soft_trigger fnv1a64 to_sstring smp first r.0 from later ask).1) e
            ∙ read,
      )
