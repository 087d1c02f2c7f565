-- ===== src/Resp/Stream/Decided.antt =====
-- What a call of the stream parser has decided stays decided: bytes that come later change neither the
-- request that was returned, nor the exception.
use shunya_kv.Prelude.{
  ℕ, ◌+◌, ◌-◌, ◌≤◌, ◌≡◌, ◌⊎◌, refl, sym, ap, ◌∙◌, inl, inr, none, some, false, [], ◌++◌, arith,
  length, take, drop, length-append, length-drop, take-append_le, drop-append_le, Option-cases, leb,
  ltb, Bool-cases, ◌||◌, ◌==◌, subst, not,
}
use shunya_kv.Prelude.Bytes.{
  Bytes, byte_at, byte_at-append, find_byte, find_byte_lt, find_byte-append, cr, lf,
}
use shunya_kv.Resp.Stream.{
  Processor, St, need_star, need_argc, need_dollar, need_bulk_len, need_bulk_data, need_bulk_crlf,
  compact_if_needed, resync_with, parse_int_crlf, invalid, Outcome, returns, out_of_range, Iter,
  again, stop, step, dispatch, step_star, step_argc, step_dollar, step_bulk_len, step_bulk_data,
  step_bulk_crlf, finish, cut_slices, int64_min, max_args, max_bulk, work,
}
use shunya_kv.Resp.Stream.Parts.{parse_int_crlf-append, drop-compact_if_needed}
use shunya_kv.Resp.Stream.Progress.{Progresses, step-Progresses, IntResult-cases}
use shunya_kv.Resp.Stream.Runs.{Runs, ends, goes}
use shunya_kv.Resp.Stream.Resume.{Runs-append}

-- With `more` bytes behind the buffer, `P` says how it ends: with the same request, or with the same
-- exception; and behind a request with arguments the unread bytes are those of before and `more`.
abbrev pub Keeps : (more : Bytes) → Outcome → (P : Outcome → Type 0) → Type 0
Keeps more (returns q b none) P = Unit {0}
Keeps more (returns q b (some r)) P =
    (q' : Processor) × (b' : Bytes) × P (returns q' b' (some r))
    × ((r.argv ≡ []) ⊎ (drop q'.pos b' ≡ drop q.pos b ++ more))
Keeps more out_of_range P = P out_of_range

abbrev KeepsIter : (more : Bytes) → Iter → Iter → Type 0
KeepsIter more (again p) it = Unit {0}
KeepsIter more (stop o) it = Keeps more o (λ o'. it ≡ stop o')

resync_with-KeepsIter :
    (msg : Bytes) (p : Processor) (buf more : Bytes)
    → KeepsIter more (resync_with msg p buf) (resync_with msg p (buf ++ more))
unfolding resync_with
resync_with-KeepsIter msg p buf more = (_, _, refl, inl refl)

parse_int_crlf-append_invalid :
    (buf more : Bytes) (pos : ℕ)
    → parse_int_crlf buf pos ≡ invalid
    → parse_int_crlf (buf ++ more) pos ≡ invalid
unfolding parse_int_crlf
parse_int_crlf-append_invalid buf more pos e = elim (Option-cases (find_byte lf (drop pos buf))) [
  | inl n ↦ ground (arith, n)
  | inr (i, f) ↦
      let lt = find_byte_lt lf (drop pos buf) f in
      let le : pos ≤ length buf = omega (arith, lt, length-drop pos buf) in
      ground (
        arith,
        f,
        drop-append_le pos buf more le,
        find_byte-append lf (drop pos buf) more f,
        take-append_le i (drop pos buf) more (omega (arith, lt)),
        length-append buf more,
      )
]

frame_same :
    (buf more : Bytes) (start pos : ℕ)
    → pos ≤ length buf
    → take (pos - start) (drop start (buf ++ more)) ≡ take (pos - start) (drop start buf)
frame_same buf more start pos fits = elim (Bool-cases (leb pos start)) [
  | inl h ↦ let z : pos - start ≡ 0 = ground (arith, h) in rw z refl
  | inr h ↦
      let le : start ≤ length buf = ground (arith, h, fits) in
      rw (drop-append_le start buf more le) (
        take-append_le (pos - start) (drop start buf) more
          (omega (arith, fits, length-drop start buf)))
]

finish-KeepsIter :
    (p : Processor) (buf more : Bytes)
    → p.pos ≤ length buf
    → KeepsIter more (finish p buf) (finish p (buf ++ more))
unfolding finish
finish-KeepsIter p buf more fits =
    let same = frame_same buf more p.cmd_start p.pos fits in
    let frame = take (p.pos - p.cmd_start) (drop p.cmd_start buf) in
    elim (Option-cases (cut_slices frame p.cmd_start p.slices)) [
      | inl n ↦ rw (finish, same, n) refl
      | inr (args, f) ↦
          let left =
            drop-compact_if_needed (buf ++ more) p.pos
            ∙ drop-append_le p.pos buf more fits
            ∙ ap (λ z. z ++ more) (sym (drop-compact_if_needed buf p.pos)) in
          let q = record p { st = need_star; pos = (compact_if_needed (buf ++ more) p.pos).1 } in
          let b = (compact_if_needed (buf ++ more) p.pos).0 in
          rw (finish, same, f)
            (
              q,
              b,
              ap (λ z. stop (returns q b (some (record { frame = z; argv = args })))) same,
              inr left,
            )
    ]

step_star-KeepsIter :
    (p : Processor) (buf more : Bytes)
    → KeepsIter more (step_star p buf) (step_star p (buf ++ more))
unfolding step_star
step_star-KeepsIter p buf more = elim (Bool-cases (leb (length buf) p.pos)) [
  | inl h ↦ rw (h, step_star) tt
  | inr h ↦
      let there : leb (length (buf ++ more)) p.pos ≡ false =
        ground (arith, h, length-append buf more) in
      let same = byte_at-append buf more p.pos (ground (arith, h)) in
      elim (Bool-cases (not (byte_at buf p.pos == b'*'))) [
        | inl b ↦ rw (h, there, same, b, step_star) (_, _, refl, inl refl)
        | inr b ↦ rw (h, b, step_star) tt
      ]
]

step_argc-KeepsIter :
    (p : Processor) (buf more : Bytes)
    → KeepsIter more (step_argc p buf) (step_argc p (buf ++ more))
unfolding step_argc
step_argc-KeepsIter p buf more = elim (IntResult-cases (parse_int_crlf buf p.pos)) [
  | inl h ↦ rw (h, step_argc) tt
  | inr (inl h) ↦
      let there = parse_int_crlf-append_invalid buf more p.pos h in
      rw (h, there, step_argc) (resync_with-KeepsIter _ p buf more)
  | inr (inr (v, k, h)) ↦
      let there = parse_int_crlf-append buf more p.pos h in
      elim (Bool-cases (v == 0 || leb int64_min v || ltb max_args v)) [
        | inl b ↦
            rw (h, there, b, step_argc) (resync_with-KeepsIter _ (record p { pos = k }) buf more)
        | inr b ↦ rw (h, b, step_argc) tt
      ]
]

step_dollar-KeepsIter :
    (p : Processor) (buf more : Bytes)
    → KeepsIter more (step_dollar p buf) (step_dollar p (buf ++ more))
unfolding step_dollar
step_dollar-KeepsIter p buf more = elim (Bool-cases (leb (length buf) p.pos)) [
  | inl h ↦ rw (h, step_dollar) tt
  | inr h ↦
      let there : leb (length (buf ++ more)) p.pos ≡ false =
        ground (arith, h, length-append buf more) in
      let same = byte_at-append buf more p.pos (ground (arith, h)) in
      elim (Bool-cases (not (byte_at buf p.pos == b'$'))) [
        | inl b ↦ rw (h, there, same, b, step_dollar) (resync_with-KeepsIter _ p buf more)
        | inr b ↦ rw (h, b, step_dollar) tt
      ]
]

step_bulk_len-KeepsIter :
    (p : Processor) (buf more : Bytes)
    → KeepsIter more (step_bulk_len p buf) (step_bulk_len p (buf ++ more))
unfolding step_bulk_len
step_bulk_len-KeepsIter p buf more = elim (IntResult-cases (parse_int_crlf buf p.pos)) [
  | inl h ↦ rw (h, step_bulk_len) tt
  | inr (inl h) ↦
      let there = parse_int_crlf-append_invalid buf more p.pos h in
      rw (h, there, step_bulk_len) (resync_with-KeepsIter _ p buf more)
  | inr (inr (v, k, h)) ↦
      let there = parse_int_crlf-append buf more p.pos h in
      elim (Bool-cases (leb int64_min v || ltb max_bulk v)) [
        | inl b ↦
            rw (h, there, b, step_bulk_len)
              (resync_with-KeepsIter _ (record p { pos = k }) buf more)
        | inr b ↦ rw (h, b, step_bulk_len) tt
      ]
]

step_bulk_data-KeepsIter :
    (p : Processor) (buf more : Bytes)
    → KeepsIter more (step_bulk_data p buf) (step_bulk_data p (buf ++ more))
unfolding step_bulk_data
step_bulk_data-KeepsIter p buf more = elim (Bool-cases (ltb (length buf) (p.pos + p.bulk_len))) [
  | inl h ↦ rw (h, step_bulk_data) tt
  | inr h ↦ rw (h, step_bulk_data) tt
]

step_bulk_crlf-KeepsIter :
    (p : Processor) (buf more : Bytes)
    → KeepsIter more (step_bulk_crlf p buf) (step_bulk_crlf p (buf ++ more))
unfolding step_bulk_crlf
step_bulk_crlf-KeepsIter p buf more = elim (Bool-cases (ltb (length buf) (p.pos + 2))) [
  | inl h ↦ rw (h, step_bulk_crlf) tt
  | inr h ↦
      let p' = record p { pos = p.pos + 2; argi = p.argi + 1 } in
      let there : ltb (length (buf ++ more)) (p.pos + 2) ≡ false =
        ground (arith, h, length-append buf more) in
      let same = byte_at-append buf more p.pos (ground (arith, h)) in
      let same' = byte_at-append buf more (p.pos + 1) (ground (arith, h)) in
      elim (Bool-cases (not (byte_at buf p.pos == cr) || not (byte_at buf (p.pos + 1) == lf))) [
        | inl b ↦ rw (h, there, same, same', b, step_bulk_crlf) (resync_with-KeepsIter _ p buf more)
        | inr b ↦ elim (Bool-cases (p.argi + 1 == p.argc)) [
          | inl c ↦
              rw (h, there, same, same', b, c, step_bulk_crlf)
                (finish-KeepsIter p' buf more (ground (arith, h)))
          | inr c ↦ rw (h, b, c, step_bulk_crlf) tt
        ]
      ]
]

dispatch-KeepsIter :
    (st : St) (p : Processor) (buf more : Bytes)
    → KeepsIter more (dispatch st p buf) (dispatch st p (buf ++ more))
unfolding dispatch
dispatch-KeepsIter need_star p buf more = step_star-KeepsIter p buf more
dispatch-KeepsIter need_argc p buf more = step_argc-KeepsIter p buf more
dispatch-KeepsIter need_dollar p buf more = step_dollar-KeepsIter p buf more
dispatch-KeepsIter need_bulk_len p buf more = step_bulk_len-KeepsIter p buf more
dispatch-KeepsIter need_bulk_data p buf more = step_bulk_data-KeepsIter p buf more
dispatch-KeepsIter need_bulk_crlf p buf more = step_bulk_crlf-KeepsIter p buf more

Keeps-map :
    (more : Bytes) (o : Outcome) (P Q : Outcome → Type 0)
    → ((o' : Outcome) → P o' → Q o')
    → Keeps more o P
    → Keeps more o Q
Keeps-map more (returns q b none) P Q f k = tt
Keeps-map more (returns q b (some r)) P Q f (q', b', h, left) = (q', b', f _ h, left)
Keeps-map more out_of_range P Q f h = f _ h

step-Keeps :
    (p : Processor) (buf more : Bytes) (o : Outcome)
    → step p buf ≡ stop o
    → Keeps more o (λ o'. step p (buf ++ more) ≡ stop o')
unfolding step
step-Keeps p buf more o h =
    subst (λ it. KeepsIter more it (step p (buf ++ more))) h (dispatch-KeepsIter p.st p buf more)

-- A call that does not wait ends in the same way when more bytes have come.
pub Runs-Keeps :
    (buf more : Bytes) {p : Processor} {o : Outcome}
    → p.pos ≤ length buf
    → Runs buf p o
    → Keeps more o (Runs (buf ++ more) p)
Runs-Keeps buf more {p} {o} fits (ends h) =
    Keeps-map more o _ _ (λ o' k. ends k) (step-Keeps p buf more o h)
Runs-Keeps buf more {p} {o} fits (goes {p' = p'} h r) =
    let (less, fits') = subst (Progresses (work p buf) buf) h (step-Progresses p buf fits) in
    Keeps-map more o _ _ (λ o' k. Runs-append buf more fits h k) (Runs-Keeps buf more fits' r)
