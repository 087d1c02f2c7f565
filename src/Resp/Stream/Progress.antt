-- ===== src/Resp/Stream/Progress.antt =====
-- Every round of the parser's loop makes progress, so that the loop ends, and every request that is
-- returned makes progress, so that the caller's loop over a buffer ends too.
use shunya_kv.Prelude.{
  ℕ, zero, suc, ◌+◌, ◌-◌, ◌*◌, ◌≤◌, ◌<◌, ◌≡◌, ◌⊎◌, refl, ◌∙◌, inl, inr, none, some, arith, length,
  take, drop, Option-cases, leb, Bool-cases, subst,
}
use shunya_kv.Prelude.Bytes.{Bytes}
use shunya_kv.Resp.Stream.{
  Processor, St, need_star, need_argc, need_dollar, need_bulk_len, need_bulk_data, need_bulk_crlf,
  resync_pos, reset_and_resync, resync_with, skip_line, parse_int_crlf, IntResult, need_more,
  invalid, ok, Outcome, returns, out_of_range, Iter, again, stop, work, clamp, extract_loop,
  try_extract_request, step, dispatch, step_star, step_argc, step_dollar, step_bulk_len,
  step_bulk_data, step_bulk_crlf, finish, cut_slices, invalid_argc, protocol_error,
  invalid_bulk_length,
}
use shunya_kv.Resp.Stream.Parts.{
  compact_if_needed_le, unread-compact_if_needed, resync_pos_bounds, skip_line_bounds,
  parse_int_crlf_bounds,
}

-- With work `n` to do before: the work left is less where the loop goes on or a request is
-- returned, and no more where the call waits for bytes; and the position stays in the buffer.
abbrev pub OutcomeProgresses : ℕ → Outcome → Type 0
OutcomeProgresses n (returns p buf none) = (work p buf ≤ n) × (p.pos ≤ length buf)
OutcomeProgresses n (returns p buf (some r)) = (work p buf < n) × (p.pos ≤ length buf)
OutcomeProgresses n out_of_range = Unit {0}

abbrev pub Progresses : ℕ → Bytes → Iter → Type 0
Progresses n buf (again p) = (work p buf < n) × (p.pos ≤ length buf)
Progresses n buf (stop o) = OutcomeProgresses n o

pub IntResult-cases :
    (r : IntResult) → (r ≡ need_more) ⊎ ((r ≡ invalid) ⊎ ((v : ℕ) × (q : ℕ) × (r ≡ ok v q)))
IntResult-cases need_more = inl refl
IntResult-cases invalid = inr (inl refl)
IntResult-cases (ok v q) = inr (inr (v, q, refl))

resync_with-Progresses :
    (msg : Bytes) (p : Processor) (buf : Bytes) (n : ℕ)
    → p.pos ≤ length buf
    → 3 * (length buf - p.pos) < n
    → Progresses n buf (resync_with msg p buf)
unfolding resync_with reset_and_resync
resync_with-Progresses msg p buf n fits room = elim (Bool-cases (leb (length buf) p.pos)) [
  | inl e ↦
      ground
        (arith, e, compact_if_needed_le buf p.pos fits, unread-compact_if_needed buf p.pos fits)
  | inr e ↦
      let at = resync_pos_bounds buf p.pos fits in
      ground (
        arith,
        e,
        at,
        compact_if_needed_le buf (resync_pos buf p.pos) at.1,
        unread-compact_if_needed buf (resync_pos buf p.pos) at.1,
      )
]

step_star-Progresses :
    (p : Processor) (buf : Bytes)
    → p.st ≡ need_star
    → p.pos ≤ length buf
    → Progresses (work p buf) buf (step_star p buf)
unfolding step_star
step_star-Progresses p buf e fits = elim (Bool-cases (leb (length buf) p.pos)) [
  | inl h ↦
      ground
        (arith, e, h, compact_if_needed_le buf p.pos fits, unread-compact_if_needed buf p.pos fits)
  | inr h ↦
      let at = skip_line_bounds buf p.pos (ground (arith, h)) in
      ground (
        arith,
        e,
        h,
        at,
        compact_if_needed_le buf (skip_line buf p.pos) at.1,
        unread-compact_if_needed buf (skip_line buf p.pos) at.1,
      )
]

step_argc-Progresses :
    (p : Processor) (buf : Bytes)
    → p.st ≡ need_argc
    → p.pos ≤ length buf
    → Progresses (work p buf) buf (step_argc p buf)
unfolding step_argc
step_argc-Progresses p buf e fits = elim (IntResult-cases (parse_int_crlf buf p.pos)) [
  | inl h ↦ rw (h, step_argc) (omega arith)
  | inr (inl h) ↦ rw (h, step_argc) (resync_with-Progresses _ p buf _ fits (ground (arith, e)))
  | inr (inr (v, q, h)) ↦
      let at = parse_int_crlf_bounds buf p.pos h in
      let p' = record p { pos = q } in
      let back = resync_with-Progresses invalid_argc p' buf (work p buf) at.1 in
      rw (h, step_argc) (ground (arith, e, at, back))
]

step_dollar-Progresses :
    (p : Processor) (buf : Bytes)
    → p.st ≡ need_dollar
    → p.pos ≤ length buf
    → Progresses (work p buf) buf (step_dollar p buf)
unfolding step_dollar
step_dollar-Progresses p buf e fits =
    ground (arith, e, resync_with-Progresses protocol_error p buf (work p buf))

step_bulk_len-Progresses :
    (p : Processor) (buf : Bytes)
    → p.st ≡ need_bulk_len
    → p.pos ≤ length buf
    → Progresses (work p buf) buf (step_bulk_len p buf)
unfolding step_bulk_len
step_bulk_len-Progresses p buf e fits = elim (IntResult-cases (parse_int_crlf buf p.pos)) [
  | inl h ↦ rw (h, step_bulk_len) (omega arith)
  | inr (inl h) ↦ rw (h, step_bulk_len) (resync_with-Progresses _ p buf _ fits (ground (arith, e)))
  | inr (inr (v, q, h)) ↦
      let at = parse_int_crlf_bounds buf p.pos h in
      let p' = record p { pos = q } in
      let back = resync_with-Progresses invalid_bulk_length p' buf (work p buf) at.1 in
      rw (h, step_bulk_len) (ground (arith, e, at, back))
]

step_bulk_data-Progresses :
    (p : Processor) (buf : Bytes)
    → p.st ≡ need_bulk_data
    → p.pos ≤ length buf
    → Progresses (work p buf) buf (step_bulk_data p buf)
unfolding step_bulk_data
step_bulk_data-Progresses p buf e fits = ground (arith, e)

finish-Progresses :
    (p : Processor) (buf : Bytes) (n : ℕ)
    → p.pos ≤ length buf
    → 3 * (length buf - p.pos) < n
    → Progresses n buf (finish p buf)
unfolding finish
finish-Progresses p buf n fits room =
    let frame = take (p.pos - p.cmd_start) (drop p.cmd_start buf) in
    elim (Option-cases (cut_slices frame p.cmd_start p.slices)) [
      | inl h ↦ rw (h, finish) tt
      | inr (args, h) ↦
          rw (h, finish)
            (ground
              (arith, compact_if_needed_le buf p.pos fits, unread-compact_if_needed buf p.pos fits))
    ]

step_bulk_crlf-Progresses :
    (p : Processor) (buf : Bytes)
    → p.st ≡ need_bulk_crlf
    → p.pos ≤ length buf
    → Progresses (work p buf) buf (step_bulk_crlf p buf)
unfolding step_bulk_crlf
step_bulk_crlf-Progresses p buf e fits =
    let p' = record p { pos = p.pos + 2; argi = p.argi + 1 } in
    ground (
      arith,
      e,
      resync_with-Progresses protocol_error p buf (work p buf),
      finish-Progresses p' buf (work p buf),
    )

dispatch-Progresses :
    (st : St) (p : Processor) (buf : Bytes)
    → p.st ≡ st
    → p.pos ≤ length buf
    → Progresses (work p buf) buf (dispatch st p buf)
unfolding dispatch
dispatch-Progresses need_star p buf = step_star-Progresses p buf
dispatch-Progresses need_argc p buf = step_argc-Progresses p buf
dispatch-Progresses need_dollar p buf = step_dollar-Progresses p buf
dispatch-Progresses need_bulk_len p buf = step_bulk_len-Progresses p buf
dispatch-Progresses need_bulk_data p buf = step_bulk_data-Progresses p buf
dispatch-Progresses need_bulk_crlf p buf = step_bulk_crlf-Progresses p buf

pub step-Progresses :
    (p : Processor) (buf : Bytes) → p.pos ≤ length buf → Progresses (work p buf) buf (step p buf)
unfolding step
step-Progresses p buf = dispatch-Progresses p.st p buf refl

pub Iter-cases : (r : Iter) → ((p : Processor) × (r ≡ again p)) ⊎ ((o : Outcome) × (r ≡ stop o))
Iter-cases (again p) = inl (p, refl)
Iter-cases (stop o) = inr (o, refl)

OutcomeProgresses-mono :
    (m n : ℕ) (o : Outcome) → m ≤ n → OutcomeProgresses m o → OutcomeProgresses n o
OutcomeProgresses-mono m n (returns p buf none) h a = omega arith
OutcomeProgresses-mono m n (returns p buf (some r)) h a = omega arith
OutcomeProgresses-mono m n out_of_range h a = tt

pub extract_loop-again :
    (fuel : ℕ) (p : Processor) (buf : Bytes) {p' : Processor}
    → step p buf ≡ again p'
    → extract_loop (suc fuel) p buf ≡ extract_loop fuel p' buf
unfolding extract_loop
extract_loop-again fuel p buf e = rw (e, extract_loop)

pub extract_loop-stop :
    (fuel : ℕ) (p : Processor) (buf : Bytes) {o : Outcome}
    → step p buf ≡ stop o
    → extract_loop (suc fuel) p buf ≡ some o
unfolding extract_loop
extract_loop-stop fuel p buf e = rw (e, extract_loop)

extract_loop-Progresses :
    (fuel : ℕ) (p : Processor) (buf : Bytes)
    → p.pos ≤ length buf
    → work p buf < fuel
    → (o : Outcome) × (extract_loop fuel p buf ≡ some o) × OutcomeProgresses (work p buf) o
extract_loop-Progresses zero p buf fits room = absurd (omega arith)
extract_loop-Progresses (suc fuel) p buf fits room = elim (Iter-cases (step p buf)) [
  | inl (p', e) ↦
      let (less, fits') = subst (Progresses (work p buf) buf) e (step-Progresses p buf fits) in
      let (o, run, done) = extract_loop-Progresses fuel p' buf fits' (omega arith) in
      (
        o,
        extract_loop-again fuel p buf e ∙ run,
        OutcomeProgresses-mono (work p' buf) (work p buf) o (omega arith) done,
      )
  | inr (o, e) ↦ (
    o,
    extract_loop-stop fuel p buf e,
    subst (Progresses (work p buf) buf) e (step-Progresses p buf fits),
  )
]

-- Every call of `try_extract_request` ends, whatever the state and the buffer. A call that returns
-- a request or an error reply leaves strictly less work than there was, and a call that waits for
-- more bytes no more; and the position it leaves is in the buffer.
pub try_extract_request-Progresses :
    (p : Processor) (buf : Bytes)
    → (o : Outcome) × (try_extract_request p buf ≡ some o)
      × OutcomeProgresses (work (clamp p buf) buf) o
unfolding try_extract_request
try_extract_request-Progresses p buf =
    extract_loop-Progresses (suc (work (clamp p buf) buf)) (clamp p buf) buf (omega arith)
      (omega arith)
