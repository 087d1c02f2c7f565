-- ===== src/Resp/Stream/Waits.antt =====
-- What one round of the stream parser leaves when it waits for more bytes, state by state.
use shunya_kv.Prelude.{
  nil_of_length, ℕ, ◌+◌, ◌-◌, ◌≤◌, ◌≡◌, ◌≢◌, ◌⊎◌, refl, sym, ◌∙◌, inl, inr, none, some, [], arith,
  length, take, drop, Option-cases, leb, ltb, Bool-cases, ◌||◌, ◌==◌,
}
use shunya_kv.Prelude.Bytes.{Bytes}
use shunya_kv.Resp.Stream.{
  Processor, St, need_star, need_argc, need_dollar, need_bulk_len, need_bulk_data, need_bulk_crlf,
  compact_if_needed, resync_with, parse_int_crlf, Outcome, returns, out_of_range, Iter, again, stop,
  step, dispatch, step_star, step_argc, step_dollar, step_bulk_len, step_bulk_data, step_bulk_crlf,
  finish, cut_slices, int64_min, max_args, max_bulk,
}
use shunya_kv.Resp.Stream.Progress.{IntResult-cases}

-- What a call that waits for more bytes leaves: in the middle of a request, everything as it was;
-- between requests, nothing to read.
abbrev pub WaitOutcome : Processor → Bytes → Outcome → Type 0
WaitOutcome p buf (returns q buf' none) =
    ((q ≡ p) × (buf' ≡ buf) × (p.st ≢ need_star))
    ⊎ ((q.st ≡ need_star) × (q.pos ≡ 0) × (buf' ≡ []) × (p.st ≡ need_star))
WaitOutcome p buf (returns q buf' (some r)) = Unit {0}
WaitOutcome p buf out_of_range = Unit {0}

abbrev pub WaitIter : Processor → Bytes → Iter → Type 0
WaitIter p buf (again q) = Unit {0}
WaitIter p buf (stop o) = WaitOutcome p buf o

pub compact_at_end :
    (buf : Bytes) (pos : ℕ)
    → length buf ≤ pos
    → pos ≤ length buf
    → ((compact_if_needed buf pos).1 ≡ 0) × ((compact_if_needed buf pos).0 ≡ [])
unfolding compact_if_needed
compact_at_end buf pos h k = ground (arith, nil_of_length buf)

step_star-WaitIter :
    (p : Processor) (buf : Bytes)
    → p.st ≡ need_star
    → p.pos ≤ length buf
    → WaitIter p buf (step_star p buf)
unfolding step_star
step_star-WaitIter p buf e fits = ground (arith, compact_at_end buf p.pos)

finish-WaitIter : (p r : Processor) (buf : Bytes) → WaitIter r buf (finish p buf)
unfolding finish
finish-WaitIter p r buf =
    let frame = take (p.pos - p.cmd_start) (drop p.cmd_start buf) in
    elim (Option-cases (cut_slices frame p.cmd_start p.slices)) [
      | inl h ↦ rw (h, finish) tt
      | inr (args, h) ↦ rw (h, finish) tt
    ]

waits :
    (p : Processor) (buf : Bytes) {st : St}
    → p.st ≡ st
    → st ≢ need_star
    → WaitOutcome p buf (returns p buf none)
waits p buf e h = inl (refl, refl, λ k. h (sym e ∙ k))

step_argc-WaitIter :
    (p : Processor) (buf : Bytes) → p.st ≡ need_argc → WaitIter p buf (step_argc p buf)
unfolding step_argc resync_with
step_argc-WaitIter p buf e = elim (IntResult-cases (parse_int_crlf buf p.pos)) [
  | inl h ↦ rw (h, step_argc) (waits p buf e (λ k. cc))
  | inr (inl h) ↦ rw (h, step_argc) tt
  | inr (inr (v, k, h)) ↦ elim (Bool-cases (v == 0 || leb int64_min v || ltb max_args v)) [
    | inl b ↦ rw (h, b, step_argc) tt
    | inr b ↦ rw (h, b, step_argc) tt
  ]
]

step_bulk_len-WaitIter :
    (p : Processor) (buf : Bytes) → p.st ≡ need_bulk_len → WaitIter p buf (step_bulk_len p buf)
unfolding step_bulk_len resync_with
step_bulk_len-WaitIter p buf e = elim (IntResult-cases (parse_int_crlf buf p.pos)) [
  | inl h ↦ rw (h, step_bulk_len) (waits p buf e (λ k. cc))
  | inr (inl h) ↦ rw (h, step_bulk_len) tt
  | inr (inr (v, k, h)) ↦ elim (Bool-cases (leb int64_min v || ltb max_bulk v)) [
    | inl b ↦ rw (h, b, step_bulk_len) tt
    | inr b ↦ rw (h, b, step_bulk_len) tt
  ]
]

step_dollar-WaitIter :
    (p : Processor) (buf : Bytes) → p.st ≡ need_dollar → WaitIter p buf (step_dollar p buf)
unfolding step_dollar resync_with
step_dollar-WaitIter p buf e = ground (arith, waits p buf e)

step_bulk_data-WaitIter :
    (p : Processor) (buf : Bytes) → p.st ≡ need_bulk_data → WaitIter p buf (step_bulk_data p buf)
unfolding step_bulk_data
step_bulk_data-WaitIter p buf e = ground (arith, waits p buf e)

step_bulk_crlf-WaitIter :
    (p : Processor) (buf : Bytes) → p.st ≡ need_bulk_crlf → WaitIter p buf (step_bulk_crlf p buf)
unfolding step_bulk_crlf resync_with
step_bulk_crlf-WaitIter p buf e =
    let p' = record p { pos = p.pos + 2; argi = p.argi + 1 } in
    ground (arith, waits p buf e, finish-WaitIter p' p buf)

dispatch-WaitIter :
    (st : St) (p : Processor) (buf : Bytes)
    → p.st ≡ st
    → p.pos ≤ length buf
    → WaitIter p buf (dispatch st p buf)
unfolding dispatch
dispatch-WaitIter need_star p buf e fits = step_star-WaitIter p buf e fits
dispatch-WaitIter need_argc p buf e fits = step_argc-WaitIter p buf e
dispatch-WaitIter need_dollar p buf e fits = step_dollar-WaitIter p buf e
dispatch-WaitIter need_bulk_len p buf e fits = step_bulk_len-WaitIter p buf e
dispatch-WaitIter need_bulk_data p buf e fits = step_bulk_data-WaitIter p buf e
dispatch-WaitIter need_bulk_crlf p buf e fits = step_bulk_crlf-WaitIter p buf e

pub step-WaitIter : (p : Processor) (buf : Bytes) → p.pos ≤ length buf → WaitIter p buf (step p buf)
unfolding step
step-WaitIter p buf fits = dispatch-WaitIter p.st p buf refl fits
