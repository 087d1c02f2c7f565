-- ===== src/Resp/Stream/Resume.antt =====
-- A request that arrives in pieces: a call that waits in the middle of a request and is made again
-- when more bytes have come does what one call on all the bytes does.
use shunya_kv.Prelude.{
  ◌+◌, ◌≤◌, ◌≡◌, ◌≢◌, sym, ◌∙◌, inl, inr, none, some, ◌++◌, arith, length, length-append, subst,
}
use shunya_kv.Prelude.Bytes.{Bytes, byte_at-append}
use shunya_kv.Resp.Stream.{
  Processor, St, need_star, need_argc, need_dollar, need_bulk_len, need_bulk_data, need_bulk_crlf,
  resync_with, parse_int_crlf, Outcome, returns, again, work, try_extract_request, step, dispatch,
  step_star, step_argc, step_dollar, step_bulk_len, step_bulk_data, step_bulk_crlf, finish,
}
use shunya_kv.Resp.Stream.Parts.{parse_int_crlf-append}
use shunya_kv.Resp.Stream.Progress.{
  Progresses, step-Progresses, IntResult-cases, try_extract_request-Progresses,
}
use shunya_kv.Resp.Stream.Runs.{Runs, ends, goes, try_extract_request-Runs}
use shunya_kv.Resp.Stream.Waits.{WaitOutcome, WaitIter, step-WaitIter}

step_bulk_crlf-append :
    (p q : Processor) (buf more : Bytes)
    → p.pos ≤ length buf
    → step_bulk_crlf p buf ≡ again q
    → step_bulk_crlf p (buf ++ more) ≡ again q
unfolding step_bulk_crlf finish resync_with
step_bulk_crlf-append p q buf more fits e = ground (
  arith,
  length-append buf more,
  byte_at-append buf more p.pos,
  byte_at-append buf more (p.pos + 1),
)

dispatch-append :
    (st : St) (p q : Processor) (buf more : Bytes)
    → p.pos ≤ length buf
    → dispatch st p buf ≡ again q
    → dispatch st p (buf ++ more) ≡ again q
unfolding dispatch step_star step_argc step_dollar step_bulk_len step_bulk_data resync_with
dispatch-append need_star p q buf more fits e =
    ground (arith, length-append buf more, byte_at-append buf more p.pos)
dispatch-append need_argc p q buf more fits e = elim (IntResult-cases (parse_int_crlf buf p.pos)) [
  | inl h ↦ ground (arith, h)
  | inr (inl h) ↦ ground (arith, h)
  | inr (inr (v, k, h)) ↦ ground (arith, h, parse_int_crlf-append buf more p.pos h)
]
dispatch-append need_dollar p q buf more fits e =
    ground (arith, length-append buf more, byte_at-append buf more p.pos)
dispatch-append need_bulk_len p q buf more fits e =
    elim (IntResult-cases (parse_int_crlf buf p.pos)) [
      | inl h ↦ ground (arith, h)
      | inr (inl h) ↦ ground (arith, h)
      | inr (inr (v, k, h)) ↦ ground (arith, h, parse_int_crlf-append buf more p.pos h)
    ]
dispatch-append need_bulk_data p q buf more fits e = ground (arith, length-append buf more)
dispatch-append need_bulk_crlf p q buf more fits e = step_bulk_crlf-append p q buf more fits e

pub Runs-append :
    (buf more : Bytes) {p q : Processor} {o : Outcome}
    → p.pos ≤ length buf
    → step p buf ≡ again q
    → Runs (buf ++ more) q o
    → Runs (buf ++ more) p o
unfolding step
Runs-append buf more {p} {q} fits e r = goes (dispatch-append p.st p q buf more fits e) r

pub Runs-WaitOutcome :
    {buf : Bytes} {p : Processor} {o : Outcome}
    → p.pos ≤ length buf
    → Runs buf p o
    → (p' : Processor) × WaitOutcome p' buf o
      × (p'.pos ≤ length buf)
      × ((more : Bytes) (o' : Outcome) → Runs (buf ++ more) p' o' → Runs (buf ++ more) p o')
Runs-WaitOutcome {buf} {p} fits (ends h) =
    (p, subst (WaitIter p buf) h (step-WaitIter p buf fits), fits, λ more o' r. r)
Runs-WaitOutcome {buf} {p} fits (goes {p' = p'} h r) =
    let (less, fits') = subst (Progresses (work p buf) buf) h (step-Progresses p buf fits) in
    let (w, waiting, inside, onward) = Runs-WaitOutcome fits' r in
    (w, waiting, inside, λ more o' s. Runs-append buf more fits h (onward more o' s))

module _ (p q : Processor) (buf buf' : Bytes) (fits : p.pos ≤ length buf)
    (waited : try_extract_request p buf ≡ some (returns q buf' none)) where
  -- A call, from a position in the buffer, that waits in the middle of a request keeps the buffer, and the call that is made when
  -- `more` bytes have been appended has the very outcome that one call on all the bytes has.
  pub try_extract_request_resume :
      (more : Bytes)
      → q.st ≢ need_star
      → (buf' ≡ buf) × (try_extract_request q (buf' ++ more) ≡ try_extract_request p (buf ++ more))
  try_extract_request_resume more middle =
      let (w, waiting, inside, onward) =
        Runs-WaitOutcome fits ((try_extract_request-Runs p buf _ fits).0 waited) in
      go w waiting inside (onward more)
    where
      resumes :
          (w : Processor)
          → w.pos ≤ length buf
          → ((o : Outcome) → Runs (buf ++ more) w o → Runs (buf ++ more) p o)
          → try_extract_request w (buf ++ more) ≡ try_extract_request p (buf ++ more)
      resumes w inside onward =
          let (o, run, _) = try_extract_request-Progresses w (buf ++ more) in
          let longer = length-append buf more in
          let there = (try_extract_request-Runs w (buf ++ more) o (omega (arith, longer))).0 run in
          run
          ∙ sym (
              (try_extract_request-Runs p (buf ++ more) o (omega (arith, longer))).1
                (onward o there))

      go :
          (w : Processor)
          → WaitOutcome w buf (returns q buf' none)
          → w.pos ≤ length buf
          → ((o : Outcome) → Runs (buf ++ more) w o → Runs (buf ++ more) p o)
          → (buf' ≡ buf)
            × (try_extract_request q (buf' ++ more) ≡ try_extract_request p (buf ++ more))
      go w (inr (st, pos, empty, outside)) inside onward = absurd (middle st)
      go w (inl (same, kept, mid)) inside onward = (kept, rw (same, kept) (resumes w inside onward))
