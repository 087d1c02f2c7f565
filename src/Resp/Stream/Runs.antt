-- ===== src/Resp/Stream/Runs.antt =====
-- A call of the stream parser as the chain of its rounds, without the fuel.
use shunya_kv.Prelude.{
  ℕ, zero, suc, ◌≤◌, ◌<◌, ◌≡◌, ◌↔◌, sym, ap, ◌∙◌, inl, inr, some, arith, length, subst, min,
}
use shunya_kv.Prelude.Bytes.{Bytes}
use shunya_kv.Resp.Stream.{
  Processor, Outcome, again, stop, work, clamp, extract_loop, try_extract_request, step,
}
use shunya_kv.Resp.Stream.Progress.{
  Progresses, step-Progresses, extract_loop-again, extract_loop-stop, Iter-cases,
}

-- The rounds of a call, up to its outcome.
pub data Runs (buf : Bytes) : Processor → Outcome → Type 0 where
  ends : {p : Processor} {o : Outcome} → step p buf ≡ stop o → Runs buf p o
  goes : {p p' : Processor} {o : Outcome} → step p buf ≡ again p' → Runs buf p' o → Runs buf p o

Runs-extract_loop :
    (fuel : ℕ) (p : Processor) (buf : Bytes) {o : Outcome}
    → extract_loop fuel p buf ≡ some o
    → Runs buf p o
Runs-extract_loop zero p buf e = unfold extract_loop in absurd (cc)
Runs-extract_loop (suc fuel) p buf {o} e = elim (Iter-cases (step p buf)) [
  | inl (p', h) ↦ goes h (Runs-extract_loop fuel p' buf (sym (extract_loop-again fuel p buf h) ∙ e))
  | inr (o', h) ↦ let same : o' ≡ o = cc (extract_loop-stop fuel p buf h) in ends (h ∙ ap stop same)
]

extract_loop-Runs :
    (fuel : ℕ) {buf : Bytes} {p : Processor} {o : Outcome}
    → p.pos ≤ length buf
    → work p buf < fuel
    → Runs buf p o
    → extract_loop fuel p buf ≡ some o
extract_loop-Runs zero fits room r = absurd (omega arith)
extract_loop-Runs (suc fuel) {buf} {p} fits room (ends h) = extract_loop-stop fuel p buf h
extract_loop-Runs (suc fuel) {buf} {p} fits room (goes {p' = p'} h r) =
    let (less, fits') = subst (Progresses (work p buf) buf) h (step-Progresses p buf fits) in
    extract_loop-again fuel p buf h ∙ extract_loop-Runs fuel fits' (omega arith) r

clamp_lem : (p : Processor) (buf : Bytes) → p.pos ≤ length buf → clamp p buf ≡ p
clamp_lem p buf h =
    let e : min p.pos (length buf) ≡ p.pos = omega arith in ap (λ k. record p { pos = k }) e

-- A call comes to an outcome exactly where its rounds do.
pub try_extract_request-Runs :
    (p : Processor) (buf : Bytes) (o : Outcome)
    → p.pos ≤ length buf
    → (try_extract_request p buf ≡ some o) ↔ Runs buf p o
unfolding try_extract_request
try_extract_request-Runs p buf o fits =
    rw (clamp_lem p buf fits) (Runs-extract_loop _ p buf, extract_loop-Runs _ fits (omega arith))
