-- ===== src/Resp/Stream/Parts.antt =====
-- What the parts of the parser guarantee, and how they behave when more bytes arrive.
use shunya_kv.Prelude.{
  ℕ, ◌-◌, ◌≤◌, ◌<◌, ◌≡◌, ap, inl, inr, ◌++◌, arith, length, drop, length-drop, length-append,
  take-append_le, drop-append_le, drop_of_length-le, Option-cases,
}
use shunya_kv.Prelude.Bytes.{Bytes, find_byte, find_byte_lt, find_byte-append, lf}
use shunya_kv.Resp.Stream.{compact_if_needed, resync_pos, skip_line, parse_int_crlf, ok}

-- Compacting throws away bytes that were read, and none that are still to be read.
pub drop-compact_if_needed :
    (buf : Bytes) (pos : ℕ)
    → drop (compact_if_needed buf pos).1 (compact_if_needed buf pos).0 ≡ drop pos buf
unfolding compact_if_needed
drop-compact_if_needed buf pos = ground (arith, drop_of_length-le pos buf)

pub compact_if_needed_le :
    (buf : Bytes) (pos : ℕ)
    → pos ≤ length buf
    → (compact_if_needed buf pos).1 ≤ length (compact_if_needed buf pos).0
unfolding compact_if_needed
compact_if_needed_le buf pos h = ground arith

pub compact_if_needed_lt : (buf : Bytes) (pos : ℕ) → (compact_if_needed buf pos).1 < 4096
unfolding compact_if_needed
compact_if_needed_lt buf pos = ground arith

pub unread-compact_if_needed :
    (buf : Bytes) (pos : ℕ)
    → pos ≤ length buf
    → length (compact_if_needed buf pos).0 - (compact_if_needed buf pos).1 ≡ length buf - pos
unread-compact_if_needed buf pos h =
    let e = ap length (drop-compact_if_needed buf pos) in
    omega (
      arith,
      e,
      length-drop pos buf,
      length-drop (compact_if_needed buf pos).1 (compact_if_needed buf pos).0,
    )

pub resync_pos_bounds :
    (buf : Bytes) (pos : ℕ)
    → pos ≤ length buf
    → (pos ≤ resync_pos buf pos) × (resync_pos buf pos ≤ length buf)
unfolding resync_pos
resync_pos_bounds buf pos h = elim (Option-cases (find_byte b'*' (drop pos buf))) [
  | inl n ↦ ground (arith, n)
  | inr (i, f) ↦ ground (arith, f, find_byte_lt b'*' (drop pos buf) f, length-drop pos buf)
]

pub skip_line_bounds :
    (buf : Bytes) (pos : ℕ)
    → pos < length buf
    → (pos < skip_line buf pos) × (skip_line buf pos ≤ length buf)
unfolding skip_line
skip_line_bounds buf pos h = elim (Option-cases (find_byte lf (drop pos buf))) [
  | inl n ↦ ground (arith, n)
  | inr (i, f) ↦ ground (arith, f, find_byte_lt lf (drop pos buf) f, length-drop pos buf)
]

pub parse_int_crlf_bounds :
    (buf : Bytes) (pos : ℕ) {v q : ℕ}
    → parse_int_crlf buf pos ≡ ok v q
    → (pos < q) × (q ≤ length buf)
unfolding parse_int_crlf
parse_int_crlf_bounds buf pos {v} {q} e = elim (Option-cases (find_byte lf (drop pos buf))) [
  | inl n ↦ ground (arith, n)
  | inr (i, f) ↦ ground (arith, f, find_byte_lt lf (drop pos buf) f, length-drop pos buf)
]

-- A number that was read is read again when more bytes have arrived.
pub parse_int_crlf-append :
    (buf more : Bytes) (pos : ℕ) {v q : ℕ}
    → parse_int_crlf buf pos ≡ ok v q
    → parse_int_crlf (buf ++ more) pos ≡ ok v q
unfolding parse_int_crlf
parse_int_crlf-append buf more pos {v} {q} e = elim (Option-cases (find_byte lf (drop pos buf))) [
  | inl n ↦ ground (arith, n)
  | inr (i, f) ↦
      let fits = parse_int_crlf_bounds buf pos e in
      let lt = find_byte_lt lf (drop pos buf) f in
      ground (
        arith,
        f,
        drop-append_le pos buf more (omega arith),
        find_byte-append lf (drop pos buf) more f,
        take-append_le i (drop pos buf) more (omega (arith, lt)),
        length-append buf more,
      )
]
