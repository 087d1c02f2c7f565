-- ===== src/Resp/Stream/Numbers.antt =====
-- The parser reads a number that is printed in decimal.
use shunya_kv.Prelude.{
  ℕ, zero, suc, ◌+◌, ◌-◌, ◌*◌, ◌≤◌, ◌<◌, ◌≡◌, ◌≢◌, refl, sym, ap, ◌∙◌, some, [], ◌∷◌, ◌++◌, arith,
  length, All, drop, length-drop, length-append, take_append_length, drop_append_length, drop-drop,
  append_assoc,
}
use shunya_kv.Prelude.Bytes.{byte_at-length, Bytes, byte_at, find_byte_here, cr, lf}
use shunya_kv.Resp.Writer.{IsDigit, value}
use shunya_kv.Resp.Stream.{digit, read_digits, parse_line, parse_int_crlf, ok, word}

le-value : (v : ℕ) (ds : Bytes) → v ≤ value v ds
le-value v [] = omega arith
le-value v (c ∷ ds) = omega (arith, le-value (v * 10 + (c - b'0')) ds)

digit_of_IsDigit : (c : ℕ) → IsDigit c → digit c ≡ c - b'0'
unfolding digit
digit_of_IsDigit c h = ground arith

-- Digits whose number fits in 64 bits are read as that number: nothing wraps around.
read_digits-value :
    (v : ℕ) (ds : Bytes) → All IsDigit ds → value v ds < word → read_digits v ds ≡ some (value v ds)
unfolding read_digits
read_digits-value v [] h fits = refl
read_digits-value v (c ∷ ds) h fits =
    let v' = v * 10 + (c - b'0') in
    ground (arith, digit_of_IsDigit c h.0, le-value v' ds, read_digits-value v' ds h.1 fits)

parse_line-value :
    (ds : Bytes)
    → ds ≢ []
    → All IsDigit ds
    → value 0 ds < word
    → parse_line (ds ++ cr ∷ []) ≡ some (value 0 ds)
unfolding parse_line
parse_line-value [] h d fits = absurd (h refl)
parse_line-value (c ∷ ds) h d fits =
    let s = c ∷ ds in
    let len : length (s ++ cr ∷ []) - 1 ≡ length s = omega (arith, length-append s (cr ∷ [])) in
    let pos : 0 < length (s ++ cr ∷ []) = omega (arith, length-append s (cr ∷ [])) in
    ground (
      arith,
      len,
      pos,
      d.0,
      byte_at-length s cr [],
      take_append_length s (cr ∷ []),
      read_digits-value 0 s d fits,
    )

module _ (buf : Bytes) (pos : ℕ) where
  pub drop_after : (xs ys : Bytes) → drop pos buf ≡ xs ++ ys → drop (pos + length xs) buf ≡ ys
  drop_after xs ys e =
      sym (drop-drop (length xs) pos buf) ∙ ap (drop (length xs)) e ∙ drop_append_length xs ys

  pub lt_of_drop : (c : ℕ) (ys : Bytes) → drop pos buf ≡ c ∷ ys → pos < length buf
  lt_of_drop c ys e = omega (arith, ap length e, length-drop pos buf)

pub byte_at-drop :
    (buf : Bytes) (pos c : ℕ) (ys : Bytes) → drop pos buf ≡ c ∷ ys → byte_at buf pos ≡ c
byte_at-drop [] zero c ys e = cc
byte_at-drop [] (suc pos) c ys e = cc
byte_at-drop (b ∷ buf) zero c ys e = cc
byte_at-drop (b ∷ buf) (suc pos) c ys e = byte_at-drop buf pos c ys e

digits-no-lf : (ds : Bytes) → All IsDigit ds → All (λ c. c ≢ lf) (ds ++ cr ∷ [])
digits-no-lf [] h = (omega arith, tt)
digits-no-lf (c ∷ ds) h = (omega (arith, h.0), digits-no-lf ds h.1)

pub parse_int_crlf-value :
    (buf : Bytes) (pos : ℕ) (ds rest : Bytes)
    → ds ≢ []
    → All IsDigit ds
    → value 0 ds < word
    → drop pos buf ≡ ds ++ cr ∷ lf ∷ rest
    → parse_int_crlf buf pos ≡ ok (value 0 ds) (pos + length ds + 2)
unfolding parse_int_crlf
parse_int_crlf-value buf pos ds rest h d fits e =
    let line = ds ++ cr ∷ [] in
    let e' : drop pos buf ≡ line ++ lf ∷ rest = e ∙ sym (append_assoc ds (cr ∷ []) (lf ∷ rest)) in
    let here = find_byte_here lf line rest (digits-no-lf ds d) in
    ground (
      arith,
      e',
      here,
      ap length e',
      length-drop pos buf,
      length-append line (lf ∷ rest),
      length-append ds (cr ∷ []),
      take_append_length line (lf ∷ rest),
      parse_line-value ds h d fits,
    )
