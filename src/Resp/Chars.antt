-- ===== src/Resp/Chars.antt =====
-- `std::from_chars`, as src/resp/resp_parser.cc, src/cmd_set.cc, src/cmd_node_info.cc and
-- src/config_loader.cc use it: the number at the front of a text, and what follows it; `none` where
-- there is no digit or the number does not fit.
use shunya_kv.Prelude.{
  ℕ, ◌+◌, ◌-◌, ◌*◌, ◌%◌, ◌^◌, ◌<◌, ◌≡◌, ◌≢◌, refl, not, ◌&&◌, ◌||◌, true, false, Option, none, some,
  [], ◌∷◌, leb, ltb, ◌==◌, if◌then◌else◌, length, drop, All, arith,
}
use shunya_kv.Prelude.Bytes.{Bytes, byte_at, cr}
use shunya_kv.Resp.Writer.{IsDigit, value}

-- `std::from_chars` for a `uint64_t`: the digits in front, and what follows them; `none` where there
-- is no digit or the number does not fit.
unfoldable pub read_number : ℕ → Bytes → ℕ × Bytes
read_number v [] = (v, [])
read_number v (c ∷ s) =
    let rest = read_number (v * 10 + (c - 48)) s in
    if leb 48 c && leb c 57 then rest else (v, c ∷ s)

unfoldable pub from_chars : Bytes → Option (ℕ × Bytes)
from_chars s =
    let (v, rest) = read_number 0 s in
    if length rest == length s || not (ltb v (2 ^ 64)) then none else some (v, rest)

pub read_number_digits : (v : ℕ) (s : Bytes) → All IsDigit s → read_number v s ≡ (value v s, [])
unfolding read_number
read_number_digits v [] d = refl
read_number_digits v (c ∷ s) d =
    let r = read_number_digits (v * 10 + (c - 48)) s d.1 in ground (arith, d.0, r)

pub no_length : (l : Bytes) → l ≢ [] → (length l == 0) ≡ false
no_length [] ne = absurd (ne refl)
no_length (c ∷ l) ne = ground arith

pub from_chars_digits :
    (s : Bytes) → s ≢ [] → All IsDigit s → value 0 s < 2 ^ 64 → from_chars s ≡ some (value 0 s, [])
unfolding from_chars
from_chars_digits s ne d low =
    let r = read_number_digits 0 s d in
    let l : (0 == length s) ≡ false = ground (arith, no_length s ne) in
    let t : ltb (value 0 s) (2 ^ 64) ≡ true = ground (arith, low) in rw (r, l, t) refl

-- The same for an `int64_t`, held as its 64-bit pattern: a minus sign may stand in front.
unfoldable pub from_chars_i64 : Bytes → Option (ℕ × Bytes)
from_chars_i64 s =
    let neg = byte_at s 0 == b'-' in
    let digits = if neg then drop 1 s else s in
    let (v, rest) = read_number 0 digits in
    if length rest == length digits
    then none
    else if neg
    then (if leb v (2 ^ 63) then some ((2 ^ 64 - v) % 2 ^ 64, rest) else none)
    else if ltb v (2 ^ 63)
    then some (v, rest)
    else none

-- `ec == std::errc{} && ptr == end`: the number takes up the whole text.
abbrev pub whole : Option (ℕ × Bytes) → Option ℕ
whole none = none
whole (some (v, [])) = some v
whole (some (v, c ∷ rest)) = none

no_minus : (s : Bytes) → All IsDigit s → (byte_at s 0 == b'-') ≡ false
no_minus [] d = ground arith
no_minus (c ∷ s) d = ground (arith, d.0)

pub from_chars_i64_digits :
    (s : Bytes)
    → s ≢ []
    → All IsDigit s
    → value 0 s < 2 ^ 63
    → from_chars_i64 s ≡ some (value 0 s, [])
unfolding from_chars_i64
from_chars_i64_digits s ne d low =
    let r = read_number_digits 0 s d in
    let l : (0 == length s) ≡ false = ground (arith, no_length s ne) in
    let t : ltb (value 0 s) (2 ^ 63) ≡ true = ground (arith, low) in rw (no_minus s d, r, l, t) refl

pub digits-no-cr : (ds : Bytes) → All IsDigit ds → All (λ c. c ≢ cr) ds
digits-no-cr [] h = tt
digits-no-cr (c ∷ ds) h = (omega (arith, h.0), digits-no-cr ds h.1)

-- The same for an `unsigned` of 32 bits.
unfoldable pub from_chars_u32 : Bytes → Option (ℕ × Bytes)
from_chars_u32 s =
    let (v, rest) = read_number 0 s in
    if length rest == length s || not (ltb v (2 ^ 32)) then none else some (v, rest)
