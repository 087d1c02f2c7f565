-- ===== src/Config/Port.antt =====
-- The port that src/config_loader.cc reads from a configuration.
use shunya_kv.Prelude.{
  ℕ, ◌%◌, ◌^◌, ◌≡◌, refl, true, false, Bool-cases, Option, none, some, [], ◌∷◌, ◌==◌, leb, ltb,
  if◌then◌else◌, length, inl, inr, arith,
}
use shunya_kv.Prelude.Bytes.{Bytes, codes}
use shunya_kv.Resp.Writer.{IsDecimal}
use shunya_kv.Resp.Chars.{from_chars_u32, read_number_digits, no_length}
use shunya_kv.Config.{DbConfig, parse_port, one_of, setting, apply, load_line}

-- A number of 32 bits is read, and a longer one is refused.
from_chars_u32-to_sstring :
    (to_sstring : ℕ → Bytes) (n : ℕ)
    → IsDecimal to_sstring
    → from_chars_u32 (to_sstring n) ≡ (if ltb n (2 ^ 32) then some (n, []) else none)
unfolding from_chars_u32
from_chars_u32-to_sstring to_sstring n dec =
    let text = to_sstring n in
    let r = read_number_digits 0 text (dec.digits n) in
    let l : (0 == length text) ≡ false = ground (arith, no_length text (dec.some_digit n)) in
    elim (Bool-cases (ltb n (2 ^ 32))) [
      | inl t ↦ rw (r, dec.exact n, l, t) refl
      | inr t ↦ rw (r, dec.exact n, l, t) refl
    ]

parse_port-to_sstring :
    (to_sstring : ℕ → Bytes) (n : ℕ)
    → IsDecimal to_sstring
    → parse_port (to_sstring n) ≡ (if leb n 65535 then some n else none)
unfolding parse_port
parse_port-to_sstring to_sstring n dec =
    let r = from_chars_u32-to_sstring to_sstring n dec in
    elim (Bool-cases (ltb n (2 ^ 32))) [
      | inl t ↦ elim (Bool-cases (leb n 65535)) [
        | inl p ↦
            let fits : n % 2 ^ 16 ≡ n = ground (arith, p) in rw (r, parse_port, t, p, fits) refl
        | inr p ↦ rw (r, parse_port, t, p) refl
      ]
      | inr t ↦ let p : leb n 65535 ≡ false = ground (arith, t) in rw (r, parse_port, t, p) refl
    ]

module _ {D : Type 0} (stod : Bytes → Option (D × ℕ)) where
  -- A line whose key is one of the three names of the port, and whose value is a printed number, sets
  -- the port to this number where it is at most 65535, and nothing else. Where the number is larger,
  -- with up to any number of digits, the line changes nothing: the port is not cut to 16 bits.
  pub load_line-port :
      (to_sstring : ℕ → Bytes) (cfg : DbConfig D) (line key : Bytes) (n : ℕ)
      → IsDecimal to_sstring
      → one_of (codes "db_port" ∷ codes "base_port" ∷ codes "port" ∷ []) key ≡ true
      → setting line ≡ some (key, to_sstring n)
      → load_line stod cfg line ≡ (if leb n 65535 then record cfg { db_port = n } else cfg)
  unfolding load_line apply
  load_line-port to_sstring cfg line key n dec named e =
      let r = parse_port-to_sstring to_sstring n dec in
      elim (Bool-cases (leb n 65535)) [
        | inl p ↦ rw (e, load_line, named, r, p, apply) refl
        | inr p ↦ rw (e, load_line, named, r, p, apply) refl
      ]
