-- ===== src/Resp/Writer/Decimal.antt =====
-- A decimal printer, as an instance of what the writers ask of `seastar::to_sstring`.
use shunya_kv.Prelude.{
  ℕ, zero, suc, ◌+◌, ◌-◌, ◌*◌, ◌/◌, ◌%◌, ◌≤◌, ◌≡◌, ◌≢◌, refl, arith, true, false, [], ◌∷◌, ◌++◌,
  ltb, All, Bool-cases, inl, inr,
}
use shunya_kv.Prelude.Bytes.{Bytes}
use shunya_kv.Resp.Writer.{IsDigit, value, IsDecimal}

-- The last digit of `n` behind the digits of `n / 10`.
print_digits : ℕ → ℕ → Bytes
print_digits zero n = b'0' ∷ []
print_digits (suc fuel) n = elim (ltb n 10) [
  | true ↦ (b'0' + n) ∷ []
  | false ↦ print_digits fuel (n / 10) ++ (b'0' + n % 10) ∷ []
]

unfoldable pub print_decimal : ℕ → Bytes
unfolding print_digits
print_decimal n = print_digits n n

value-snoc : (v : ℕ) (s : Bytes) (c : ℕ) → value v (s ++ c ∷ []) ≡ value v s * 10 + (c - b'0')
value-snoc v [] c = refl
value-snoc v (b ∷ s) c = value-snoc (v * 10 + (b - b'0')) s c

All-snoc : (s : Bytes) (c : ℕ) → All IsDigit s → IsDigit c → All IsDigit (s ++ c ∷ [])
All-snoc [] c h d = (d, tt)
All-snoc (b ∷ s) c h d = (h.0, All-snoc s c h.1 d)

snoc-ne-nil : (s : Bytes) (c : ℕ) → s ++ c ∷ [] ≢ []
snoc-ne-nil [] c e = cc
snoc-ne-nil (b ∷ s) c e = cc

print_digits_lem :
    (fuel n : ℕ)
    → n ≤ fuel
    → All IsDigit (print_digits fuel n)
      × (print_digits fuel n ≢ [])
      × (value 0 (print_digits fuel n) ≡ n)
unfolding print_digits
print_digits_lem zero n h = (omega arith, λ e. cc, omega arith)
print_digits_lem (suc fuel) n h = elim (Bool-cases (ltb n 10)) [
  | inl e ↦ rw (e, print_digits) (ground (arith, e), λ k. cc, ground arith)
  | inr e ↦
      let rest = print_digits_lem fuel (n / 10) (ground (arith, e)) in
      let s = print_digits fuel (n / 10) in
      let c = b'0' + n % 10 in
      rw (e, print_digits)
        (
          All-snoc s c rest.0 (omega arith),
          snoc-ne-nil s c,
          omega (arith, value-snoc 0 s c, rest.2),
        )
]

pub print_decimal-IsDecimal : IsDecimal print_decimal
unfolding print_decimal
print_decimal-IsDecimal = record {
  digits = λ n. (print_digits_lem n n (omega arith)).0;
  some_digit = λ n. (print_digits_lem n n (omega arith)).1;
  exact = λ n. (print_digits_lem n n (omega arith)).2;
}
