-- ===== src/Resp/Writer.antt =====
-- src/resp/resp_writer.cc. An output stream is the bytes that were written to it so far.
pub mod Frames
pub mod Decimal
use shunya_kv.Prelude.{
  ℕ, zero, suc, ◌+◌, ◌-◌, ◌*◌, ◌≤◌, List, [], ◌∷◌, ◌++◌, ◌≡◌, ◌≢◌, length, All, ◌^◌, ltb,
  if◌then◌else◌,
}
use shunya_kv.Prelude.Bytes.{Bytes, codes, crlf}

unfoldable pub write_crlf : Bytes → Bytes
write_crlf out = out ++ crlf

pub write_simple : Bytes → Bytes → Bytes
unfolding write_crlf
write_simple out msg = write_crlf ((out ++ b'+' ∷ []) ++ msg)

unfoldable pub write_error : Bytes → Bytes → Bytes
unfolding write_crlf
write_error out msg = write_crlf ((out ++ b'-' ∷ []) ++ msg)

pub write_null : Bytes → Bytes
write_null out = out ++ codes "$-1\r\n"

-- `seastar::to_sstring` prints numbers: a parameter.
module _ (to_sstring : ℕ → Bytes) where
  -- The argument is an `int64_t`, held as its 64-bit pattern; a negative one is printed with its sign.
  pub write_integer : Bytes → ℕ → Bytes
  unfolding write_crlf
  write_integer out v =
      write_crlf
        (out ++ b':' ∷ (if ltb v (2 ^ 63) then to_sstring v else b'-' ∷ to_sstring (2 ^ 64 - v)))

  unfoldable pub write_bulk : Bytes → Bytes → Bytes
  unfolding write_crlf
  write_bulk out [] = write_crlf (write_crlf (out ++ b'$' ∷ to_sstring 0))
  write_bulk out (c ∷ s) =
      write_crlf (write_crlf (out ++ b'$' ∷ to_sstring (length (c ∷ s))) ++ c ∷ s)

  unfoldable pub write_bulks : Bytes → List Bytes → Bytes
  unfolding write_bulk
  write_bulks out [] = out
  write_bulks out (s ∷ items) = write_bulks (write_bulk out s) items

  unfoldable pub write_array_bulk : Bytes → List Bytes → Bytes
  unfolding write_bulks
  write_array_bulk out items =
      write_bulks (write_crlf (out ++ b'*' ∷ to_sstring (length items))) items

abbrev pub IsDigit : ℕ → Type 0
IsDigit c = (b'0' ≤ c) × (c ≤ b'9')

-- The number that digits spell behind `n`.
abbrev pub value : ℕ → Bytes → ℕ
value n [] = n
value n (c ∷ s) = value (n * 10 + (c - b'0')) s

-- What the code relies on of `seastar::to_sstring`: it prints the decimal digits of a number.
pub record IsDecimal (to_sstring : ℕ → Bytes) : Type 0 where
  pub digits : (n : ℕ) → All IsDigit (to_sstring n)
  pub some_digit : (n : ℕ) → to_sstring n ≢ []
  pub exact : (n : ℕ) → value 0 (to_sstring n) ≡ n
