-- ===== src/Prelude/Bytes.antt =====
-- Bytes: a `seastar::sstring` or a `std::string_view` is the list of its bytes, each below 256.
use Prim.Native.Char.{code}
use Prim.Native.String.{String}
use Prim.Native.Nat.{ℕ, zero, suc, ◌<◌}
use mathlib.Core.Bool.{Bool, true, false, ◌&&◌}
use mathlib.Core.Path.{◌≡◌, refl}
use mathlib.Core.Logic.{◌≢◌, inl, inr}
use mathlib.Core.Option.{Option, none, some}
use native.Mathlib.Omega.{arith}
use shunya_kv.Prelude.Tests.{◌==◌, if◌then◌else◌, Option-cases}
use shunya_kv.Prelude.Lists.{length, All}
use mathlib.Core.List.{List, [], ◌∷◌, ◌++◌}

abbrev pub Bytes : Type 0
Bytes = List ℕ

-- The bytes of an ASCII literal.
abbrev pub codes : String → Bytes
codes String.[] = []
codes (String.◌∷◌ c s) = code c ∷ codes s

abbrev pub cr : ℕ
cr = 13

abbrev pub lf : ℕ
lf = 10

abbrev pub crlf : Bytes
crlf = cr ∷ lf ∷ []

-- `buf[i]`; the program never reads past the end, where this gives 0.
abbrev pub byte_at : Bytes → ℕ → ℕ
byte_at [] i = 0
byte_at (c ∷ s) zero = c
byte_at (c ∷ s) (suc i) = byte_at s i

-- `memchr`, `find`: the index of the first such byte.
unfoldable pub find_byte : ℕ → Bytes → Option ℕ
find_byte b [] = none
find_byte b (c ∷ s) =
    if c == b then some 0 else elim (find_byte b s) [ none ↦ none | some i ↦ some (suc i) ]

pub find_byte_lt : (b : ℕ) (s : Bytes) {i : ℕ} → find_byte b s ≡ some i → i < length s
unfolding find_byte
find_byte_lt b [] e = cc
find_byte_lt b (c ∷ s) {i} e = elim (Option-cases (find_byte b s)) [
  | inl n ↦ ground (arith, n)
  | inr (j, f) ↦ ground (arith, find_byte_lt b s f)
]

pub find_byte-append :
    (b : ℕ) (s t : Bytes) {i : ℕ} → find_byte b s ≡ some i → find_byte b (s ++ t) ≡ some i
unfolding find_byte
find_byte-append b [] t e = cc
find_byte-append b (c ∷ s) t {i} e = elim (Option-cases (find_byte b s)) [
  | inl n ↦ ground (arith, n)
  | inr (j, f) ↦ ground (arith, f, find_byte-append b s t f)
]

pub find_byte-none : (b : ℕ) (s : Bytes) → All (λ c. c ≢ b) s → find_byte b s ≡ none
unfolding find_byte
find_byte-none b [] h = refl
find_byte-none b (c ∷ s) h = ground (arith, h, find_byte-none b s h.1)

-- The first such byte, where none stands before it.
pub find_byte_here :
    (b : ℕ) (s t : Bytes) → All (λ c. c ≢ b) s → find_byte b (s ++ b ∷ t) ≡ some (length s)
unfolding find_byte
find_byte_here b [] t h = ground arith
find_byte_here b (c ∷ s) t h = ground (arith, find_byte_here b s t h.1)

pub byte_at-append : (s t : Bytes) (i : ℕ) → i < length s → byte_at (s ++ t) i ≡ byte_at s i
byte_at-append [] t i h = absurd (omega arith)
byte_at-append (c ∷ s) t zero h = refl
byte_at-append (c ∷ s) t (suc i) h = byte_at-append s t i (omega arith)

pub byte_at-length : (s : Bytes) (c : ℕ) (t : Bytes) → byte_at (s ++ c ∷ t) (length s) ≡ c
byte_at-length [] c t = refl
byte_at-length (d ∷ s) c t = byte_at-length s c t

-- `==` on strings.
unfoldable pub same_bytes : Bytes → Bytes → Bool
same_bytes [] [] = true
same_bytes [] (d ∷ t) = false
same_bytes (c ∷ s) [] = false
same_bytes (c ∷ s) (d ∷ t) = c == d && same_bytes s t

pub same_bytes_refl : (s : Bytes) → same_bytes s s ≡ true
unfolding same_bytes
same_bytes_refl [] = refl
same_bytes_refl (c ∷ s) = ground (arith, same_bytes_refl s)

pub same_bytes→≡ : (s t : Bytes) → same_bytes s t ≡ true → s ≡ t
unfolding same_bytes
same_bytes→≡ [] [] e = refl
same_bytes→≡ [] (d ∷ t) e = absurd (cc)
same_bytes→≡ (c ∷ s) [] e = absurd (cc)
same_bytes→≡ (c ∷ s) (d ∷ t) e =
    let q : same_bytes s t ≡ true = ground (arith, e) in
    let r : c ≡ d = ground (arith, e) in rw (r, same_bytes→≡ s t q)
