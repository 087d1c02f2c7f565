-- ===== src/Config/Lines.antt =====
-- How src/config_loader.cc reads one line: blanks and comments do not matter.
use shunya_kv.Prelude.{
  ℕ, suc, ◌+◌, ◌-◌, ◌<◌, ◌≡◌, ◌≢◌, refl, sym, ap, subst, ◌∙◌, true, false, none, some, [], ◌∷◌,
  ◌++◌, append-nil, append_assoc, arith, length, length-append, drop, drop-drop, take_append_length,
  drop_append_length, All, ◌==◌,
}
use shunya_kv.Prelude.Bytes.{
  Bytes, byte_at, byte_at-append, find_byte, find_byte_here, find_byte-none,
}
use shunya_kv.Config.{
  is_blank, first_not_blank, last_not_blank, trim, maybe_unquote, cut_comment, setting,
}

abbrev pub Blanks : Bytes → Type 0
Blanks = All (λ c. is_blank c ≡ true)

-- Neither begins nor ends with a blank, and is not empty.
pub record IsTrimmed (s : Bytes) : Type 0 where
  pub some_bytes : 0 < length s
  pub first : is_blank (byte_at s 0) ≡ false
  pub last : is_blank (byte_at s (length s - 1)) ≡ false

first_not_blank-append :
    (a s : Bytes)
    → Blanks a
    → 0 < length s
    → is_blank (byte_at s 0) ≡ false
    → first_not_blank (a ++ s) ≡ some (length a)
unfolding first_not_blank
first_not_blank-append [] [] h pos n = absurd (omega arith)
first_not_blank-append [] (c ∷ s) h pos n = rw n refl
first_not_blank-append (c ∷ a) s (b, h) pos n = rw (b, first_not_blank-append a s h pos n) refl

last_not_blank-Blanks : (b : Bytes) → Blanks b → last_not_blank b ≡ none
unfolding last_not_blank
last_not_blank-Blanks [] h = refl
last_not_blank-Blanks (c ∷ b) (e, h) = rw (last_not_blank-Blanks b h, e) refl

last_not_blank-append :
    (s b : Bytes)
    → Blanks b
    → 0 < length s
    → is_blank (byte_at s (length s - 1)) ≡ false
    → last_not_blank (s ++ b) ≡ some (length s - 1)
unfolding last_not_blank
last_not_blank-append [] b h pos n = absurd (omega arith)
last_not_blank-append (c ∷ []) b h pos n = rw (last_not_blank-Blanks b h, n) refl
last_not_blank-append (c ∷ d ∷ s) b h pos n =
    let i : length (c ∷ d ∷ s) - 1 ≡ suc (length (d ∷ s) - 1) = omega arith in
    let n' = subst (λ k. is_blank (byte_at (c ∷ d ∷ s) k) ≡ false) i n in
    let e : last_not_blank ((d ∷ s) ++ b) ≡ some (length (d ∷ s) - 1) =
      last_not_blank-append (d ∷ s) b h (omega arith) n' in
    rw e (ap some (sym i))

byte_at-behind : (a s : Bytes) (i : ℕ) → byte_at (a ++ s) (length a + i) ≡ byte_at s i
byte_at-behind [] s i = ap (byte_at s) (omega arith)
byte_at-behind (c ∷ a) s i =
    let e : length (c ∷ a) + i ≡ suc (length a + i) = omega arith in rw e (byte_at-behind a s i)

pub trim-IsTrimmed : (a s b : Bytes) → Blanks a → IsTrimmed s → Blanks b → trim (a ++ s ++ b) ≡ s
unfolding trim
trim-IsTrimmed a s b ha t hb =
    let len : length (a ++ s) ≡ length a + length s = length-append a s in
    let pos = t.some_bytes in
    let at : length (a ++ s) - 1 ≡ length a + (length s - 1) = omega (arith, len, pos) in
    let first : first_not_blank (a ++ s ++ b) ≡ some (length a) = rw (append_assoc a s b) (
      first_not_blank-append a (s ++ b) ha (omega (arith, pos, length-append s b))
        (rw (byte_at-append s b 0 pos) t.first)) in
    let last_byte : is_blank (byte_at (a ++ s) (length (a ++ s) - 1)) ≡ false =
      rw (at, byte_at-behind a s (length s - 1)) t.last in
    let last : last_not_blank (a ++ s ++ b) ≡ some (length (a ++ s) - 1) =
      last_not_blank-append (a ++ s) b hb (omega (arith, len, pos)) last_byte in
    let size : length (a ++ s) - 1 - length a + 1 ≡ length s = omega (arith, len, pos) in
    let rest : drop (length a) (a ++ s ++ b) ≡ s ++ b =
      rw (append_assoc a s b) (drop_append_length a (s ++ b)) in
    rw (trim, first, last, size, rest) (take_append_length s b)

last-append :
    (a b : Bytes) → 0 < length b → byte_at (a ++ b) (length (a ++ b) - 1) ≡ byte_at b (length b - 1)
last-append a b pos =
    let at : length (a ++ b) - 1 ≡ length a + (length b - 1) =
      omega (arith, length-append a b, pos) in
    rw at (byte_at-behind a b (length b - 1))

append-IsTrimmed :
    (a b : Bytes)
    → 0 < length a
    → is_blank (byte_at a 0) ≡ false
    → 0 < length b
    → is_blank (byte_at b (length b - 1)) ≡ false
    → IsTrimmed (a ++ b)
append-IsTrimmed a b pos first pos' last = record {
  some_bytes = omega (arith, pos, length-append a b);
  first = rw (byte_at-append a b 0 pos) first;
  last = rw (last-append a b pos') last;
}

-- No blank is the byte `b`.
Blanks-ne : (b : ℕ) (s : Bytes) → is_blank b ≡ false → Blanks s → All (λ c. c ≢ b) s
Blanks-ne b [] n h = tt
Blanks-ne b (c ∷ s) n (e, h) = (λ q. absurd (cc (sym e ∙ ap is_blank q ∙ n)), Blanks-ne b s n h)

All-append :
    (b : ℕ) (s t : Bytes) → All (λ c. c ≢ b) s → All (λ c. c ≢ b) t → All (λ c. c ≢ b) (s ++ t)
All-append b [] t h k = k
All-append b (c ∷ s) t h k = (h.0, All-append b s t h.1 k)

-- What stands behind a value: nothing, or blanks and a comment, which begins with `#` and is taken up
-- to its last character that is no blank.
abbrev pub IsTail : (pad comment : Bytes) → Type 0
IsTail pad [] = pad ≡ []
IsTail pad (c ∷ s) =
    Blanks pad × (c ≡ b'#') × (is_blank (byte_at (c ∷ s) (length (c ∷ s) - 1)) ≡ false)

-- A value without a comment sign.
module _ (value : Bytes) (t : IsTrimmed value) (no_hash : All (λ c. c ≢ b'#') value) where
  tail-IsTrimmed :
      (pad comment : Bytes) → IsTail pad comment → IsTrimmed (value ++ (pad ++ comment))
  tail-IsTrimmed pad [] e = rw (e, append-nil value) t
  tail-IsTrimmed pad (c ∷ s) (blanks, e, last) =
      append-IsTrimmed value (pad ++ c ∷ s) t.some_bytes t.first
        (omega (arith, length-append pad (c ∷ s))) (rw (last-append pad (c ∷ s) (omega arith)) last)

  cut_comment-tail :
      (pad comment : Bytes) → IsTail pad comment → cut_comment (value ++ (pad ++ comment)) ≡ value
  unfolding cut_comment
  cut_comment-tail pad [] e =
      let bare : value ++ (pad ++ []) ≡ value = rw e (append-nil value) in
      ap cut_comment bare ∙ rw (cut_comment, find_byte-none b'#' value no_hash)
  cut_comment-tail pad (c ∷ s) (blanks, e, last) =
      let text = value ++ pad in
      let split : value ++ (pad ++ c ∷ s) ≡ text ++ b'#' ∷ s =
        sym (append_assoc value pad (c ∷ s)) ∙ ap (λ b. text ++ b ∷ s) e in
      let here : find_byte b'#' (text ++ b'#' ∷ s) ≡ some (length text) =
        find_byte_here b'#' text s
          (All-append b'#' value pad no_hash (Blanks-ne b'#' pad refl blanks)) in
      let left : trim text ≡ value = trim-IsTrimmed [] value pad tt t blanks in
      ap cut_comment split ∙ rw (cut_comment, here, take_append_length text (b'#' ∷ s)) left

-- Once the line is trimmed.
module _ (key pad after value : Bytes) (t : IsTrimmed key) (p : Blanks pad)
    (no_eq : All (λ c. c ≢ b'=') key) (no_hash : byte_at key 0 ≢ b'#') where
  setting_trimmed :
      (line : Bytes)
      → trim line ≡ (key ++ pad) ++ b'=' ∷ after
      → cut_comment (trim after) ≡ value
      → 0 < length value
      → setting line ≡ some (key, maybe_unquote value)
  unfolding setting
  setting_trimmed line e cut pos =
      let left = key ++ pad in
      let sv = left ++ b'=' ∷ after in
      let len : length left ≡ length key + length pad = length-append key pad in
      let full : (length sv == 0) ≡ false =
        ground (arith, t.some_bytes, len, length-append left (b'=' ∷ after)) in
      let head : byte_at sv 0 ≡ byte_at key 0 =
        byte_at-append left (b'=' ∷ after) 0 (omega (arith, t.some_bytes, len))
        ∙ byte_at-append key pad 0 t.some_bytes in
      let no_comment : (byte_at key 0 == b'#') ≡ false = ground (arith, no_hash) in
      let here : find_byte b'=' sv ≡ some (length left) =
        find_byte_here b'=' left after
          (All-append b'=' key pad no_eq (Blanks-ne b'=' pad refl p)) in
      let behind : drop (length left + 1) sv ≡ after =
        sym (drop-drop 1 (length left) sv) ∙ ap (drop 1) (drop_append_length left (b'=' ∷ after)) in
      let name : trim left ≡ key = trim-IsTrimmed [] key pad tt t p in
      let some_value : (length value == 0) ≡ false = ground (arith, pos) in
      rw
        (
          setting,
          e,
          full,
          head,
          no_comment,
          here,
          e,
          behind,
          cut,
          some_value,
          take_append_length left (b'=' ∷ after),
          name,
        )
        refl

module _ (key value before_key behind_key before_value behind_value comment behind : Bytes) where
  abbrev pub setting_line : Bytes
  setting_line =
      before_key
      ++ ((key ++ behind_key) ++ b'=' ∷ (before_value ++ (value ++ (behind_value ++ comment))))
      ++ behind

  pub record IsSetting : Type 0 where
    pub blanks_0 : Blanks before_key
    pub blanks_1 : Blanks behind_key
    pub blanks_2 : Blanks before_value
    pub blanks_3 : Blanks behind
    pub key_trimmed : IsTrimmed key
    pub key_no_equals : All (λ c. c ≢ b'=') key
    pub key_no_comment : byte_at key 0 ≢ b'#'
    pub value_trimmed : IsTrimmed value
    pub value_no_comment : All (λ c. c ≢ b'#') value
    pub tail : IsTail behind_value comment

  -- A line that consists of a key, an equals sign and a value, with any blanks before, between and
  -- behind these, and with a comment behind it or none, is read as the key and the value, a value in
  -- quotes without them. Key and value are not to begin or end with a blank, the key contains no equals
  -- sign and does not begin with the comment sign, and the value has no comment sign in it.
  pub setting-setting_line : IsSetting → setting setting_line ≡ some (key, maybe_unquote value)
  setting-setting_line s =
      let tail = behind_value ++ comment in
      let after = before_value ++ (value ++ tail) in
      let sv = (key ++ behind_key) ++ b'=' ∷ after in
      let pos = s.key_trimmed.some_bytes in
      let len : length (key ++ behind_key) ≡ length key + length behind_key =
        length-append key behind_key in
      let inner =
        tail-IsTrimmed value s.value_trimmed s.value_no_comment behind_value comment s.tail in
      let cut : cut_comment (trim after) ≡ value =
        ap cut_comment (
          ap trim (sym (append-nil after))
          ∙ trim-IsTrimmed before_value (value ++ tail) [] s.blanks_2 inner tt)
        ∙ cut_comment-tail value s.value_trimmed s.value_no_comment behind_value comment s.tail in
      let whole_line : IsTrimmed sv =
        append-IsTrimmed (key ++ behind_key) (b'=' ∷ after) (omega (arith, pos, len))
          (rw (byte_at-append key behind_key 0 pos) s.key_trimmed.first) (omega arith)
          (rw (last-append (b'=' ∷ before_value) (value ++ tail) inner.some_bytes) inner.last) in
      setting_trimmed key behind_key after value s.key_trimmed s.blanks_1 s.key_no_equals
        s.key_no_comment setting_line
        (trim-IsTrimmed before_key sv behind s.blanks_0 whole_line s.blanks_3) cut
        s.value_trimmed.some_bytes
