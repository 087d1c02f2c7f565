-- ===== src/Resp/Frame/Stable.antt =====
-- More bytes do not change what src/resp/resp_parser.cc has decided on the bytes before them.
use shunya_kv.Prelude.{
  ℕ, zero, suc, ◌+◌, ◌≤◌, ◌≡◌, ◌⊎◌, inl, inr, refl, true, false, some, ◌++◌, arith, length, take,
  drop, length-drop, length-append, take-append_le, drop-append_le, Option-cases, Bool-cases, leb,
  ltb, ◌==◌, ◌||◌,
}
use shunya_kv.Prelude.Bytes.{
  Bytes, byte_at, byte_at-append, find_byte, find_byte_lt, find_byte-append, cr,
}
use shunya_kv.Resp.Stream.{IntResult, need_more, invalid, ok, int64_min}
use shunya_kv.Resp.Frame.{
  parse_int_crlf, Framed, waits, refused, ends_at, frame_item, frame_items, parse_frame_length,
}

module _ (s more : Bytes) where
  -- A number is read, or refused, as before.
  parse_int_crlf-append :
      (pos : ℕ)
      → (parse_int_crlf s pos ≡ need_more) ⊎ (parse_int_crlf (s ++ more) pos ≡ parse_int_crlf s pos)
  unfolding parse_int_crlf
  parse_int_crlf-append pos = elim (Option-cases (find_byte cr (drop pos s))) [
    | inl n ↦ inl (rw (parse_int_crlf, n))
    | inr (i, f) ↦ elim (Bool-cases (leb (length s) (pos + i + 1))) [
      | inl late ↦ inl (rw (parse_int_crlf, f, late))
      | inr early ↦
          let lt = find_byte_lt cr (drop pos s) f in
          let le : pos ≤ length s = omega (arith, lt, length-drop pos s) in
          let at : byte_at (s ++ more) (pos + i + 1) ≡ byte_at s (pos + i + 1) =
            byte_at-append s more (pos + i + 1) (ground (arith, early)) in
          let early' : leb (length (s ++ more)) (pos + i + 1) ≡ false =
            ground (arith, early, length-append s more) in
          let found : find_byte cr (drop pos (s ++ more)) ≡ some i =
            rw (drop-append_le pos s more le) (find_byte-append cr (drop pos s) more f) in
          let text : take i (drop pos (s ++ more)) ≡ take i (drop pos s) =
            rw (drop-append_le pos s more le)
              (take-append_le i (drop pos s) more (omega (arith, lt))) in
          inr (rw (parse_int_crlf, found, f, early, early', at, text))
    ]
  ]

  pub parse_int_crlf-ends : (pos : ℕ) {v q : ℕ} → parse_int_crlf s pos ≡ ok v q → q ≤ length s
  unfolding parse_int_crlf
  parse_int_crlf-ends pos {v} {q} e = elim (Option-cases (find_byte cr (drop pos s))) [
    | inl n ↦ ground (arith, n)
    | inr (i, f) ↦ ground (arith, f)
  ]

  frame_item-append :
      (pos : ℕ) → (frame_item s pos ≡ waits) ⊎ (frame_item (s ++ more) pos ≡ frame_item s pos)
  unfolding frame_item
  frame_item-append pos = elim (parse_int_crlf-append pos) [
    | inl w ↦ inl (rw (frame_item, w))
    | inr same ↦ hook (parse_int_crlf s pos) refl same
  ]
    where
      hook :
          (r : IntResult)
          → parse_int_crlf s pos ≡ r
          → parse_int_crlf (s ++ more) pos ≡ parse_int_crlf s pos
          → (frame_item s pos ≡ waits) ⊎ (frame_item (s ++ more) pos ≡ frame_item s pos)
      hook need_more e same = inl (rw (frame_item, e))
      hook invalid e same = inr (rw (frame_item, same, e))
      hook (ok v q) e same = elim (Bool-cases (ltb (length s) (q + v + 2))) [
        | inl late ↦ elim (Bool-cases (leb int64_min v)) [
          | inl neg ↦ inr (rw (frame_item, same, e, neg))
          | inr pos ↦ inl (rw (frame_item, e, late, pos))
        ]
        | inr early ↦
            let early' : ltb (length (s ++ more)) (q + v + 2) ≡ false =
              ground (arith, early, length-append s more) in
            let at : byte_at (s ++ more) (q + v) ≡ byte_at s (q + v) =
              byte_at-append s more (q + v) (ground (arith, early)) in
            let at' : byte_at (s ++ more) (q + v + 1) ≡ byte_at s (q + v + 1) =
              byte_at-append s more (q + v + 1) (ground (arith, early)) in
            inr (rw (frame_item, same, e, early, early', at, at'))
      ]

  frame_items-append :
      (left pos : ℕ)
      → (frame_items s left pos ≡ waits)
        ⊎ (frame_items (s ++ more) left pos ≡ frame_items s left pos)
  unfolding frame_items
  frame_items-append zero pos = inr refl
  frame_items-append (suc left) pos = elim (Bool-cases (leb (length s) pos)) [
    | inl late ↦ inl (rw (frame_items, late))
    | inr early ↦
        let early' : leb (length (s ++ more)) pos ≡ false =
          ground (arith, early, length-append s more) in
        let at : byte_at (s ++ more) pos ≡ byte_at s pos =
          byte_at-append s more pos (ground (arith, early)) in
        elim (Bool-cases (byte_at s pos == b'$')) [
          | inr other ↦ inr (rw (frame_items, early, early', at, other))
          | inl dollar ↦ elim (frame_item-append (pos + 1)) [
            | inl w ↦ inl (rw (frame_items, early, dollar, w))
            | inr same ↦
                hook early early' at dollar (frame_item s (pos + 1)) refl same
                  (λ q. frame_items-append left q)
          ]
        ]
  ]
    where
      hook :
          leb (length s) pos ≡ false
          → leb (length (s ++ more)) pos ≡ false
          → byte_at (s ++ more) pos ≡ byte_at s pos
          → (byte_at s pos == b'$') ≡ true
          → (r : Framed) → frame_item s (pos + 1) ≡ r
          → frame_item (s ++ more) (pos + 1) ≡ frame_item s (pos + 1)
          → ((q : ℕ)
              → (frame_items s left q ≡ waits)
                ⊎ (frame_items (s ++ more) left q ≡ frame_items s left q))
          → (frame_items s (suc left) pos ≡ waits)
            ⊎ (frame_items (s ++ more) (suc left) pos ≡ frame_items s (suc left) pos)
      hook early early' at dollar waits e same go_on = inl (rw (frame_items, early, dollar, e))
      hook early early' at dollar refused e same go_on =
          inr (rw (frame_items, early, early', at, dollar, same, e))
      hook early early' at dollar (ends_at q) e same go_on = elim (go_on q) [
        | inl w ↦ inl (rw (frame_items, early, dollar, e) w)
        | inr again ↦ inr (rw (frame_items, early, early', at, dollar, same, e) again)
      ]

  -- Where `parse_frame_length` does not ask for more bytes, its answer stands, whatever bytes follow.
  pub parse_frame_length-append :
      (parse_frame_length s ≡ waits) ⊎ (parse_frame_length (s ++ more) ≡ parse_frame_length s)
  unfolding parse_frame_length
  parse_frame_length-append = elim (Bool-cases (length s == 0)) [
    | inl empty ↦ inl (rw (parse_frame_length, empty))
    | inr full ↦
        let full' : (length (s ++ more) == 0) ≡ false =
          ground (arith, full, length-append s more) in
        let at : byte_at (s ++ more) 0 ≡ byte_at s 0 =
          byte_at-append s more 0 (ground (arith, full)) in
        elim (Bool-cases (byte_at s 0 == b'*')) [
          | inr other ↦ inr (rw (parse_frame_length, full, full', at, other))
          | inl star ↦ elim (parse_int_crlf-append 1) [
            | inl w ↦ inl (rw (parse_frame_length, full, star, w))
            | inr same ↦ hook full full' at star (parse_int_crlf s 1) refl same
          ]
        ]
  ]
    where
      hook :
          (length s == 0) ≡ false
          → (length (s ++ more) == 0) ≡ false
          → byte_at (s ++ more) 0 ≡ byte_at s 0
          → (byte_at s 0 == b'*') ≡ true
          → (r : IntResult) → parse_int_crlf s 1 ≡ r
          → parse_int_crlf (s ++ more) 1 ≡ parse_int_crlf s 1
          → (parse_frame_length s ≡ waits) ⊎ (parse_frame_length (s ++ more) ≡ parse_frame_length s)
      hook full full' at star need_more e same = inl (rw (parse_frame_length, full, star, e))
      hook full full' at star invalid e same =
          inr (rw (parse_frame_length, full, full', at, star, same, e))
      hook full full' at star (ok argc q) e same = elim (frame_items-append argc q) [
        | inl w ↦ elim (Bool-cases (argc == 0 || leb int64_min argc)) [
          | inl bad ↦ inr (rw (parse_frame_length, full, full', at, star, same, e, bad))
          | inr good ↦ inl (rw (parse_frame_length, full, star, e, good) w)
        ]
        | inr again ↦ inr (rw (parse_frame_length, full, full', at, star, same, e, again))
      ]
