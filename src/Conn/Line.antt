-- ===== src/Conn/Line.antt =====
-- src/conn/socket_handler.cc and src/conn/LineEchoHandler.cc: the hook that a handler has by default,
-- which cuts the input into lines, and the reply of the echo handler; and the frame that a connection
-- may begin with.
use shunya_kv.Prelude.{
  ℕ, zero, suc, ◌+◌, ◌-◌, ◌≡◌, ◌≢◌, refl, sym, ap, ◌∙◌, Bool, true, false, not, ◌&&◌, none, some,
  List, [], ◌∷◌, ◌++◌, append_assoc, arith, length, length-append, take, drop, All, ◌==◌,
  if◌then◌else◌, drop_append_length, take_append_length,
}
use shunya_kv.Prelude.Bytes.{
  find_byte-none, byte_at-length, Bytes, codes, cr, lf, crlf, byte_at, find_byte, find_byte_here,
}
use shunya_kv.Resp.{ParsedRequest}
use shunya_kv.Conn.{Extracted, extracts, throws}

-- A carriage return at the end of a line is left out.
unfoldable pub strip_cr : Bytes → Bytes
strip_cr req =
    if not (length req == 0) && byte_at req (length req - 1) == cr
    then take (length req - 1) req
    else req

abbrev pub line_request : Bytes → ParsedRequest
line_request line = record { frame = line; argv = [] }

-- The default `try_extract_request`; it keeps nothing between two calls.
unfoldable pub try_extract_line : Unit {0} → Bytes → Extracted (Unit {0})
try_extract_line p buf = elim (find_byte lf buf) [
  | none ↦ extracts p buf none
  | some pos ↦ extracts p (drop (pos + 1) buf) (some (line_request (strip_cr (take pos buf))))
]

-- The inner loop of `read_loop_impl` with that hook, for a number of calls: the requests that it
-- hands on, and the buffer that is left.
unfoldable pub extract_lines : ℕ → Bytes → List ParsedRequest × Bytes
extract_lines zero buf = ([], buf)
extract_lines (suc calls) buf = elim (try_extract_line tt buf) [
  | extracts p rest none ↦ ([], rest)
  | extracts p rest (some r) ↦
      let (requests, left) = extract_lines calls rest in (r ∷ requests, left)
  | throws ↦ ([], buf)
]

-- `LineEchoHandler::handle_request`.
abbrev pub echo : ParsedRequest → Bytes
echo r = r.frame ++ lf ∷ []

-- `send_shard_details`: the printed JSON as a bulk string.
abbrev pub shard_details : (to_sstring : ℕ → Bytes) → Bytes → Bytes
shard_details to_sstring json = codes "$" ++ to_sstring (length json) ++ crlf ++ json ++ crlf

-- A line without its end: no newline in it, no carriage return last.
abbrev pub IsLine : Bytes → Type 0
IsLine line = All (λ c. c ≢ lf) line × (byte_at line (length line - 1) ≢ cr)

abbrev pub line_end : Bool → Bytes
line_end true = crlf
line_end false = lf ∷ []

abbrev pub on_wire : List (Bytes × Bool) → Bytes → Bytes
on_wire [] tail = tail
on_wire ((line, with_cr) ∷ lines) tail = line ++ line_end with_cr ++ on_wire lines tail

abbrev pub AllLines : List (Bytes × Bool) → Type 0
AllLines [] = Unit
AllLines ((line, with_cr) ∷ lines) = IsLine line × AllLines lines

abbrev pub line_requests : List (Bytes × Bool) → List ParsedRequest
line_requests [] = []
line_requests ((line, with_cr) ∷ lines) = line_request line ∷ line_requests lines

strip_cr-snoc : (line : Bytes) → strip_cr (line ++ cr ∷ []) ≡ line
unfolding strip_cr
strip_cr-snoc line =
    let size : length (line ++ cr ∷ []) ≡ suc (length line) =
      omega (arith, length-append line (cr ∷ [])) in
    let last : suc (length line) - 1 ≡ length line = omega arith in
    rw (size, last, byte_at-length line cr [], take_append_length line (cr ∷ [])) (ground arith)

strip_cr-IsLine : (line : Bytes) → byte_at line (length line - 1) ≢ cr → strip_cr line ≡ line
unfolding strip_cr
strip_cr-IsLine line h = ground (arith, h)

try_extract_line-tail :
    (tail : Bytes) → All (λ c. c ≢ lf) tail → try_extract_line tt tail ≡ extracts tt tail none
unfolding try_extract_line
try_extract_line-tail tail t = rw (try_extract_line, find_byte-none lf tail t)

module _ (segment rest : Bytes) (h : All (λ c. c ≢ lf) segment) where
  try_extract_line-segment :
      try_extract_line tt (segment ++ lf ∷ rest)
      ≡ extracts tt rest (some (line_request (strip_cr segment)))
  unfolding try_extract_line
  try_extract_line-segment =
      let size : length segment + 1 ≡ length (segment ++ lf ∷ []) =
        sym (length-append segment (lf ∷ [])) in
      let behind : drop (length segment + 1) (segment ++ lf ∷ rest) ≡ rest =
        rw (size, ← append_assoc segment (lf ∷ []) rest)
          (drop_append_length (segment ++ lf ∷ []) rest) in
      rw (
        try_extract_line,
        find_byte_here lf segment rest h,
        behind,
        take_append_length segment (lf ∷ rest),
      )

All-snoc : (line : Bytes) → All (λ c. c ≢ lf) line → All (λ c. c ≢ lf) (line ++ cr ∷ [])
All-snoc [] h = ground arith
All-snoc (c ∷ s) (n, h) = (n, All-snoc s h)

-- One call, on a line with its end.
try_extract_line-one :
    (line : Bytes) (with_cr : Bool) (rest : Bytes)
    → IsLine line
    → try_extract_line tt (line ++ line_end with_cr ++ rest)
      ≡ extracts tt rest (some (line_request line))
try_extract_line-one line true rest (h, e) =
    ap (try_extract_line tt) (split line)
    ∙ try_extract_line-segment (line ++ cr ∷ []) rest (All-snoc line h)
    ∙ ap (λ s. extracts tt rest (some (line_request s))) (strip_cr-snoc line)
  where
    split : (s : Bytes) → (s ++ crlf) ++ rest ≡ (s ++ cr ∷ []) ++ lf ∷ rest
    split [] = refl
    split (c ∷ s) = ap (◌∷◌ c) (split s)
try_extract_line-one line false rest (h, e) =
    ap (try_extract_line tt) (append_assoc line (lf ∷ []) rest)
    ∙ try_extract_line-segment line rest h
    ∙ ap (λ s. extracts tt rest (some (line_request s))) (strip_cr-IsLine line e)

-- Lines that arrive one behind the other, each ended by CR LF or by LF alone, come out as the requests
-- with these lines, in order, and an unfinished line behind them stays in the buffer; the loop of the
-- read loop makes one call for each, and one that finds no more.
pub extract_lines-on_wire :
    (lines : List (Bytes × Bool)) (tail : Bytes)
    → AllLines lines
    → All (λ c. c ≢ lf) tail
    → extract_lines (suc (length lines)) (on_wire lines tail) ≡ (line_requests lines, tail)
unfolding extract_lines
extract_lines-on_wire [] tail h t =
    let e : try_extract_line tt tail ≡ extracts tt tail none = try_extract_line-tail tail t in
    rw (extract_lines, e)
extract_lines-on_wire ((line, with_cr) ∷ lines) tail (h, hs) t = rw (
  extract_lines,
  try_extract_line-one line with_cr (on_wire lines tail) h,
  extract_lines-on_wire lines tail hs t,
)
