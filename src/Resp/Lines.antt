-- ===== src/Resp/Lines.antt =====
-- The loops that read a line and a bulk string: `FindTerminator`, `ReadLineView`, `ReadInlineLineView`,
-- `ReadBulkStringInto`. Every round but the first takes one result of `recv`, and a round with none
-- left fails, so two rounds more than `incoming` has entries are enough.
use nano_redis.Prelude.{
  ℕ, zero, suc, ◌+◌, ◌-◌, min, Bool, true, false, Option, none, some, [], ◌∷◌, ◌++◌, Bytes, length,
  take, drop, ltb, ◌==◌, if◌then◌else◌,
}
use nano_redis.Prelude.Int.{ℤ, pos, negsuc}
use nano_redis.NanoObj.{NanoObj, null_tag}
use nano_redis.NanoObj.Ops.{
  prepare_string_buffer, write_buffer, finalize_prepared_string, maybe_convert_to_int,
}
use nano_redis.Resp.Buffer.{
  Parser, Outcome, done, fail, fault, stuck, M, ◌>>=◌, pure, fill_buffer, read_char, consume_crlf,
}

-- `std::memchr`, as the offset of the byte.
unfoldable pub memchr : ℕ → Bytes → Option ℕ
memchr c [] = none
memchr c (x ∷ s) =
    let later = memchr c s in
    if x == c then some 0 else elim later [ none ↦ none | some i ↦ some (i + 1) ]

abbrev first_of_two : Option ℕ → Option ℕ → Option (ℕ × Bool)
first_of_two (some lf) (some cr) = if ltb lf cr then some (lf, false) else some (cr, true)
first_of_two (some lf) none = some (lf, false)
first_of_two none (some cr) = some (cr, true)
first_of_two none none = none

-- The offset of the first CR or LF, and whether it is a CR.
unfoldable pub find_terminator : Bytes → Option (ℕ × Bool)
unfolding memchr
find_terminator s = first_of_two (memchr 10 s) (memchr 13 s)

-- The buffer behind `n` more bytes.
abbrev pub advance : ℕ → Parser → Parser
advance n p = record p { pos = p.pos + n; unread = drop n p.unread }

-- `scratch` is `scratch_line`: empty as long as it is not used.
unfoldable pub read_line_loop : ℕ → Bytes → M Bytes
unfolding fill_buffer find_terminator consume_crlf
read_line_loop zero scratch p = (stuck, p)
read_line_loop (suc rounds) scratch p =
    let (filled, p') = fill_buffer p in
    let more = read_line_loop rounds (scratch ++ p'.unread) (advance (length p'.unread) p') in
    if filled
    then elim (find_terminator p'.unread) [
      | none ↦ more
      | some (n, is_cr) ↦
          (done (scratch ++ take n p'.unread), consume_crlf is_cr (advance (suc n) p'))
    ]
    else (fail, p')

unfoldable pub read_line_view : M Bytes
unfolding read_line_loop
read_line_view p = read_line_loop (length p.incoming + 2) [] p

-- The bytes from `first_ptr` to the terminator. In the buffer that it was taken from, `first_ptr` is
-- at `first_char`, just before the unread bytes; once `recv` has filled the buffer anew it is at
-- the new bytes' offset `p0`, and a terminator before it makes the length of the view wrap.
abbrev from_first_ptr : ℕ → ℕ → Parser → ℕ → Outcome Bytes
from_first_ptr first_char p0 p n =
    if ltb p0 p.pos
    then done (first_char ∷ take n p.unread)
    else if ltb (p.pos + n) p0
    then fault
    else done (drop p0 (take n p.unread))

unfoldable pub read_inline_loop : ℕ → ℕ → Option ℕ → Option Bytes → M Bytes
unfolding fill_buffer find_terminator consume_crlf
read_inline_loop zero first_char first_ptr scratch p = (stuck, p)
read_inline_loop (suc rounds) first_char first_ptr scratch p =
    let (filled, p') = fill_buffer p in
    let start : Bytes = elim scratch [ none ↦ first_char ∷ [] | some s ↦ s ] in
    let more =
      read_inline_loop rounds first_char first_ptr (some (start ++ p'.unread))
        (advance (length p'.unread) p') in
    if filled
    then elim (find_terminator p'.unread) [
      | none ↦ more
      | some (n, is_cr) ↦
          let out : Outcome Bytes = elim scratch [
            | some s ↦ done (s ++ take n p'.unread)
            | none ↦ elim first_ptr [
              | some p0 ↦ from_first_ptr first_char p0 p' n
              | none ↦ done (first_char ∷ take n p'.unread)
            ]
          ] in
          (out, consume_crlf is_cr (advance (suc n) p'))
    ]
    else (fail, p')

unfoldable pub read_inline_line_view : ℕ → M Bytes
unfolding read_inline_loop
read_inline_line_view first_char p =
    read_inline_loop (length p.incoming + 2) first_char
      (if ltb 0 p.pos then some (p.pos - 1) else none) none p

unfoldable pub read_bulk_loop : ℕ → ℕ → ℕ → NanoObj → M NanoObj
unfolding fill_buffer
read_bulk_loop zero len total out p = (stuck, p)
read_bulk_loop (suc rounds) len total out p =
    let (filled, p') = fill_buffer p in
    let chunk = min (length p'.unread) (len - total) in
    let more =
      read_bulk_loop rounds len (total + chunk) (write_buffer out (take chunk p'.unread))
        (advance chunk p') in
    if ltb total len then (if filled then more else (fail, p')) else (done out, p)

-- A negative length is the null object; the two bytes of the CRLF are skipped unread.
unfoldable pub read_bulk_string_into : ℤ → M NanoObj
unfolding read_bulk_loop read_char
read_bulk_string_into (negsuc n) = pure null_tag
read_bulk_string_into (pos len) = do
  out ← λ p. read_bulk_loop (length p.incoming + 2) len 0 (prepare_string_buffer len) p
  cr ← read_char
  lf ← read_char
  pure (maybe_convert_to_int (finalize_prepared_string out)).0
