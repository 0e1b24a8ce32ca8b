-- ===== src/Resp/Requests.antt =====
-- The parsing functions: `ParseInlineCommand`, `ParseArray`, `ParseValue`, `ParseCommand` and
-- `TryParseCommandNoRead`. `args.reserve(count)` is not modelled.
use nano_redis.Prelude.{
  ℕ, zero, suc, Bool, false, is_empty, ◌||◌, List, [], ◌∷◌, ◌++◌, Bytes, length, ◌==◌,
  if◌then◌else◌, ltb, ◌%◌, ◌^◌,
}
use nano_redis.Prelude.Int.{ℤ, pos, negsuc}
use nano_redis.Util.{string2ll}
use nano_redis.NanoObj.{NanoObj, from_key, from_int}
use nano_redis.Resp.Buffer.{Parser, Outcome, done, M, ◌>>=◌, pure, failure, require, read_char}
use nano_redis.Resp.Lines.{read_line_view, read_inline_line_view, read_bulk_string_into}

abbrev pub is_blank : ℕ → Bool
is_blank c = c == b' ' || c == 9

unfoldable pub skip_blanks : Bytes → Bytes
skip_blanks [] = []
skip_blanks (c ∷ s) = if is_blank c then skip_blanks s else c ∷ s

-- A token and what follows it.
unfoldable pub span_token : Bytes → Bytes × Bytes
span_token [] = ([], [])
span_token (c ∷ s) =
    let (token, later) = span_token s in if is_blank c then ([], c ∷ s) else (c ∷ token, later)

-- Every round takes a token, so one round more than the line has bytes is enough.
unfoldable pub inline_loop : ℕ → Bytes → List NanoObj
unfolding skip_blanks span_token
inline_loop zero s = []
inline_loop (suc rounds) s =
    let (token, later) = span_token (skip_blanks s) in
    let more = inline_loop rounds later in if is_empty token then [] else from_key token ∷ more

unfoldable pub parse_inline_command : Bytes → M (List NanoObj)
unfolding inline_loop
parse_inline_command line =
    let args = inline_loop (suc (length line)) line in if is_empty args then failure else pure args

-- A CR or LF before the type byte is skipped.
abbrev pub read_type : M ℕ
read_type = do c ← read_char; if c == 13 || c == 10 then read_char else pure c

unfoldable pub array_item : M NanoObj
unfolding read_char read_line_view read_bulk_string_into
array_item = do
  c ← read_type
  if c == b'$'
      then (do
        len_str ← read_line_view
        len ← require (string2ll len_str)
        read_bulk_string_into len)
      else if c == b'+' || (c == b':' || c == b'-')
      then (do sv ← read_line_view; pure (from_key sv))
      else failure

unfoldable pub array_loop : ℕ → List NanoObj → M (List NanoObj)
unfolding array_item
array_loop zero args = pure args
array_loop (suc count) args = do o ← array_item; array_loop count (args ++ o ∷ [])

-- `return static_cast<int>(args.size())`: a negative result is a failure to every caller.
abbrev pub as_int : List NanoObj → M (List NanoObj)
as_int args = if ltb (length args % 2 ^ 32) (2 ^ 31) then pure args else failure

abbrev pub array_of : ℤ → M (List NanoObj)
array_of (negsuc n) = pure []
array_of (pos count) = do args ← array_loop count []; as_int args

unfoldable pub parse_array : M (List NanoObj)
unfolding array_loop read_line_view
parse_array = do
  line ← read_line_view
  if is_empty line then failure else (do count ← require (string2ll line); array_of count)

pub data DataType : Type 0 where
  simple_string error integer bulk_string array inline_command : DataType

-- `array_value` is never filled, and left out.
pub record ParsedValue : Type 0 where
  pub type : DataType
  pub obj_value : NanoObj

unfoldable pub parse_value : M ParsedValue
unfolding read_char read_line_view read_bulk_string_into
parse_value = do
  c ← read_type
  if c == b'+'
      then (do sv ← read_line_view; pure (record { type = simple_string; obj_value = from_key sv }))
      else if c == b'-'
      then (do sv ← read_line_view; pure (record { type = error; obj_value = from_key sv }))
      else if c == b':'
      then (do
        sv ← read_line_view
        v ← require (string2ll sv)
        pure (record { type = integer; obj_value = from_int v }))
      else if c == b'$'
      then (do
        sv ← read_line_view
        len ← require (string2ll sv)
        o ← read_bulk_string_into len
        pure (record { type = bulk_string; obj_value = o }))
      else failure

command_body : M (List NanoObj)
unfolding read_char parse_array read_inline_line_view parse_inline_command
command_body = do
  c ← read_char
  if c == 0
      then failure
      else if c == b'*'
      then parse_array
      else (do line ← read_inline_line_view c; parse_inline_command line)

unfoldable pub parse_command : M (List NanoObj)
unfolding command_body
parse_command p = command_body (record p { no_read_need_more = false })

pub data TryParseResult : Type 0 where
  ok need_more error : TryParseResult

-- What the outcome of the parse makes of the call from `p`: the position goes back where the parse has
-- failed. (`recv` is not called, so the buffer itself is the one from before.)
abbrev pub reported :
    Parser → Outcome (List NanoObj) → Parser → TryParseResult × List NanoObj × Parser
reported p (done args) p' =
    (TryParseResult.ok, args, record p' { allow_socket_read = p.allow_socket_read })
reported p out p' = (
  if p'.no_read_need_more then TryParseResult.need_more else TryParseResult.error,
  [],
  record p { no_read_need_more = p'.no_read_need_more },
)

unfoldable pub try_parse_command_no_read : Parser → TryParseResult × List NanoObj × Parser
try_parse_command_no_read p =
    let parsed = parse_command (record p { allow_socket_read = false }) in
    reported p parsed.0 parsed.1
