-- ===== src/Resp.antt =====
-- src/protocol/resp_parser.cc, include/protocol/resp_parser.h: the RESP replies that the server builds
-- (here) and the parser of requests (in the modules below).
pub mod Buffer
pub mod Lines
pub mod Requests
pub mod Stream
pub mod Reading
pub mod Bulk
pub mod RoundTrip
pub mod Partial
use nano_redis.Prelude.{ℕ, ◌++◌, ◌∷◌, [], List, Bytes, codes, length}
use nano_redis.Prelude.Int.{ℤ}
use nano_redis.Util.{to_digits, to_string}

-- "\r\n"
abbrev pub crlf : Bytes
crlf = 13 ∷ 10 ∷ []

abbrev pub ok_response : Bytes
ok_response = codes "+OK" ++ crlf

abbrev pub pong_response : Bytes
pong_response = codes "+PONG" ++ crlf

abbrev pub null_bulk_response : Bytes
null_bulk_response = codes "$-1" ++ crlf

abbrev pub empty_array_response : Bytes
empty_array_response = codes "*0" ++ crlf

-- The 24 bytes of `buf` hold any 64-bit number, so `ToChars` does not fail and prints like `to_string`.
abbrev pub make_simple_string : Bytes → Bytes
make_simple_string s = b'+' ∷ (s ++ crlf)

abbrev pub make_error : Bytes → Bytes
make_error msg = codes "-ERR " ++ (msg ++ crlf)

abbrev pub make_bulk_string : Bytes → Bytes
make_bulk_string s = b'$' ∷ (to_digits (length s) ++ (crlf ++ (s ++ crlf)))

abbrev pub make_null_bulk_string : Bytes
make_null_bulk_string = null_bulk_response

abbrev pub make_integer : ℤ → Bytes
make_integer value = b':' ∷ (to_string value ++ crlf)

abbrev pub make_array : ℤ → Bytes
make_array count = b'*' ∷ (to_string count ++ crlf)
