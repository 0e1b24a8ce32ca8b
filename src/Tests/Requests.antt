-- ===== src/Tests/Requests.antt =====
-- The request `GET 12`, cut into two pieces by the socket, in the buffer, and without its last CRLF.
use nano_redis.Prelude.{
  true, false, List, [], ◌∷◌, ◌++◌, Bytes, codes, take, drop, ◌≡◌, refl, arith,
}
use nano_redis.Prelude.Int.{pos}
use nano_redis.Util.{to_string, to_digits}
use nano_redis.NanoObj.{from_key}
use nano_redis.Resp.{make_array}
use nano_redis.Resp.Buffer.{Parser}
use nano_redis.Resp.Requests.{parse_command, TryParseResult, try_parse_command_no_read}
use nano_redis.Resp.Stream.{At, Reads}
use nano_redis.Resp.RoundTrip.{request, parse_command-request}
use nano_redis.Resp.Partial.{try_parse-request, unended, try_parse-unended}

abbrev get_12 : List Bytes
get_12 = codes "GET" ∷ codes "12" ∷ []

abbrev connection : Parser
connection = record {
  pos = 0;
  unread = take 9 (request get_12);
  incoming = drop 9 (request get_12) ∷ [];
  allow_socket_read = true;
  no_read_need_more = false;
}

connection-At : At true connection (request get_12 ++ [])
unfolding to_string to_digits
connection-At = record { mode = refl; no_gap = tt; content = refl }

parse_command-request_example :
    Reads true parse_command (from_key (codes "GET") ∷ from_key (codes "12") ∷ []) connection []
parse_command-request_example =
    parse_command-request connection get_12 [] (omega arith) (omega arith, (omega arith, tt))
      connection-At

abbrev buffered : Bytes → Parser
buffered s = record {
  pos = 0;
  unread = s;
  incoming = [];
  allow_socket_read = true;
  no_read_need_more = false;
}

try_parse-request_example :
    (p' : Parser) × (try_parse_command_no_read (buffered (request get_12 ++ b'*' ∷ []))
      ≡ (TryParseResult.ok, from_key (codes "GET") ∷ from_key (codes "12") ∷ [], p'))
    × (p'.unread ≡ b'*' ∷ [])
    × (p'.allow_socket_read ≡ true)
try_parse-request_example =
    try_parse-request (buffered (request get_12 ++ b'*' ∷ [])) get_12 (b'*' ∷ []) (omega arith)
      (omega arith, (omega arith, tt)) refl

try_parse-unended_example :
    (p' : Parser) × (try_parse_command_no_read (buffered (make_array (pos 2) ++ unended get_12))
      ≡ (TryParseResult.ok, from_key (codes "GET") ∷ from_key (codes "12") ∷ [], p'))
    × (p'.unread ≡ [])
    × (p'.allow_socket_read ≡ true)
try_parse-unended_example =
    try_parse-unended (buffered (make_array (pos 2) ++ unended get_12)) (codes "GET")
      (codes "12" ∷ []) (omega arith) (omega arith, (omega arith, tt)) refl
