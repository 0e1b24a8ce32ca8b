-- ===== src/Resp/Partial.antt =====
-- `TryParseCommandNoRead`, which parses what is in the buffer and nothing else.
use nano_redis.Prelude.{
  ℕ, suc, ◌^◌, ◌<◌, Bool, true, false, List, [], ◌∷◌, ◌++◌, Bytes, length, map, ◌≡◌, refl, sym, ap,
  ◌∙◌, arith, append_assoc, append-nil,
}
use nano_redis.Prelude.Int.{pos}
use nano_redis.Util.{to_digits, to_string}
use nano_redis.NanoObj.{NanoObj, from_key}
use nano_redis.NanoObj.Ops.{prepare_string_buffer}
use nano_redis.NanoObj.Buffer.{stored_bulk-eq-from_key}
use nano_redis.Resp.{make_array, make_bulk_string}
use nano_redis.Resp.Buffer.{Parser, read_char}
use nano_redis.Resp.Lines.{read_line_view, read_bulk_string_into}
use nano_redis.Resp.Requests.{
  read_type, array_item, array_loop, as_int, parse_array, parse_command, TryParseResult, reported,
  try_parse_command_no_read,
}
use nano_redis.Resp.Stream.{in_mode, At, Reads, Reads-bind, from_mode, read_char-At}
use nano_redis.Resp.Bulk.{read_bulk_bytes, read_bulk_bytes-At}
use nano_redis.Resp.RoundTrip.{
  request, AreShort, parse_command-request, string2ll-to_digits, read_number-At, read_dollar-At,
  to_digits-ne-nil, array_item-At, as_int_fits, length-map_key,
}

abbrev pub offline : Parser → Parser
offline p = record p { allow_socket_read = false }

-- What a parse that succeeds makes of the call.
try_parse-Reads :
    (p : Parser) (args : List NanoObj) (r : Bytes)
    → Reads false parse_command args (offline p) r
    → (p' : Parser) × (try_parse_command_no_read p ≡ (TryParseResult.ok, args, p'))
      × (p'.unread ≡ r)
      × (p'.allow_socket_read ≡ p.allow_socket_read)
unfolding try_parse_command_no_read
try_parse-Reads p args r (p', run, a) = (
  record p' { allow_socket_read = p.allow_socket_read },
  ap (λ o. reported p o.0 o.1) run,
  sym (append-nil p'.unread) ∙ a.content,
  refl,
)

-- Where the buffer holds a whole request (a list of fewer than 2^31 bulk strings of less than 64 KiB
-- each) and then any bytes, `TryParseCommandNoRead` returns OK and the bulk strings as keys, leaves
-- the bytes behind the request in the buffer, and the permission to read the socket as it was.
pub try_parse-request :
    (p : Parser) (l : List Bytes) (r : Bytes)
    → length l < 2 ^ 31
    → AreShort l
    → p.unread ≡ request l ++ r
    → (p' : Parser) × (try_parse_command_no_read p ≡ (TryParseResult.ok, map from_key l, p'))
      × (p'.unread ≡ r)
      × (p'.allow_socket_read ≡ p.allow_socket_read)
try_parse-request p l r n h e = try_parse-Reads p (map from_key l) r (
    parse_command-request (offline p) l r n h
      (record { mode = refl; no_gap = tt; content = append-nil p.unread ∙ e }))

-- The bulk strings without the CRLF of the last.
abbrev pub unended : List Bytes → Bytes
unended [] = []
unended (s ∷ []) = b'$' ∷ (to_digits (length s) ++ 13 ∷ 10 ∷ s)
unended (s ∷ x ∷ l) = make_bulk_string s ++ unended (x ∷ l)

-- At the end of the buffer `ReadChar` returns 0 and the parse goes on.
read_char_end : (p : Parser) → At false p [] → Reads false read_char 0 p []
read_char_end p a =
    from_mode false (λ q. Reads false read_char 0 q []) p a.mode
      (at_end p.pos p.unread p.incoming p.no_read_need_more a.content)
  where
    at_end :
        (q : ℕ) (u : Bytes) (inc : List Bytes) (need : Bool)
        → u ++ [] ≡ []
        → Reads false read_char 0 (in_mode false q u inc need) []
    at_end q [] inc need e = (
      in_mode false q [] inc true,
      unfold read_char in refl,
      record { mode = refl; no_gap = tt; content = refl },
    )
    at_end q (c ∷ u) inc need e = absurd (ground arith)

bulk_unended :
    (p : Parser) (s : Bytes)
    → length s < 2 ^ 16
    → At false p s
    → Reads false (read_bulk_string_into (pos (length s))) (from_key s) p []
unfolding read_bulk_string_into
bulk_unended p s h a =
    Reads-bind (read_bulk_bytes (length s) (prepare_string_buffer (length s))) _ _ (from_key s) p []
      [] (read_bulk_bytes-At p (prepare_string_buffer (length s)) s [] (rw append-nil a))
      λ p₁ a₁. Reads-bind read_char _ 0 (from_key s) p₁ [] [] (read_char_end p₁ a₁) λ p₂ a₂.
        Reads-bind read_char _ 0 (from_key s) p₂ [] [] (read_char_end p₂ a₂)
          λ p₃ a₃. (p₃, rw (stored_bulk-eq-from_key s h), a₃)

item_unended :
    (p : Parser) (s : Bytes)
    → length s < 2 ^ 16
    → At false p (unended (s ∷ []))
    → Reads false array_item (from_key s) p []
unfolding array_item
item_unended p s h a =
    let n = length s in
    Reads-bind read_type _ b'$' (from_key s) p _ [] (read_dollar-At p _ a) λ p₁ a₁.
      Reads-bind read_line_view _ (to_digits n) (from_key s) p₁ _ [] (read_number-At p₁ n _ a₁)
        λ p₂ a₂. rw (string2ll-to_digits n (omega arith)) (bulk_unended p₂ s h a₂)

loop_unended :
    (p : Parser) (x : Bytes) (l : List Bytes) (args : List NanoObj)
    → AreShort (x ∷ l)
    → At false p (unended (x ∷ l))
    → Reads false (array_loop (suc (length l)) args) (args ++ map from_key (x ∷ l)) p []
unfolding array_loop
loop_unended p x [] args h a =
    Reads-bind array_item _ (from_key x) (args ++ from_key x ∷ []) p [] [] (item_unended p x h.0 a)
      λ p₁ a₁. (p₁, refl, a₁)
loop_unended p x (y ∷ l) args h a =
    Reads-bind array_item _ (from_key x) (args ++ map from_key (x ∷ y ∷ l)) p (unended (y ∷ l)) []
      (array_item-At p x (unended (y ∷ l)) h.0 a)
      λ p₁ a₁.
        let (p₂, run, a₂) = loop_unended p₁ y l (args ++ from_key x ∷ []) h.1 a₁ in
        (p₂, rw append_assoc at run, a₂)

-- Where the buffer holds a request of at least one bulk string (fewer than 2^31, each of less than 64
-- KiB) but for its last two bytes, the CRLF, `TryParseCommandNoRead` returns OK and all the
-- arguments, with nothing left in the buffer: it does not wait for the CRLF.
pub try_parse-unended :
    (p : Parser) (x : Bytes) (l : List Bytes)
    → suc (length l) < 2 ^ 31
    → AreShort (x ∷ l)
    → p.unread ≡ make_array (pos (suc (length l))) ++ unended (x ∷ l)
    → (p' : Parser) × (try_parse_command_no_read p ≡ (TryParseResult.ok, map from_key (x ∷ l), p'))
      × (p'.unread ≡ [])
      × (p'.allow_socket_read ≡ p.allow_socket_read)
unfolding parse_command parse_array
try_parse-unended p x l n h e =
    let count = suc (length l) in
    let shape : p.unread ++ [] ≡ b'*' ∷ (to_digits count ++ 13 ∷ 10 ∷ unended (x ∷ l)) =
      append-nil p.unread ∙ e ∙ (unfold to_string in simp append_assoc) in
    let start = record p { allow_socket_read = false; no_read_need_more = false } in
    try_parse-Reads p (map from_key (x ∷ l)) [] (
      Reads-bind read_char _ b'*' (map from_key (x ∷ l)) start _ []
        (read_char-At start b'*' _ (record { mode = refl; no_gap = tt; content = shape }))
        λ p₁ a₁.
          Reads-bind read_line_view _ (to_digits count) (map from_key (x ∷ l)) p₁ _ []
            (read_number-At p₁ count _ a₁)
            λ p₂ a₂.
              rw (to_digits-ne-nil, string2ll-to_digits count (omega arith))
                (Reads-bind (array_loop (suc (length l)) []) as_int (map from_key (x ∷ l))
                  (map from_key (x ∷ l)) p₂ [] [] (loop_unended p₂ x l [] h a₂)
                  λ p₃ a₃. (
                    p₃,
                    as_int_fits (map from_key (x ∷ l)) p₃
                        (omega (arith, n, length-map_key (x ∷ l))),
                    a₃,
                  )))
