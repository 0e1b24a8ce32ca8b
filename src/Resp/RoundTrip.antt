-- ===== src/Resp/RoundTrip.antt =====
-- `ParseCommand` of src/protocol/resp_parser.cc on a request as clients spell it.
use nano_redis.Prelude.{
  ℕ, zero, suc, ◌^◌, ◌≤◌, ◌<◌, Bool, true, false, some, ltb, ◌%◌, ap, List, [], ◌∷◌, ◌++◌, Bytes,
  length, map, is_empty, ◌≡◌, refl, arith, append_assoc, append-nil,
}
use nano_redis.Prelude.Int.{pos, int64_max}
use nano_redis.Util.{to_digits, string2ll, to_string}
use nano_redis.Util.Decimal.{AreDigits, to_digits-AreDigits, to_digits-Leads, Leads}
use nano_redis.Util.Canonical.{string2ll-to_string}
use nano_redis.NanoObj.{NanoObj, from_key}
use nano_redis.Resp.{make_array, make_bulk_string}
use nano_redis.Resp.Buffer.{Parser, pure, read_char}
use nano_redis.Resp.Lines.{read_line_view}
use nano_redis.Resp.Requests.{read_type, array_item, array_loop, as_int, parse_array, parse_command}
use nano_redis.Resp.Stream.{At, Reads, Reads-bind, read_char-At}
use nano_redis.Resp.Reading.{NoTerminator, read_line_view-At}
use nano_redis.Resp.Bulk.{read_bulk_string_into-At}

-- The arguments as bulk strings, and a request.
abbrev pub bulk_strings : List Bytes → Bytes
bulk_strings [] = []
bulk_strings (s ∷ l) = make_bulk_string s ++ bulk_strings l

abbrev pub request : List Bytes → Bytes
request l = make_array (pos (length l)) ++ bulk_strings l

-- Every argument is shorter than 64 KiB.
abbrev pub AreShort : List Bytes → Type 0
AreShort [] = Unit
AreShort (s ∷ l) = (length s < 2 ^ 16) × AreShort l

NoTerminator-digits : (s : Bytes) → AreDigits s → NoTerminator s
NoTerminator-digits [] d = tt
NoTerminator-digits (c ∷ s) d = (omega arith, omega arith, NoTerminator-digits s d.2)

pub string2ll-to_digits : (n : ℕ) → n ≤ int64_max → string2ll (to_digits n) ≡ some (pos n)
string2ll-to_digits n h = unfold to_string in string2ll-to_string (pos n) h

-- A line of digits.
pub read_number-At :
    {b : Bool} (p : Parser) (n : ℕ) (r : Bytes)
    → At b p (to_digits n ++ 13 ∷ 10 ∷ r)
    → Reads b read_line_view (to_digits n) p r
read_number-At p n r a =
    read_line_view-At p (to_digits n) r (NoTerminator-digits (to_digits n) (to_digits-AreDigits n))
      a

make_bulk_string-append :
    (s r : Bytes)
    → make_bulk_string s ++ r ≡ b'$' ∷ (to_digits (length s) ++ 13 ∷ 10 ∷ (s ++ 13 ∷ 10 ∷ r))
make_bulk_string-append s r = simp append_assoc

pub read_dollar-At :
    {b : Bool} (p : Parser) (r : Bytes) → At b p (b'$' ∷ r) → Reads b read_type b'$' p r
read_dollar-At p r a =
    Reads-bind read_char _ b'$' b'$' p r r (read_char-At p b'$' r a) λ p₁ a₁. (p₁, refl, a₁)

-- One bulk string is read back as its key.
pub array_item-At :
    {b : Bool} (p : Parser) (s r : Bytes)
    → length s < 2 ^ 16
    → At b p (make_bulk_string s ++ r)
    → Reads b array_item (from_key s) p r
unfolding array_item
array_item-At {b} p s r h a =
    let n = length s in
    let a' : At b p (b'$' ∷ (to_digits n ++ 13 ∷ 10 ∷ (s ++ 13 ∷ 10 ∷ r))) =
      rw make_bulk_string-append at a in
    Reads-bind read_type _ b'$' (from_key s) p _ r (read_dollar-At p _ a') λ p₁ a₁.
      Reads-bind read_line_view _ (to_digits n) (from_key s) p₁ _ r (read_number-At p₁ n _ a₁)
        λ p₂ a₂. rw (string2ll-to_digits n (omega arith)) (read_bulk_string_into-At p₂ s r h a₂)

array_loop-At :
    {b : Bool} (p : Parser) (l : List Bytes) (args : List NanoObj) (r : Bytes)
    → AreShort l
    → At b p (bulk_strings l ++ r)
    → Reads b (array_loop (length l) args) (args ++ map from_key l) p r
unfolding array_loop
array_loop-At p [] args r h a = (p, rw append-nil, a)
array_loop-At p (s ∷ l) args r h a =
    Reads-bind array_item _ (from_key s) (args ++ map from_key (s ∷ l)) p (bulk_strings l ++ r) r
      (array_item-At p s (bulk_strings l ++ r) h.0 (rw append_assoc at a))
      λ p₁ a₁.
        let (p₂, run, a₂) = array_loop-At p₁ l (args ++ from_key s ∷ []) r h.1 a₁ in
        (p₂, rw append_assoc at run, a₂)

is_empty-false : (s : Bytes) → Leads s → is_empty s ≡ false
is_empty-false [] l = absurd l
is_empty-false (c ∷ s) l = refl

pub to_digits-ne-nil : (n : ℕ) → is_empty (to_digits n) ≡ false
to_digits-ne-nil zero = unfold to_digits in refl
to_digits-ne-nil (suc n) =
    is_empty-false (to_digits (suc n)) (to_digits-Leads (suc n) (omega arith))

-- The conversion of the result keeps a number of arguments below 2^31.
pub as_int_fits :
    (args : List NanoObj) (p : Parser) → length args < 2 ^ 31 → as_int args p ≡ pure args p
as_int_fits args p h =
    let fits : ltb (length args % 2 ^ 32) (2 ^ 31) ≡ true = ground (arith, h) in rw fits refl

pub length-map_key : (l : List Bytes) → length (map from_key l) ≡ length l
length-map_key [] = refl
length-map_key (s ∷ l) = ap suc (length-map_key l)

-- Behind the `*`: the number of arguments and the arguments.
parse_array-At :
    {b : Bool} (p : Parser) (l : List Bytes) (r : Bytes)
    → length l < 2 ^ 31
    → AreShort l
    → At b p (to_digits (length l) ++ 13 ∷ 10 ∷ (bulk_strings l ++ r))
    → Reads b parse_array (map from_key l) p r
unfolding parse_array
parse_array-At p l r n h a =
    Reads-bind read_line_view _ (to_digits (length l)) (map from_key l) p _ r
      (read_number-At p (length l) _ a)
      λ p₁ a₁.
        rw (to_digits-ne-nil, string2ll-to_digits (length l) (omega (arith, n)))
          (Reads-bind (array_loop (length l) []) as_int (map from_key l) (map from_key l) p₁ r r
            (array_loop-At p₁ l [] r h a₁)
            λ p₂ a₂. (p₂, as_int_fits (map from_key l) p₂ (omega (arith, n, length-map_key l)), a₂))

request-append :
    (l : List Bytes) (r : Bytes)
    → request l ++ r ≡ b'*' ∷ (to_digits (length l) ++ 13 ∷ 10 ∷ (bulk_strings l ++ r))
request-append l r = unfold to_string in simp append_assoc

-- A parser whose unread bytes and later receives, however the socket cuts them, spell a request (a
-- list of fewer than 2^31 bulk strings of less than 64 KiB each, for which `args.reserve` finds the
-- memory) and then any bytes `r`: `ParseCommand` returns the bulk strings as keys and stops right
-- before `r`. In the mode without the socket the request has to stand in the buffer.
pub parse_command-request :
    {b : Bool} (p : Parser) (l : List Bytes) (r : Bytes)
    → length l < 2 ^ 31
    → AreShort l
    → At b p (request l ++ r)
    → Reads b parse_command (map from_key l) p r
unfolding parse_command
parse_command-request {b} p l r n h a =
    let a' : At b p (b'*' ∷ (to_digits (length l) ++ 13 ∷ 10 ∷ (bulk_strings l ++ r))) =
      rw request-append at a in
    Reads-bind read_char _ b'*' (map from_key l) (record p { no_read_need_more = false }) _ r
      (read_char-At _ b'*' _ (record { mode = a'.mode; no_gap = a'.no_gap; content = a'.content }))
      λ p₁ a₁. parse_array-At p₁ l r n h a₁
