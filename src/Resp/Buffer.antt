-- ===== src/Resp/Buffer.antt =====
-- The parser's state and the reads of single bytes: `FillBuffer`, `ReadChar`, `ConsumeCRLF`.
use nano_redis.Prelude.{
  ℕ, ◌+◌, Bool, true, false, not, is_empty, Option, none, some, List, [], ◌∷◌, Bytes, ◌==◌,
  if◌then◌else◌,
}

-- `pos` is `buffer_pos`, and `unread` are the bytes of `buffer` from there to `buffer_size`. `incoming`
-- are the results of the `recv` calls to come, at most 8192 bytes each: an empty one, and the end of
-- the list, stand for an error or a closed connection.
pub record Parser : Type 0 where
  pub pos : ℕ
  pub unread : Bytes
  pub incoming : List Bytes
  pub allow_socket_read : Bool
  pub no_read_need_more : Bool

-- What a parsing function returns: a result, the code -1, or no result at all: `fault` is a read
-- outside of the buffer, `stuck` a loop of the model that has run out of rounds.
pub data Outcome (A : Type 0) : Type 0 where
  done : A → Outcome A
  fail fault stuck : Outcome A

abbrev pub M : Type 0 → Type 0
M A = Parser → Outcome A × Parser

abbrev pub continue : {A B : Type 0} → Outcome A → (A → M B) → Parser → Outcome B × Parser
continue (done a) f p = f a p
continue fail f p = (fail, p)
continue fault f p = (fault, p)
continue stuck f p = (stuck, p)

infixl 5 ◌>>=◌
abbrev pub ◌>>=◌ : {A B : Type 0} → M A → (A → M B) → M B
◌>>=◌ m f p = continue (m p).0 f (m p).1

abbrev pub pure : {A : Type 0} → A → M A
pure a p = (done a, p)

abbrev pub failure : {A : Type 0} → M A
failure p = (fail, p)

-- An optional number, or -1.
abbrev pub require : {A : Type 0} → Option A → M A
require none = failure
require (some a) = pure a

-- `HasBufferedData`
abbrev pub has_buffered_data : Parser → Bool
has_buffered_data p = not (is_empty p.unread)

abbrev receive : Parser → List Bytes → Bool × Parser
receive p [] = (false, p)
receive p ([] ∷ later) = (false, record p { incoming = later })
receive p ((c ∷ s) ∷ later) = (true, record p { pos = 0; unread = c ∷ s; incoming = later })

abbrev refill : Parser → Bytes → Bool × Parser
refill p [] =
    if p.allow_socket_read
    then receive p p.incoming
    else (false, record p { no_read_need_more = true })
refill p (c ∷ s) = (true, p)

-- `FillBuffer`: true is its 0.
unfoldable pub fill_buffer : Parser → Bool × Parser
fill_buffer p = refill p p.unread

abbrev next_char : Parser → Bytes → Outcome ℕ × Parser
next_char p [] = (done 0, p)
next_char p (c ∷ s) = (done c, record p { pos = p.pos + 1; unread = s })

-- `ReadChar`: the byte 0 where there is none.
unfoldable pub read_char : M ℕ
unfolding fill_buffer
read_char p =
    let (filled, p') = fill_buffer p in if filled then next_char p' p'.unread else (done 0, p')

abbrev skip_lf : Parser → Bytes → Parser
skip_lf p [] = p
skip_lf p (c ∷ s) = if c == 10 then record p { pos = p.pos + 1; unread = s } else p

unfoldable pub consume_crlf : Bool → Parser → Parser
unfolding fill_buffer
consume_crlf false p = p
consume_crlf true p =
    let p' = if has_buffered_data p then p else (fill_buffer p).1 in skip_lf p' p'.unread
