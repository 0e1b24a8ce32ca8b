-- ===== src/Resp/Stream.antt =====
-- What a parser has still to read: the buffer's unread bytes and what the socket will deliver, however
-- it is cut into pieces.
use nano_redis.Prelude.{
  ℕ, ◌+◌, Bool, true, false, List, [], ◌∷◌, ◌++◌, Bytes, ◌≡◌, refl, sym, ap, ◌∙◌, arith,
}
use mathlib.Core.Path.{subst}
use nano_redis.Resp.Buffer.{Parser, done, M, continue, ◌>>=◌, read_char, consume_crlf}

abbrev pub stream : List Bytes → Bytes
stream [] = []
stream (s ∷ later) = s ++ stream later

-- No `recv` fails before the stream is at its end.
abbrev pub NoGap : List Bytes → Type 0
NoGap [] = Unit
NoGap ([] ∷ later) = ⊥
NoGap ((c ∷ s) ∷ later) = NoGap later

-- A parser, by the mode: whether it may read the socket.
abbrev pub in_mode : Bool → ℕ → Bytes → List Bytes → Bool → Parser
in_mode b q u inc need = record {
  pos = q;
  unread = u;
  incoming = inc;
  allow_socket_read = b;
  no_read_need_more = need;
}

abbrev pub online : ℕ → Bytes → List Bytes → Bool → Parser
online = in_mode true

-- What a parser can still get: without the socket, only what is in its buffer.
abbrev pub reachable : Bool → List Bytes → List Bytes
reachable true inc = inc
reachable false inc = []

-- The parser is in mode `b`, and `r` is what it has still to read.
pub record At (b : Bool) (p : Parser) (r : Bytes) : Type 0 where
  pub mode : p.allow_socket_read ≡ b
  pub no_gap : NoGap (reachable b p.incoming)
  pub content : p.unread ++ stream (reachable b p.incoming) ≡ r

-- `m` reads `a` and leaves `r`.
abbrev pub Reads : Bool → {A : Type 0} → M A → A → Parser → Bytes → Type 0
Reads b m a p r = (p' : Parser) × (m p ≡ (done a, p')) × At b p' r

-- A statement about parsers in mode `b` need only be proved of those in the form `in_mode b`.
pub from_mode :
    (b : Bool) (P : Parser → Type 0) (p : Parser)
    → p.allow_socket_read ≡ b
    → P (in_mode b p.pos p.unread p.incoming p.no_read_need_more)
    → P p
from_mode b P p mode h = subst P (λ i. record p { allow_socket_read = sym mode i }) h

read_char-in_mode :
    (b : Bool) (q : ℕ) (u : Bytes) (inc : List Bytes) (need : Bool) (c : ℕ) (r : Bytes)
    → NoGap (reachable b inc)
    → u ++ stream (reachable b inc) ≡ c ∷ r
    → Reads b read_char c (in_mode b q u inc need) r
unfolding read_char
read_char-in_mode b q (x ∷ u) inc need c r g e = (
  in_mode b (q + 1) u inc need,
  ground arith,
  record { mode = refl; no_gap = g; content = ground arith },
)
read_char-in_mode false q [] inc need c r g e = absurd (ground arith)
read_char-in_mode true q [] [] need c r g e = absurd (ground arith)
read_char-in_mode true q [] ([] ∷ inc) need c r g e = absurd g
read_char-in_mode true q [] ((x ∷ u) ∷ inc) need c r g e = (
  online (0 + 1) u inc need,
  ground arith,
  record { mode = refl; no_gap = g; content = ground arith },
)

pub read_char-At :
    {b : Bool} (p : Parser) (c : ℕ) (r : Bytes) → At b p (c ∷ r) → Reads b read_char c p r
read_char-At {b} p c r a =
    from_mode b (λ q. Reads b read_char c q r) p a.mode
      (read_char-in_mode b p.pos p.unread p.incoming p.no_read_need_more c r a.no_gap a.content)

-- Behind a CR, the LF is skipped, also where it comes with the next piece.
pub consume_crlf-in_mode :
    (b : Bool) (q : ℕ) (u : Bytes) (inc : List Bytes) (need : Bool) (r : Bytes)
    → NoGap (reachable b inc)
    → u ++ stream (reachable b inc) ≡ 10 ∷ r
    → At b (consume_crlf true (in_mode b q u inc need)) r
unfolding consume_crlf
consume_crlf-in_mode b q (x ∷ u) inc need r g e =
    let lf : x ≡ 10 = ground arith in
    rw lf (record { mode = refl; no_gap = g; content = ground arith })
consume_crlf-in_mode false q [] inc need r g e = absurd (ground arith)
consume_crlf-in_mode true q [] [] need r g e = absurd (ground arith)
consume_crlf-in_mode true q [] ([] ∷ inc) need r g e = absurd g
consume_crlf-in_mode true q [] ((x ∷ u) ∷ inc) need r g e =
    let lf : x ≡ 10 = ground arith in
    rw lf (record { mode = refl; no_gap = g; content = ground arith })

-- Reading with one action and then with the next.
pub Reads-bind :
    {b : Bool} {A B : Type 0} (m : M A) (f : A → M B) (a : A) (v : B) (p : Parser) (s r : Bytes)
    → Reads b m a p s
    → ((p' : Parser) → At b p' s → Reads b (f a) v p' r)
    → Reads b (m >>= f) v p r
Reads-bind {B = B} m f a v p s r (p', run, here) next =
    let (p'', run', there) = next p' here in
    (p'', ap (λ o. continue {B = B} o.0 f o.1) run ∙ run', there)
