-- ===== src/Resp/Reading.antt =====
-- `ReadLineView` of src/protocol/resp_parser.cc on a line, in both modes of the parser.
use nano_redis.Prelude.{
  ℕ, zero, suc, ◌+◌, ◌<◌, Bool, true, false, Option, none, some, List, [], ◌∷◌, ◌++◌, Bytes, length,
  ◌==◌, if◌then◌else◌, ◌≡◌, ◌≢◌, ◌⊎◌, inl, inr, refl, ap, ◌∙◌, arith, append_assoc, take, drop,
  take_prefix,
}
use nano_redis.Resp.Buffer.{Parser, consume_crlf}
use nano_redis.Resp.Lines.{find_terminator, read_line_loop, read_line_view, advance}
use nano_redis.Resp.Stream.{
  stream, NoGap, in_mode, online, reachable, At, Reads, from_mode, consume_crlf-in_mode,
}

-- No CR and no LF.
abbrev pub NoTerminator : Bytes → Type 0
NoTerminator [] = Unit
NoTerminator (c ∷ s) = (c ≢ 10) × (c ≢ 13) × NoTerminator s

abbrev bump : Option (ℕ × Bool) → Option (ℕ × Bool)
bump none = none
bump (some (n, is_cr)) = some (n + 1, is_cr)

find_terminator-cons :
    (c : ℕ) (s : Bytes)
    → find_terminator (c ∷ s) ≡ (
        if c == 10
        then some (0, false)
        else if c == 13
        then some (0, true)
        else bump (find_terminator s))
unfolding find_terminator
find_terminator-cons c s = ground arith

-- Where the buffer ends against a line: inside of it, or behind its CR.
abbrev Split : Bytes → Bytes → Bytes → Bytes → Type 0
Split u t line r =
    ((later : Bytes) × (line ≡ u ++ later)
      × (t ≡ later ++ 13 ∷ 10 ∷ r)
      × (find_terminator u ≡ none)
      × NoTerminator later)
    ⊎ ((u' : Bytes) × (u ≡ line ++ 13 ∷ u')
        × (u' ++ t ≡ 10 ∷ r)
        × (find_terminator u ≡ some (length line, true)))

Split-line :
    (u t line r : Bytes) → NoTerminator line → u ++ t ≡ line ++ 13 ∷ 10 ∷ r → Split u t line r
Split-line [] t line r h e = inl (line, refl, e, unfold find_terminator in refl, h)
Split-line (c ∷ u) t [] r h e =
    inr (u, ground arith, ground arith, ground (arith, find_terminator-cons c u))
Split-line (c ∷ u) t (x ∷ line) r h e = elim (Split-line u t line r h.2 (ground arith)) [
  | inl (later, el, et, ef, eh) ↦
      inl (later, ground arith, et, ground (arith, find_terminator-cons c u), eh)
  | inr (u', eu, et, ef) ↦ inr (u', ground arith, et, ground (arith, find_terminator-cons c u))
]

drop-suc_prefix : (xs : Bytes) (c : ℕ) (ys : Bytes) → drop (suc (length xs)) (xs ++ c ∷ ys) ≡ ys
drop-suc_prefix [] c ys = refl
drop-suc_prefix (x ∷ xs) c ys = drop-suc_prefix xs c ys

line_out :
    (scratch u line : Bytes) (u' : Bytes)
    → u ≡ line ++ 13 ∷ u'
    → (scratch ++ take (length line) u ≡ scratch ++ line) × (drop (suc (length line)) u ≡ u')
line_out scratch u line u' e =
    rw e (ap (λ (t : Bytes). scratch ++ t) (take_prefix line (13 ∷ u')), drop-suc_prefix line 13 u')

add-two : (n : ℕ) → n + 2 ≡ suc (suc n)
add-two n = omega arith

add-suc_two : (n : ℕ) → suc n + 2 ≡ suc (suc (suc n))
add-suc_two n = omega arith

append-ne-nil : (later r : Bytes) → [] ≡ later ++ 13 ∷ r → ⊥
append-ne-nil [] r e = ground arith
append-ne-nil (c ∷ later) r e = ground arith

drop_all : (s : Bytes) → drop (length s) s ≡ []
drop_all [] = refl
drop_all (c ∷ s) = drop_all s

-- The round that finds the terminator.
read_line_last :
    (b : Bool) (rounds q : ℕ) (scratch : Bytes) (c : ℕ) (s : Bytes) (inc : List Bytes) (need : Bool)
    (line u' r : Bytes)
    → NoGap (reachable b inc)
    → c ∷ s ≡ line ++ 13 ∷ u'
    → u' ++ stream (reachable b inc) ≡ 10 ∷ r
    → find_terminator (c ∷ s) ≡ some (length line, true)
    → Reads b
        (read_line_loop (suc rounds) scratch)
        (scratch ++ line)
        (in_mode b q (c ∷ s) inc need)
        r
unfolding read_line_loop
read_line_last b rounds q scratch c s inc need line u' r g eu et ef =
    let (o, d) = line_out scratch (c ∷ s) line u' eu in
    (
      consume_crlf true (in_mode b (q + suc (length line)) u' inc need),
      rw ef (rw (o, d) refl),
      consume_crlf-in_mode b (q + suc (length line)) u' inc need r g et,
    )

pub advance_all :
    (pos c : ℕ) (s : Bytes) (inc : List Bytes) (need : Bool)
    → advance (suc (length s)) (online pos (c ∷ s) inc need)
      ≡ online (pos + suc (length s)) [] inc need
advance_all pos c s inc need = λ i. online (pos + suc (length s)) (drop_all s i) inc need

take_buffer :
    (rounds pos : ℕ) (scratch : Bytes) (c : ℕ) (s : Bytes) (inc : List Bytes) (need : Bool)
    → find_terminator (c ∷ s) ≡ none
    → read_line_loop (suc rounds) scratch (online pos (c ∷ s) inc need)
      ≡ read_line_loop rounds
          (scratch ++ c ∷ s)
          (advance (suc (length s)) (online pos (c ∷ s) inc need))
unfolding read_line_loop
take_buffer rounds pos scratch c s inc need ef = rw ef refl

-- A round that takes the whole buffer, and the next that fills it.
read_line_next :
    (rounds pos : ℕ) (scratch : Bytes) (c : ℕ) (s : Bytes) (x : ℕ) (v : Bytes) (inc : List Bytes)
    (need : Bool)
    → find_terminator (c ∷ s) ≡ none
    → read_line_loop (suc (suc rounds)) scratch (online pos (c ∷ s) ((x ∷ v) ∷ inc) need)
      ≡ read_line_loop (suc rounds) (scratch ++ c ∷ s) (online 0 (x ∷ v) inc need)
unfolding read_line_loop
read_line_next rounds pos scratch c s x v inc need ef =
    take_buffer (suc rounds) pos scratch c s ((x ∷ v) ∷ inc) need ef
    ∙ ap (λ p. read_line_loop (suc rounds) (scratch ++ c ∷ s) p)
        (advance_all pos c s ((x ∷ v) ∷ inc) need)

-- The loop, from a buffer that is not empty.
read_line_loop-online :
    (inc : List Bytes) (rounds pos : ℕ) (scratch : Bytes) (c : ℕ) (s : Bytes) (need : Bool)
    (line r : Bytes)
    → NoGap inc
    → NoTerminator line
    → (c ∷ s) ++ stream inc ≡ line ++ 13 ∷ 10 ∷ r
    → length inc < rounds
    → Reads true (read_line_loop rounds scratch) (scratch ++ line) (online pos (c ∷ s) inc need) r
read_line_loop-online inc zero pos scratch c s need line r g h e f = absurd (omega arith)
read_line_loop-online [] (suc rounds) pos scratch c s need line r g h e f =
    elim (Split-line (c ∷ s) [] line r h e) [
      | inr (u', eu, et, ef) ↦
          read_line_last true rounds pos scratch c s [] need line u' r g eu et ef
      | inl (later, el, et, ef, eh) ↦ absurd (append-ne-nil later _ et)
    ]
read_line_loop-online ([] ∷ inc) (suc rounds) pos scratch c s need line r g h e f = absurd g
read_line_loop-online ((x ∷ v) ∷ inc) (suc zero) pos scratch c s need line r g h e f =
    absurd (omega arith)
read_line_loop-online ((x ∷ v) ∷ inc) (suc (suc rounds)) pos scratch c s need line r g h e f =
    elim (Split-line (c ∷ s) (stream ((x ∷ v) ∷ inc)) line r h e) [
      | inr (u', eu, et, ef) ↦
          read_line_last true (suc rounds) pos scratch c s ((x ∷ v) ∷ inc) need line u' r g eu et ef
      | inl (later, el, et, ef, eh) ↦
          let (p', q, a) =
            read_line_loop-online inc (suc rounds) 0 (scratch ++ c ∷ s) x v need later r g eh et
              (omega arith) in
          (p', rw (read_line_next rounds pos scratch c s x v inc need ef, q, el, append_assoc), a)
    ]

read_line_view-online :
    (pos : ℕ) (u : Bytes) (inc : List Bytes) (need : Bool) (line r : Bytes)
    → NoTerminator line
    → NoGap inc
    → u ++ stream inc ≡ line ++ 13 ∷ 10 ∷ r
    → Reads true read_line_view line (online pos u inc need) r
unfolding read_line_view
read_line_view-online pos (c ∷ s) inc need line r h g e =
    read_line_loop-online inc (length inc + 2) pos [] c s need line r g h e (omega arith)
read_line_view-online pos [] [] need line r h g e = absurd (append-ne-nil line _ e)
read_line_view-online pos [] ([] ∷ inc) need line r h g e = absurd g
read_line_view-online pos [] ((c ∷ s) ∷ inc) need line r h g e = rw (add-suc_two (length inc)) (
    read_line_loop-online inc (suc (suc (suc (length inc)))) 0 [] c s need line r g h e
      (omega arith))

-- Without the socket the line must stand in the buffer.
read_line_view-offline :
    (q : ℕ) (u : Bytes) (inc : List Bytes) (need : Bool) (line r : Bytes)
    → NoTerminator line
    → u ++ [] ≡ line ++ 13 ∷ 10 ∷ r
    → Reads false read_line_view line (in_mode false q u inc need) r
unfolding read_line_view
read_line_view-offline q [] inc need line r h e = absurd (append-ne-nil line _ e)
read_line_view-offline q (c ∷ s) inc need line r h e = elim (Split-line (c ∷ s) [] line r h e) [
  | inr (u', eu, et, ef) ↦
      rw add-two (read_line_last false (suc (length inc)) q [] c s inc need line u' r tt eu et ef)
  | inl (later, el, et, ef, eh) ↦ absurd (append-ne-nil later _ et)
]

-- A parser before a line without CR and LF, a CRLF and any bytes `r`, however the socket cuts them:
-- `ReadLineView` returns the line and stops right before `r`.
pub read_line_view-At :
    {b : Bool} (p : Parser) (line r : Bytes)
    → NoTerminator line
    → At b p (line ++ 13 ∷ 10 ∷ r)
    → Reads b read_line_view line p r
read_line_view-At {b = true} p line r h a =
    from_mode true (λ q. Reads true read_line_view line q r) p a.mode
      (read_line_view-online p.pos p.unread p.incoming p.no_read_need_more line r h a.no_gap
        a.content)
read_line_view-At {b = false} p line r h a =
    from_mode false (λ q. Reads false read_line_view line q r) p a.mode
      (read_line_view-offline p.pos p.unread p.incoming p.no_read_need_more line r h a.content)
