-- ===== src/Resp/Bulk.antt =====
-- `ReadBulkStringInto` of src/protocol/resp_parser.cc on a bulk string, in both modes of the parser.
use nano_redis.Prelude.{
  ℕ, zero, suc, ◌+◌, ◌-◌, ◌^◌, ◌<◌, min, Bool, true, false, List, [], ◌∷◌, ◌++◌, Bytes, length, ltb,
  ◌≡◌, ◌⊎◌, inl, inr, refl, ap, ◌∙◌, arith, append-nil, length-append, take, drop, take_all,
  take_prefix, drop_prefix,
}
use nano_redis.Prelude.Int.{pos}
use nano_redis.NanoObj.{NanoObj, inline_str, small_str, from_key}
use nano_redis.NanoObj.Ops.{prepare_string_buffer, write_buffer}
use nano_redis.NanoObj.Buffer.{stored_bulk-eq-from_key, write_buffer-append}
use nano_redis.Resp.Buffer.{Parser, done, M, read_char}
use nano_redis.Resp.Lines.{read_bulk_loop, read_bulk_string_into, advance}
use nano_redis.Resp.Stream.{
  stream, NoGap, in_mode, online, reachable, At, Reads, Reads-bind, from_mode, read_char-At,
}
use nano_redis.Resp.Reading.{advance_all}

-- Where the buffer ends against the string: behind it, or inside of it.
abbrev Cut : Bytes → Bytes → Bytes → Bytes → Type 0
Cut u t s r =
    ((u' : Bytes) × (u ≡ s ++ u') × (u' ++ t ≡ r))
    ⊎ ((x : ℕ) × (s' : Bytes) × (s ≡ u ++ x ∷ s') × (t ≡ (x ∷ s') ++ r))

cut : (u t s r : Bytes) → u ++ t ≡ s ++ r → Cut u t s r
cut u t [] r e = inl (u, refl, e)
cut [] t (x ∷ s) r e = inr (x, s, refl, e)
cut (c ∷ u) t (x ∷ s) r e = elim (cut u t s r (ground arith)) [
  | inl (u', p, q) ↦ inl (u', ground arith, q)
  | inr (y, s', p, q) ↦ inr (y, s', ground arith, q)
]

write_buffer-nil : (o : NanoObj) → write_buffer o [] ≡ o
unfolding write_buffer
write_buffer-nil (inline_str s) = rw append-nil
write_buffer-nil (small_str n p b) = rw append-nil
write_buffer-nil _ = refl

bulk_stop :
    (rounds len : ℕ) (out : NanoObj) (p : Parser)
    → read_bulk_loop (suc rounds) len len out p ≡ (done out, p)
unfolding read_bulk_loop
bulk_stop rounds len out p = ground arith

-- A round over a buffer that is not empty takes `n` bytes.
bulk_round :
    (b : Bool) (rounds len total n q : ℕ) (out : NanoObj) (c : ℕ) (w : Bytes) (inc : List Bytes)
    (need : Bool)
    → total < len
    → min (suc (length w)) (len - total) ≡ n
    → read_bulk_loop (suc rounds) len total out (in_mode b q (c ∷ w) inc need)
      ≡ read_bulk_loop rounds len
          (total + n)
          (write_buffer out (take n (c ∷ w)))
          (advance n (in_mode b q (c ∷ w) inc need))
unfolding read_bulk_loop
bulk_round b rounds len total n q out c w inc need h e =
    let test : ltb total len ≡ true = ground arith in rw (test, e) refl

bulk_fill :
    (rounds len total q : ℕ) (out : NanoObj) (x : ℕ) (v : Bytes) (inc : List Bytes) (need : Bool)
    → total < len
    → read_bulk_loop (suc rounds) len total out (online q [] ((x ∷ v) ∷ inc) need)
      ≡ read_bulk_loop (suc rounds) len total out (online 0 (x ∷ v) inc need)
unfolding read_bulk_loop
bulk_fill rounds len total q out x v inc need h =
    let test : ltb total len ≡ true = ground arith in rw test refl

-- The buffer holds what is left of the string.
bulk_last :
    (b : Bool) (rounds len total q : ℕ) (out : NanoObj) (c : ℕ) (w : Bytes) (inc : List Bytes)
    (need : Bool) (s u' r : Bytes)
    → NoGap (reachable b inc)
    → 0 < length s
    → total + length s ≡ len
    → c ∷ w ≡ s ++ u'
    → u' ++ stream (reachable b inc) ≡ r
    → Reads b
        (read_bulk_loop (suc (suc rounds)) len total out)
        (write_buffer out s)
        (in_mode b q (c ∷ w) inc need)
        r
bulk_last b rounds len total q out c w inc need s u' r g pos_s total_s e f =
    let n = length s in
    let fits : suc (length w) ≡ length s + length u' = ap length e ∙ length-append s u' in
    let taken : take n (c ∷ w) ≡ s = ap (λ (t : Bytes). take n t) e ∙ take_prefix s u' in
    let left : drop n (c ∷ w) ≡ u' = ap (λ (t : Bytes). drop n t) e ∙ drop_prefix s u' in
    let moved : advance n (in_mode b q (c ∷ w) inc need) ≡ in_mode b (q + n) u' inc need =
      λ i. in_mode b (q + n) (left i) inc need in
    let full : total + n ≡ len = total_s in
    (
      in_mode b (q + n) u' inc need,
      bulk_round b (suc rounds) len total n q out c w inc need (omega arith) (omega arith)
          ∙ rw (taken, moved, full)
              (bulk_stop rounds len (write_buffer out s) (in_mode b (q + n) u' inc need)),
      record { mode = refl; no_gap = g; content = f },
    )

bulk_loop-online :
    (inc : List Bytes) (rounds len total q : ℕ) (out : NanoObj) (c : ℕ) (w : Bytes) (need : Bool)
    (y : ℕ) (s r : Bytes)
    → NoGap inc
    → (c ∷ w) ++ stream inc ≡ (y ∷ s) ++ r
    → total + suc (length s) ≡ len
    → length inc + 1 < rounds
    → Reads true
        (read_bulk_loop rounds len total out)
        (write_buffer out (y ∷ s))
        (online q (c ∷ w) inc need)
        r
bulk_loop-online inc zero len total q out c w need y s r g e t f = absurd (omega arith)
bulk_loop-online inc (suc zero) len total q out c w need y s r g e t f = absurd (omega arith)
bulk_loop-online [] (suc (suc rounds)) len total q out c w need y s r g e t f =
    elim (cut (c ∷ w) [] (y ∷ s) r e) [
      | inl (u', p, h) ↦
          bulk_last true rounds len total q out c w [] need (y ∷ s) u' r g (omega arith) t p h
      | inr (x, s', p, h) ↦ absurd (ground arith)
    ]
bulk_loop-online ([] ∷ inc) (suc (suc rounds)) len total q out c w need y s r g e t f = absurd g
bulk_loop-online ((z ∷ v) ∷ inc) (suc (suc rounds)) len total q out c w need y s r g e t f =
    elim (cut (c ∷ w) (stream ((z ∷ v) ∷ inc)) (y ∷ s) r e) [
      | inl (u', p, h) ↦
          bulk_last true rounds len total q out c w ((z ∷ v) ∷ inc) need (y ∷ s) u' r g
            (omega arith) t p h
      | inr (x, s', p, h) ↦
          let n = suc (length w) in
          let size : suc (length s) ≡ n + suc (length s') =
            ap length p ∙ length-append (c ∷ w) (x ∷ s') in
          let (p', run, a) =
            bulk_loop-online inc (suc rounds) len (total + n) 0 (write_buffer out (c ∷ w)) z v need
              x s' r g h (omega arith) (omega arith) in
          (
            p',
            bulk_round true (suc rounds) len total n q out c w ((z ∷ v) ∷ inc) need (omega arith)
                  (omega arith)
                ∙ rw (take_all n (c ∷ w) (omega arith), advance_all q c w ((z ∷ v) ∷ inc) need)
                    (bulk_fill rounds len (total + n) (q + n) (write_buffer out (c ∷ w)) z v inc
                        need (omega arith)
                      ∙ run
                      ∙ rw (write_buffer-append, p)),
            a,
          )
    ]

abbrev pub read_bulk_bytes : ℕ → NanoObj → M NanoObj
read_bulk_bytes len out p = read_bulk_loop (length p.incoming + 2) len 0 out p

plus_two : (n : ℕ) → n + 2 ≡ suc (suc n)
plus_two n = omega arith

read_bulk_bytes-online :
    (q : ℕ) (u : Bytes) (inc : List Bytes) (need : Bool) (out : NanoObj) (s r : Bytes)
    → NoGap inc
    → u ++ stream inc ≡ s ++ r
    → Reads true (read_bulk_bytes (length s) out) (write_buffer out s) (online q u inc need) r
read_bulk_bytes-online q u inc need out [] r g e = (
  online q u inc need,
  rw (plus_two, write_buffer-nil) (bulk_stop (suc (length inc)) 0 out (online q u inc need)),
  record { mode = refl; no_gap = g; content = e },
)
read_bulk_bytes-online q (c ∷ w) inc need out (y ∷ s) r g e =
    bulk_loop-online inc (length inc + 2) (suc (length s)) 0 q out c w need y s r g e (omega arith)
      (omega arith)
read_bulk_bytes-online q [] [] need out (y ∷ s) r g e = absurd (ground arith)
read_bulk_bytes-online q [] ([] ∷ inc) need out (y ∷ s) r g e = absurd g
read_bulk_bytes-online q [] ((x ∷ v) ∷ inc) need out (y ∷ s) r g e =
    let (p', run, a) =
      bulk_loop-online inc (suc (suc (suc (length inc)))) (suc (length s)) 0 0 out x v need y s r g
        e (omega arith) (omega arith) in
    (
      p',
      rw plus_two (
          bulk_fill (suc (suc (length inc))) (suc (length s)) 0 q out x v inc need (omega arith)
          ∙ run),
      a,
    )

-- Without the socket the string must stand in the buffer.
read_bulk_bytes-offline :
    (q : ℕ) (u : Bytes) (inc : List Bytes) (need : Bool) (out : NanoObj) (s r : Bytes)
    → u ++ [] ≡ s ++ r
    → Reads false
        (read_bulk_bytes (length s) out)
        (write_buffer out s)
        (in_mode false q u inc need)
        r
read_bulk_bytes-offline q u inc need out [] r e = (
  in_mode false q u inc need,
  rw (plus_two, write_buffer-nil) (bulk_stop (suc (length inc)) 0 out (in_mode false q u inc need)),
  record { mode = refl; no_gap = tt; content = e },
)
read_bulk_bytes-offline q [] inc need out (y ∷ s) r e = absurd (ground arith)
read_bulk_bytes-offline q (c ∷ w) inc need out (y ∷ s) r e = elim (cut (c ∷ w) [] (y ∷ s) r e) [
  | inl (u', p, h) ↦ rw plus_two (
      bulk_last false (length inc) (suc (length s)) 0 q out c w inc need (y ∷ s) u' r tt
        (omega arith) (omega arith) p h)
  | inr (x, s', p, h) ↦ absurd (ground arith)
]

pub read_bulk_bytes-At :
    {b : Bool} (p : Parser) (out : NanoObj) (s r : Bytes)
    → At b p (s ++ r)
    → Reads b (read_bulk_bytes (length s) out) (write_buffer out s) p r
read_bulk_bytes-At {b = true} p out s r a =
    from_mode true (λ q. Reads true (read_bulk_bytes (length s) out) (write_buffer out s) q r) p
      a.mode
      (read_bulk_bytes-online p.pos p.unread p.incoming p.no_read_need_more out s r a.no_gap
        a.content)
read_bulk_bytes-At {b = false} p out s r a =
    from_mode false (λ q. Reads false (read_bulk_bytes (length s) out) (write_buffer out s) q r) p
      a.mode
      (read_bulk_bytes-offline p.pos p.unread p.incoming p.no_read_need_more out s r a.content)

-- A bulk string under 64 KiB and its CRLF.
pub read_bulk_string_into-At :
    {b : Bool} (p : Parser) (s r : Bytes)
    → length s < 2 ^ 16
    → At b p (s ++ 13 ∷ 10 ∷ r)
    → Reads b (read_bulk_string_into (pos (length s))) (from_key s) p r
unfolding read_bulk_string_into
read_bulk_string_into-At p s r h a =
    Reads-bind (read_bulk_bytes (length s) (prepare_string_buffer (length s))) _ _ (from_key s) p _
      r (read_bulk_bytes-At p (prepare_string_buffer (length s)) s (13 ∷ 10 ∷ r) a)
      λ p₁ a₁.
        Reads-bind read_char _ 13 (from_key s) p₁ _ r (read_char-At p₁ 13 (10 ∷ r) a₁) λ p₂ a₂.
          Reads-bind read_char _ 10 (from_key s) p₂ _ r (read_char-At p₂ 10 r a₂)
            λ p₃ a₃. (p₃, rw (stored_bulk-eq-from_key s h), a₃)
