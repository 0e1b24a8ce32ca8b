-- ===== src/DashTable/Visits.antt =====
-- What `ForEach` and `Size` (include/core/dashtable.h, src/core/dashtable.cc) see of the table.
use nano_redis.Prelude.{
  ℕ, zero, suc, ◌+◌, ◌-◌, ◌*◌, ◌/◌, ◌≤◌, ◌<◌, ◌≡◌, ◌≢◌, ◌⊎◌, refl, arith, List, [], ◌∷◌, ◌++◌,
  length, sym, ap, ◌∙◌, true, Bool, ◌||◌, Bool-cases, inl, inr, ltb, ltb→lt,
}
use nano_redis.Prelude.Powers.{pow_pos, block_eq, block_bounds}
use mathlib.Core.Path.{subst}
use nano_redis.DashTable.{Table, slot, segment_at, get_segment_index, find}
use nano_redis.DashTable.Interface.{Buckets, is_some, listed, count}
use nano_redis.DashTable.Consistent.{local, chunk, IsConsistent, index-lt}
use nano_redis.DashTable.Methods.{find_lem}
use nano_redis.DashTable.Walk.{next_seg, visit, for_each, sum_sizes, size, segment-find}

listed-append :
    {K : Type 0} (equal : K → K → Bool) (xs ys : List K) (k : K)
    → listed equal (xs ++ ys) k ≡ (listed equal xs k || listed equal ys k)
listed-append equal [] ys k = refl
listed-append equal (x ∷ xs) ys k = ground (arith, listed-append equal xs ys k)

count-append :
    {K : Type 0} (p : K → Bool) (xs ys : List K) → count p (xs ++ ys) ≡ count p xs + count p ys
count-append p [] ys = omega arith
count-append p (x ∷ xs) ys = ground (arith, count-append p xs ys)

lt_or_le : (a c : ℕ) → (a < c) ⊎ (c ≤ a)
lt_or_le a c = ground arith

module _ {K V : Type 0} (b : Buckets K V) (t : Table b) (c : IsConsistent b t) where
  -- The slot is the first of its chunk.
  IsStart : ℕ → Type 0
  IsStart i = i / chunk b t i * chunk b t i ≡ i

  next_seg-inside :
      (sid : ℕ) → sid < length t.segment_directory → next_seg b t sid ≡ sid + chunk b t sid
  unfolding next_seg
  next_seg-inside sid h = ground (arith, h)

  next_seg-IsStart :
      (sid : ℕ)
      → sid < length t.segment_directory
      → IsStart sid
      → sid + chunk b t sid < length t.segment_directory
      → IsStart (sid + chunk b t sid)
  unfolding IsStart
  next_seg-IsStart sid h start h' =
      let n = sid + chunk b t sid in
      let m = n / chunk b t n * chunk b t n in
      let o = c.blocks n h' in
      let small = block_bounds n (chunk b t n) (pow_pos (t.global_depth - local b t n)) in
      let near = block_bounds n (chunk b t sid) (pow_pos (t.global_depth - local b t sid)) in
      let apart : slot t.segment_directory n ≢ slot t.segment_directory sid = λ e.
        let q = ((c.blocks sid h).shared n h').0 e in
        omega (arith, ap (λ (d : ℕ). d * chunk b t sid) q, near.1, start) in
      let first : slot t.segment_directory m ≡ slot t.segment_directory n =
        (o.shared m (omega (arith, small.0))).1
          (block_eq m (chunk b t n) (n / chunk b t n) (omega arith) (omega (arith, small))) in
      elim (lt_or_le m n) [
        | inr e ↦ omega (arith, e, small.0)
        | inl e ↦ absurd (elim (lt_or_le m sid) [
          | inl below ↦ apart (
              sym (
                (o.shared sid h).1 (
                  block_eq sid (chunk b t n) (n / chunk b t n) (omega arith)
                    (omega (arith, small.1, pow_pos (t.global_depth - local b t sid))))))
          | inr above ↦ apart (
              sym first
              ∙ ((c.blocks sid h).shared m (omega (arith, small.0))).1 (
                  block_eq m (chunk b t sid) (sid / chunk b t sid) (omega (arith, start))
                    (omega (arith, start, e))))
        ])
      ]

  block-of :
      (sid j : ℕ)
      → IsStart sid
      → sid ≤ j
      → j < sid + chunk b t sid
      → j / chunk b t sid ≡ sid / chunk b t sid
  unfolding IsStart
  block-of sid j start below near =
      block_eq j (chunk b t sid) (sid / chunk b t sid) (omega (arith, start, below))
        (omega (arith, start, near))

  zero-IsStart : IsStart 0
  unfolding IsStart
  zero-IsStart =
      omega (arith, (block_bounds 0 (chunk b t 0) (pow_pos (t.global_depth - local b t 0))).0)

  visit_sound :
      (fuel sid : ℕ) (k : K)
      → listed b.equal (visit b fuel t sid) k ≡ true
      → is_some (find b t k) ≡ true
  unfolding visit
  visit_sound zero sid k l = ground arith
  visit_sound (suc fuel) sid k l = elim (Bool-cases (ltb sid (length t.segment_directory))) [
    | inl e ↦ ground (
      arith,
      l,
      e,
      listed-append b.equal (b.keys (segment_at b t sid).table) (visit b fuel t (next_seg b t sid))
          k,
      b.listed-keys (segment_at b t sid).table k,
      segment-find b t c sid k (ltb→lt _ _ e),
      visit_sound fuel (next_seg b t sid) k,
    )
    | inr e ↦ ground (arith, l, e)
  ]

  visit_complete :
      (fuel sid : ℕ) (k : K)
      → (sid < length t.segment_directory → IsStart sid)
      → length t.segment_directory ≤ sid + fuel
      → sid ≤ get_segment_index b t k
      → is_some (find b t k) ≡ true
      → listed b.equal (visit b fuel t sid) k ≡ true
  unfolding visit
  visit_complete zero sid k start enough below f = absurd (omega (arith, index-lt b t k c))
  visit_complete (suc fuel) sid k start enough below f =
      let j = get_segment_index b t k in
      let inside : sid < length t.segment_directory = omega (arith, below, index-lt b t k c) in
      let test : ltb sid (length t.segment_directory) ≡ true = ground (arith, inside) in
      let next = next_seg-inside sid inside in
      let here = b.listed-keys (segment_at b t sid).table k in
      let parts =
        listed-append b.equal (b.keys (segment_at b t sid).table)
          (visit b fuel t (next_seg b t sid)) k in
      elim (lt_or_le j (sid + chunk b t sid)) [
        | inl near ↦
            let same : slot t.segment_directory j ≡ slot t.segment_directory sid =
              ((c.blocks sid inside).shared j (index-lt b t k c)).1
                (block-of sid j (start inside) below near) in
            let found : is_some (b.find (segment_at b t sid).table k) ≡ true =
              ap (λ (p : ℕ). is_some (b.find (t.segments p).table k)) (sym same)
              ∙ ap is_some (sym (find_lem b t k))
              ∙ f in
            rw test (ground (arith, parts, here, found))
        | inr far ↦
            let rest =
              visit_complete fuel (next_seg b t sid) k
                (λ l.
                  subst IsStart (sym next)
                    (next_seg-IsStart sid inside (start inside) (omega (arith, l, next))))
                (omega (arith, next, enough, pow_pos (t.global_depth - local b t sid)))
                (omega (arith, next, far)) f in
            rw test (ground (arith, parts, rest))
      ]

  -- On a consistent directory, `ForEach` calls its function with a key equal to `k` exactly if
  -- `Find` finds something under `k`.
  pub for_each-find : (k : K) → listed b.equal (for_each b t) k ≡ is_some (find b t k)
  unfolding for_each
  for_each-find k =
      let n = length t.segment_directory in
      elim (Bool-cases (is_some (find b t k))) [
        | inl f ↦ visit_complete n 0 k (λ h. zero-IsStart) (omega arith) (omega arith) f ∙ sym f
        | inr f ↦ ground (arith, f, visit_sound n 0 k)
      ]

  sum_sizes-visit : (fuel sid : ℕ) → sum_sizes b fuel t sid ≡ count (λ k. true) (visit b fuel t sid)
  unfolding sum_sizes visit
  sum_sizes-visit zero sid = refl
  sum_sizes-visit (suc fuel) sid = ground (
    arith,
    sum_sizes-visit fuel (next_seg b t sid),
    b.size_lem (segment_at b t sid).table,
    count-append (λ k. true) (b.keys (segment_at b t sid).table)
        (visit b fuel t (next_seg b t sid)),
  )

  -- `Size` is the number of entries that `ForEach` passes on.
  pub size-for_each : size b t ≡ count (λ k. true) (for_each b t)
  unfolding size for_each
  size-for_each = sum_sizes-visit (length t.segment_directory) 0
