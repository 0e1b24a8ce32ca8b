-- ===== src/DashTable/Doubling.antt =====
-- The loop of `SplitSegment` (src/core/dashtable.cc) that doubles the directory from its end.
use nano_redis.Prelude.{
  ℕ, zero, suc, ◌+◌, ◌*◌, ◌/◌, ◌%◌, ◌^◌, ◌≤◌, ◌<◌, ◌≡◌, ◌≢◌, refl, arith, length, set, ◌==◌, ◌++◌,
  if◌then◌else◌, length-set, length-append, ap, ◌∙◌, Bool, true, false, sym, ◌⊎◌, Bool-cases, inl,
  inr, ==_iff,
}
use mathlib.Core.Path.{subst}
use nano_redis.DashTable.{
  Segment, Table, slot, write, nulls, double_step, double_loop, double_directory,
}
use nano_redis.DashTable.Interface.{Buckets}
use nano_redis.DashTable.Directory.{slot-set, slot-append, length-nulls}

-- The segments differ in their indices at most.
pub record SameButId {Rep : Type 0} (s s' : Segment Rep) : Type 0 where
  pub table : s'.table ≡ s.table
  pub local_depth : s'.local_depth ≡ s.local_depth
  pub version : s'.version ≡ s.version

write_id :
    {Rep : Type 0} (s : ℕ → Segment Rep) (q p n : ℕ)
    → write s q (record (s q) { segment_id = n }) p
      ≡ (if p == q then record (s p) { segment_id = n } else s p)
write_id s q p n = elim (Bool-cases (p == q)) [
  | inl same ↦ rw same (ap (λ (r : ℕ). record (s r) { segment_id = n }) (sym ((==_iff p q).0 same)))
  | inr other ↦ rw other refl
]

lt_or_eq : (m i : ℕ) → m < suc i → (m < i) ⊎ (m ≡ i)
lt_or_eq m i h = ground arith

step_kept :
    {Rep : Type 0} (s s' s'' : Segment Rep) (c : Bool) (n : ℕ)
    → SameButId s' s''
    → s' ≡ (if c then record s { segment_id = n } else s)
    → SameButId s s''
step_kept s s' s'' true n k e = record {
  table = k.table ∙ ap (λ (r : Segment _). r.table) e;
  local_depth = k.local_depth ∙ ap (λ (r : Segment _). r.local_depth) e;
  version = k.version ∙ ap (λ (r : Segment _). r.version) e;
}
step_kept s s' s'' false n k e = record {
  table = k.table ∙ ap (λ (r : Segment _). r.table) e;
  local_depth = k.local_depth ∙ ap (λ (r : Segment _). r.local_depth) e;
  version = k.version ∙ ap (λ (r : Segment _). r.version) e;
}

step_id :
    {Rep : Type 0} (s s' : Segment Rep) (p n : ℕ)
    → s' ≡ (if p == p then record s { segment_id = n } else s)
    → s'.segment_id ≡ n
step_id s s' p n e =
    ap (λ (r : Segment _). r.segment_id) e
    ∙ ap (λ (c : Bool). (if c then record s { segment_id = n } else s).segment_id)
        ((==_iff p p).1 refl)

module _ {K V : Type 0} (b : Buckets K V) where
  -- What the loop has done to the table `t` once it has gone down from `i`.
  record Doubled (i : ℕ) (t t' : Table b) : Type 0 where
    width : length t'.segment_directory ≡ length t.segment_directory
    low : (j : ℕ) → j < 2 * i → slot t'.segment_directory j ≡ slot t.segment_directory (j / 2)
    high : (j : ℕ) → 2 * i ≤ j → slot t'.segment_directory j ≡ slot t.segment_directory j
    kept : (p : ℕ) → SameButId (t.segments p) (t'.segments p)
    untouched :
        (p : ℕ) → ((j : ℕ) → j < i → slot t.segment_directory j ≢ p) → t'.segments p ≡ t.segments p
    first :
        (m : ℕ)
        → m < i
        → ((j : ℕ) → j < m → slot t.segment_directory j ≢ slot t.segment_directory m)
        → (t'.segments (slot t.segment_directory m)).segment_id ≡ m * 2 % 2 ^ 32
    rest :
        (t'.next ≡ t.next)
        × (t'.global_depth ≡ t.global_depth)
        × (t'.max_segment_size ≡ t.max_segment_size)

  double_step-slot :
      (i j : ℕ) (t : Table b)
      → 2 * i + 1 < length t.segment_directory
      → slot (double_step b i t).segment_directory j
        ≡ (if j / 2 == i then slot t.segment_directory i else slot t.segment_directory j)
  unfolding double_step
  double_step-slot i j t h =
      let d = t.segment_directory in
      let d1 = set d (i * 2) (slot d i) in
      ground (
        arith,
        slot-set d1 (i * 2 + 1) (slot d1 i) j,
        slot-set d (i * 2) (slot d i) i,
        slot-set d (i * 2) (slot d i) j,
        length-set d (i * 2) (slot d i),
      )

  double_step-segments :
      (i p : ℕ) (t : Table b)
      → 2 * i + 1 < length t.segment_directory
      → (double_step b i t).segments p ≡ (
          if p == slot t.segment_directory i
          then record (t.segments p) { segment_id = i * 2 % 2 ^ 32 }
          else t.segments p)
  unfolding double_step
  double_step-segments i p t h =
      ap (λ (q : ℕ). write t.segments q (record (t.segments q) { segment_id = i * 2 % 2 ^ 32 }) p)
        (double_step-slot i i t h ∙ ground arith)
      ∙ write_id t.segments (slot t.segment_directory i) p (i * 2 % 2 ^ 32)

  double_step-length :
      (i : ℕ) (t : Table b)
      → length (double_step b i t).segment_directory ≡ length t.segment_directory
  unfolding double_step
  double_step-length i t =
      let d = t.segment_directory in
      let d1 = set d (i * 2) (slot d i) in
      length-set d1 (i * 2 + 1) (slot d1 i) ∙ length-set d (i * 2) (slot d i)

  double_step-rest :
      (i : ℕ) (t : Table b)
      → ((double_step b i t).next ≡ t.next)
        × ((double_step b i t).global_depth ≡ t.global_depth)
        × ((double_step b i t).max_segment_size ≡ t.max_segment_size)
  unfolding double_step
  double_step-rest i t = (refl, refl, refl)

  double_loop-Doubled :
      (i : ℕ) (t : Table b) → 2 * i ≤ length t.segment_directory → Doubled i t (double_loop b i t)
  unfolding double_loop
  double_loop-Doubled zero t h = record {
    width = refl;
    low = λ j p. absurd (omega arith);
    high = λ j p. refl;
    kept = λ p. record { table = refl; local_depth = refl; version = refl };
    untouched = λ p q. refl;
    first = λ m p q. absurd (omega arith);
    rest = (refl, refl, refl);
  }
  double_loop-Doubled (suc i) t h =
      let t1 = double_step b i t in
      let len = double_step-length i t in
      let (n, g, m) = double_step-rest i t in
      let ih = double_loop-Doubled i t1 (omega arith) in
      let slots = λ (j : ℕ). double_step-slot i j t (omega arith) in
      let segs = λ (p : ℕ). double_step-segments i p t (omega arith) in
      let same : (j : ℕ) → j < i → slot t1.segment_directory j ≡ slot t.segment_directory j =
        λ j l. ground (arith, slots j) in
      let (n', g', m') = ih.rest in
      record {
        width = ih.width ∙ len;
        low = λ j p. ground (arith, ih.low j, ih.high j, slots j, slots (j / 2));
        high = λ j p. ih.high j (omega arith) ∙ ground (arith, slots j);
        kept = λ p. step_kept _ _ _ _ _ (ih.kept p) (segs p);
        untouched = λ p q.
            ih.untouched p (λ j l e. q j (omega arith) (ground (arith, slots j)))
            ∙ ground (arith, segs p, q i);
        first = λ m p q. elim (lt_or_eq m i p) [
          | inl below ↦
              subst (λ (r : ℕ). ((double_loop b i t1).segments r).segment_id ≡ m * 2 % 2 ^ 32)
                (same m below)
                (ih.first m below λ j l e. q j l (sym (same j (omega arith)) ∙ e ∙ same m below))
          | inr e ↦
              subst
                (λ (n : ℕ).
                  ((j : ℕ) → j < n → slot t.segment_directory j ≢ slot t.segment_directory n)
                  → ((double_loop b i t1).segments (slot t.segment_directory n)).segment_id
                    ≡ n * 2 % 2 ^ 32)
                (sym e)
                (λ r.
                  ap (λ (s : Segment _). s.segment_id)
                    (ih.untouched (slot t.segment_directory i)
                      λ j l e'. r j l (sym (same j l) ∙ e'))
                  ∙ step_id (t.segments (slot t.segment_directory i)) _ (slot t.segment_directory i)
                      (i * 2 % 2 ^ 32) (segs (slot t.segment_directory i)))
                q
        ];
        rest = (n' ∙ n, g' ∙ g, m' ∙ m);
      }

  -- The directory twice as long, each pointer in two slots, and the indices of the segments.
  pub record Grown (t t' : Table b) : Type 0 where
    pub width : length t'.segment_directory ≡ 2 * length t.segment_directory
    pub depth : t'.global_depth ≡ (t.global_depth + 1) % 2 ^ 8
    pub next : t'.next ≡ t.next
    pub max_segment_size : t'.max_segment_size ≡ t.max_segment_size
    pub slots :
        (j : ℕ)
        → j < 2 * length t.segment_directory
        → slot t'.segment_directory j ≡ slot t.segment_directory (j / 2)
    pub kept : (p : ℕ) → SameButId (t.segments p) (t'.segments p)
    pub first :
        (m : ℕ)
        → m < length t.segment_directory
        → ((j : ℕ) → j < m → slot t.segment_directory j ≢ slot t.segment_directory m)
        → (t'.segments (slot t.segment_directory m)).segment_id ≡ m * 2 % 2 ^ 32

  pub double_directory-Grown : (t : Table b) → Grown t (double_directory b t)
  unfolding double_directory
  double_directory-Grown t =
      let old = length t.segment_directory in
      let wide = record t { segment_directory = t.segment_directory ++ nulls old } in
      let len : length (t.segment_directory ++ nulls old) ≡ 2 * old =
        length-append t.segment_directory (nulls old) ∙ omega (arith, length-nulls old) in
      let done = double_loop-Doubled old wide (omega arith) in
      let same = slot-append t.segment_directory (nulls old) in
      let (n, g, m) = done.rest in
      record {
        width = done.width ∙ len;
        depth = ap (λ (k : ℕ). (k + 1) % 2 ^ 8) g;
        next = n;
        max_segment_size = m;
        slots = λ j h. done.low j h ∙ same (j / 2) (omega arith);
        kept = done.kept;
        first = λ m h apart.
            subst (λ (p : ℕ). ((double_loop b old wide).segments p).segment_id ≡ m * 2 % 2 ^ 32)
              (same m h)
              (done.first m h λ j l e. apart j l (sym (same j (omega arith)) ∙ e ∙ same m h));
      }
