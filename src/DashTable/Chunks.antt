-- ===== src/DashTable/Chunks.antt =====
-- What the checks of `IsDirectoryConsistent` (src/core/dashtable.cc) say of a directory.
use nano_redis.Prelude.{
  ℕ, zero, suc, ◌+◌, ◌-◌, ◌*◌, ◌/◌, ◌%◌, ◌^◌, ◌≤◌, ◌<◌, ◌≡◌, ◌↔◌, arith, length, sym, ap, ◌∙◌, Bool,
  true, ◌&&◌, ◌==◌, ==_iff, if◌then◌else◌, ltb,
}
use mathlib.Core.Path.{subst}
use native.Mathlib.Decide.{dec_lt}
use native.Mathlib.Nat.{mod-add-div', add-mod_right}
use nano_redis.Prelude.Powers.{pow_pos, pow_mono, block_eq, block_bounds}
use nano_redis.DashTable.{Table, slot, segment_at}
use nano_redis.DashTable.Interface.{Buckets}
use nano_redis.DashTable.Consistent.{local, chunk}
use nano_redis.DashTable.Walk.{shallow_slots, same_slots, check_chunks}

module _ {K V : Type 0} (b : Buckets K V) where
  abbrev pub index_of : Table b → ℕ → ℕ
  index_of t i = (segment_at b t i).segment_id

  -- The segment of a slot: the slots that hold it are those of a block, which starts at its index.
  pub record IsPart (t : Table b) (i : ℕ) : Type 0 where
    pub shallow : local b t i ≤ t.global_depth
    pub starts : index_of t i ≡ i / chunk b t i * chunk b t i
    pub shared :
        (j : ℕ)
        → j < length t.segment_directory
        → (slot t.segment_directory j ≡ slot t.segment_directory i)
          ↔ (j / chunk b t i ≡ i / chunk b t i)

  pub record IsShaped (t : Table b) : Type 0 where
    pub width : length t.segment_directory ≡ 2 ^ t.global_depth
    pub blocks : (i : ℕ) → i < length t.segment_directory → IsPart t i

  -- The slots of the block of a slot have its local depth.
  abbrev pub IsUniform : Table b → Type 0
  IsUniform t =
      (i j : ℕ)
      → i < length t.segment_directory
      → j < length t.segment_directory
      → j / chunk b t i ≡ i / chunk b t i
      → local b t j ≡ local b t i

  module _ (t : Table b) where
    pub shallow_inv : (n i : ℕ) → shallow_slots b n t ≡ true → i < n → local b t i ≤ t.global_depth
    unfolding shallow_slots
    shallow_inv zero i e h = absurd (omega arith)
    shallow_inv (suc n) i e h = elim (dec_lt i n) [
      | yes l ↦ shallow_inv n i (ground (arith, e)) l
      | no m ↦
          let last : n ≡ i = omega (arith, h, m) in
          subst (λ (k : ℕ). local b t k ≤ t.global_depth) last (ground (arith, e))
    ]

    same_inv :
        (n start p j : ℕ)
        → same_slots b n t start p ≡ true
        → 0 < j
        → j ≤ n
        → slot t.segment_directory (start + j) ≡ p
    unfolding same_slots
    same_inv zero start p j e h k = absurd (omega arith)
    same_inv (suc n) start p j e h k = elim (dec_lt j (suc n)) [
      | yes l ↦ same_inv n start p j (ground (arith, e)) h (omega (arith, l))
      | no m ↦
          let last : suc n ≡ j = omega (arith, k, m) in
          let here : (slot t.segment_directory (start + suc n) == p) ≡ true = ground (arith, e) in
          subst (λ (i : ℕ). slot t.segment_directory (start + i) ≡ p) last
            ((==_iff (slot t.segment_directory (start + suc n)) p).0 here)
    ]

    -- A round of the walk has found the chunk of slot `k`, from slot `i` on.
    pub record Found (k : ℕ) : Type 0 where
      pub first : ℕ
      pub inside : first < length t.segment_directory
      pub from : first ≤ k
      pub below : k < first + chunk b t first
      pub aligned : first % chunk b t first ≡ 0
      pub index : index_of t first ≡ first
      pub same :
          (j : ℕ)
          → j < chunk b t first
          → slot t.segment_directory (first + j) ≡ slot t.segment_directory first

    module _ (uniform : IsUniform t) where
      aligned_next :
          (i : ℕ)
          → i + chunk b t i < length t.segment_directory
          → i % chunk b t i ≡ 0
          → (i + chunk b t i) % chunk b t (i + chunk b t i) ≡ 0
      aligned_next i h a =
          let c = chunk b t i in
          let i' = i + c in
          let c' = chunk b t i' in
          elim (dec_lt 0 (i' % c')) [
            | no m ↦ omega (arith, m)
            | yes l ↦
                let some_slots : 0 < c = pow_pos (t.global_depth - local b t i) in
                let j = i' - 1 in
                let in_range : j < length t.segment_directory = omega (arith, h, some_slots) in
                let bounds = block_bounds i' c' (pow_pos (t.global_depth - local b t i')) in
                let late : j / c' ≡ i' / c' =
                  block_eq j c' (i' / c') (omega (arith, mod-add-div' i' c', l))
                    (omega (arith, bounds.1, some_slots)) in
                let early : j / c ≡ i / c =
                  block_eq j c (i / c) (omega (arith, mod-add-div' i c, a, some_slots))
                    (omega (arith, mod-add-div' i c, a, some_slots)) in
                let depths : local b t i' ≡ local b t i =
                  sym (uniform i' j h in_range late)
                  ∙ uniform i j (omega (arith, h)) in_range early in
                let sizes : c' ≡ c = ap (λ (d : ℕ). 2 ^ (t.global_depth - d)) depths in
                let even : i' % c ≡ 0 = add-mod_right i c ∙ a in ap (λ (n : ℕ). i' % n) sizes ∙ even
          ]

      module _ (depth : t.global_depth ≤ 31) where
        pub covered :
            (fuel i k : ℕ)
            → length t.segment_directory ≤ i + fuel
            → i % chunk b t i ≡ 0
            → i ≤ k
            → k < length t.segment_directory
            → check_chunks b fuel t i ≡ true
            → Found k
        unfolding check_chunks
        covered zero i k enough a h l e = absurd (omega (arith, enough, h, l))
        covered (suc fuel) i k enough a h l e =
            let n = chunk b t i in
            let some_slots : 0 < n = pow_pos (t.global_depth - local b t i) in
            let fits : n % 2 ^ 32 ≡ n =
              omega (arith, pow_mono (t.global_depth - local b t i) 31 (omega (arith, depth))) in
            let in_range : ltb i (length t.segment_directory) ≡ true = ground (arith, h, l) in
            let start : i - i % n ≡ i = omega (arith, a) in
            let round : (same_slots b (n - 1) t i (slot t.segment_directory i)
                  && (index_of t i == i)
                  && check_chunks b fuel t (i + n))
                ≡ true =
              sym (
                ap
                  (λ (c : Bool).
                    if c
                    then same_slots b (n % 2 ^ 32 - 1) t (i - i % (n % 2 ^ 32))
                        (slot t.segment_directory i)
                      && (index_of t i == (i - i % (n % 2 ^ 32)))
                      && check_chunks b fuel t (i + n % 2 ^ 32)
                    else true)
                  in_range
                ∙ ap
                    (λ (size : ℕ).
                      same_slots b (size - 1) t (i - i % size) (slot t.segment_directory i)
                      && (index_of t i == (i - i % size))
                      && check_chunks b fuel t (i + size))
                    fits
                ∙ ap
                    (λ (s : ℕ).
                      same_slots b (n - 1) t s (slot t.segment_directory i)
                      && (index_of t i == s)
                      && check_chunks b fuel t (i + n))
                    start)
              ∙ e in
            elim (dec_lt k (i + n)) [
              | yes m ↦
                  let slots : same_slots b (n - 1) t i (slot t.segment_directory i) ≡ true =
                    ground (arith, round) in
                  let id : (index_of t i == i) ≡ true = ground (arith, round) in
                  record {
                    first = i;
                    inside = omega (arith, h, l);
                    from = h;
                    below = m;
                    aligned = a;
                    index = (==_iff (index_of t i) i).0 id;
                    same = λ j q. elim (dec_lt 0 j) [
                      | yes more ↦
                          same_inv (n - 1) i (slot t.segment_directory i) j slots more
                            (omega (arith, q))
                      | no none ↦
                          let z : i + j ≡ i = omega (arith, none) in ap (slot t.segment_directory) z
                    ];
                  }
              | no m ↦
                  covered fuel (i + n) k (omega (arith, enough, some_slots))
                    (aligned_next i (omega (arith, l, m)) a) (omega (arith, m)) l
                    (ground (arith, round))
            ]

    -- Every slot in a chunk that was found: its segment has the slots of a block.
    pub Found-IsPart :
        (k : ℕ)
        → (f : (j : ℕ) → j < length t.segment_directory → Found j) → k < length t.segment_directory
        → local b t k ≤ t.global_depth
        → IsPart t k
    Found-IsPart k f h shallow =
        let v = f k h in
        let i = v.first in
        let c = chunk b t i in
        let some_slots : 0 < c = pow_pos (t.global_depth - local b t i) in
        let at = λ (j : ℕ) (from : i ≤ j) (below : j < i + c).
          let place : i + (j - i) ≡ j = omega (arith, from) in
          ap (slot t.segment_directory) (sym place) ∙ v.same (j - i) (omega (arith, from, below)) in
        let held : slot t.segment_directory k ≡ slot t.segment_directory i = at k v.from v.below in
        let depths : local b t k ≡ local b t i = ap (λ (p : ℕ). (t.segments p).local_depth) held in
        let sizes : chunk b t k ≡ c = ap (λ (d : ℕ). 2 ^ (t.global_depth - d)) depths in
        let whole : i / c * c ≡ i = omega (arith, mod-add-div' i c, v.aligned) in
        let block = λ (j : ℕ) (from : i ≤ j) (below : j < i + c).
          block_eq j c (i / c) (omega (arith, whole, from)) (omega (arith, whole, below)) in
        let here : k / c ≡ i / c = block k v.from v.below in
        subst
          (λ (n : ℕ).
            (index_of t k ≡ k / n * n)
              × ((j : ℕ)
                  → j < length t.segment_directory
                  → (slot t.segment_directory j ≡ slot t.segment_directory k) ↔ (j / n ≡ k / n))
            → IsPart t k)
          sizes (λ p. record { shallow = shallow; starts = p.0; shared = p.1 })
          (
            ap (λ (p : ℕ). (t.segments p).segment_id) held
                ∙ v.index
                ∙ sym whole
                ∙ ap (λ (q : ℕ). q * c) (sym here),
            λ j l. (
              λ e.
                  let u = f j l in
                  let w = u.first in
                  let place : w + (j - w) ≡ j = omega (arith, u.from) in
                  let mine : slot t.segment_directory j ≡ slot t.segment_directory w =
                    ap (slot t.segment_directory) (sym place)
                    ∙ u.same (j - w) (omega (arith, u.from, u.below)) in
                  let same : w ≡ i =
                    sym u.index
                    ∙ ap (λ (p : ℕ). (t.segments p).segment_id) (sym mine ∙ e ∙ held)
                    ∙ v.index in
                  let below : j < i + c = subst (λ (n : ℕ). j < n + chunk b t n) same u.below in
                  block j (omega (arith, u.from, same)) below ∙ sym here,
              λ e.
                  let bounds = block_bounds j c some_slots in
                  let q : j / c * c ≡ i = ap (λ (n : ℕ). n * c) (e ∙ here) ∙ whole in
                  at j (omega (arith, bounds.0, q)) (omega (arith, bounds.1, q)) ∙ sym held,
            ),
          )
