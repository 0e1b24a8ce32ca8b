-- ===== src/DashTable/Directory.antt =====
-- The vector of pointers of src/core/dashtable.cc: reads after writes, fills and growth.
use nano_redis.Prelude.{
  ℕ, zero, suc, ◌+◌, ◌<◌, ◌≡◌, refl, arith, ◌&&◌, List, [], ◌∷◌, ◌++◌, length, set, leb, ltb, ◌==◌,
  if◌then◌else◌, length-set, ◌≢◌, ==_iff, Bool-cases, inl, inr,
}
use nano_redis.DashTable.{slot, write, nulls, fill, addresses}

pub slot-set :
    (d : List ℕ) (i p j : ℕ)
    → slot (set d i p) j ≡ (if j == i && ltb i (length d) then p else slot d j)
slot-set [] i p j = ground arith
slot-set (q ∷ d) zero p zero = ground arith
slot-set (q ∷ d) zero p (suc j) = ground arith
slot-set (q ∷ d) (suc i) p zero = ground arith
slot-set (q ∷ d) (suc i) p (suc j) = ground (arith, slot-set d i p j)

pub slot-append : (d e : List ℕ) (j : ℕ) → j < length d → slot (d ++ e) j ≡ slot d j
slot-append [] e j h = absurd (omega arith)
slot-append (q ∷ d) e zero h = refl
slot-append (q ∷ d) e (suc j) h = slot-append d e j (omega arith)

pub length-nulls : (n : ℕ) → length (nulls n) ≡ n
length-nulls zero = refl
length-nulls (suc n) = omega (arith, length-nulls n)

pub length-addresses : (n i : ℕ) → length (addresses n i) ≡ n
length-addresses zero i = refl
length-addresses (suc n) i = omega (arith, length-addresses n (i + 1))

pub slot-addresses : (n i j : ℕ) → j < n → slot (addresses n i) j ≡ i + j
slot-addresses zero i j h = absurd (omega arith)
slot-addresses (suc n) i zero h = omega arith
slot-addresses (suc n) i (suc j) h = omega (arith, slot-addresses n (i + 1) j (omega arith))

pub length-fill : (n : ℕ) (d : List ℕ) (i p : ℕ) → length (fill n d i p) ≡ length d
length-fill zero d i p = refl
length-fill (suc n) d i p = omega (arith, length-fill n (set d i p) (i + 1) p, length-set d i p)

pub slot-fill :
    (n : ℕ) (d : List ℕ) (i p j : ℕ)
    → j < length d
    → slot (fill n d i p) j ≡ (if leb i j && ltb j (i + n) then p else slot d j)
slot-fill zero d i p j h = ground arith
slot-fill (suc n) d i p j h =
    ground (arith, slot-fill n (set d i p) (i + 1) p j, slot-set d i p j, length-set d i p)

module _ {ℓ} {A : Type ℓ} (f : ℕ → A) (p : ℕ) (a : A) where
  pub write-same : write f p a p ≡ a
  write-same = rw ((==_iff p p).1 refl) refl

  pub write-other : (q : ℕ) → q ≢ p → write f p a q ≡ f q
  write-other q h = elim (Bool-cases (q == p)) [
    | inl e ↦ absurd (h ((==_iff q p).0 e))
    | inr e ↦ rw e refl
  ]
