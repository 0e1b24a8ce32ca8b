-- ===== src/DashTable/Interface.antt =====
-- The hash map of one segment (`ankerl::unordered_dense::map`, a vendored library) with its hash
-- function, as src/core/dashtable.cc uses them: operations, and the laws of a map.
use nano_redis.Prelude.{
  ℕ, ◌+◌, ◌≤◌, ◌<◌, ◌^◌, ◌≡◌, Bool, true, false, not, ◌&&◌, ◌||◌, Option, none, some, List, [], ◌∷◌,
  if◌then◌else◌,
}

abbrev pub is_some {ℓ} : {A : Type ℓ} → Option A → Bool
is_some none = false
is_some (some a) = true

abbrev pub one_if : Bool → ℕ → ℕ
one_if true n = n + 1
one_if false n = n

-- How many of the keys satisfy `p`.
abbrev pub count : {K : Type 0} → (K → Bool) → List K → ℕ
count p [] = 0
count p (k ∷ ks) = one_if (p k) (count p ks)

-- Does the list have a key that `equal` takes for `j`?
abbrev pub listed : {K : Type 0} → (K → K → Bool) → List K → K → Bool
listed equal [] j = false
listed equal (k ∷ ks) j = equal k j || listed equal ks j

-- A test that does not tell equal keys apart.
abbrev pub Respects : {K : Type 0} → (K → K → Bool) → (K → Bool) → Type 0
Respects {K} equal p = (k j : K) → equal k j ≡ true → p k ≡ p j

pub record Buckets (K V : Type 0) : Type 1 where
  -- `ankerl::unordered_dense::hash<K>` and the key's `==`
  pub hash : K → ℕ
  pub equal : K → K → Bool
  pub Rep : Type 0
  pub empty : Rep
  pub find : Rep → K → Option V
  pub insert : Rep → K → V → Rep
  pub insert_or_assign : Rep → K → V → Rep
  pub erase : Rep → K → Rep
  pub clear : Rep → Rep
  pub size : Rep → ℕ
  -- the keys from `begin()` to `end()`
  pub keys : Rep → List K
  pub equal_symm : (k j : K) → equal k j ≡ true → equal j k ≡ true
  pub equal_trans : (k j i : K) → equal k j ≡ true → equal j i ≡ true → equal k i ≡ true
  pub hash-lt : (k : K) → hash k < 2 ^ 64
  pub hash_congr : (k j : K) → equal k j ≡ true → hash k ≡ hash j
  pub find_congr : (m : Rep) (k j : K) → equal k j ≡ true → find m k ≡ find m j
  pub find-empty : (k : K) → find empty k ≡ none
  pub find-insert :
      (m : Rep) (k j : K) (v : V)
      → find (insert m k v) j ≡ (if equal k j && not (is_some (find m k)) then some v else find m j)
  pub find-insert_or_assign :
      (m : Rep) (k j : K) (v : V)
      → find (insert_or_assign m k v) j ≡ (if equal k j then some v else find m j)
  pub find-erase : (m : Rep) (k j : K) → find (erase m k) j ≡ (if equal k j then none else find m j)
  pub find-clear : (m : Rep) (k : K) → find (clear m) k ≡ none
  pub listed-keys : (m : Rep) (j : K) → listed equal (keys m) j ≡ is_some (find m j)
  pub size_lem : (m : Rep) → size m ≡ count (λ k. true) (keys m)
  pub count-empty : (p : K → Bool) → count p (keys empty) ≡ 0
  pub count-insert-le :
      (p : K → Bool) (m : Rep) (k : K) (v : V)
      → count p (keys (insert m k v)) ≤ one_if (p k) (count p (keys m))
  pub count-insert_or_assign-le :
      (p : K → Bool) (m : Rep) (k : K) (v : V)
      → count p (keys (insert_or_assign m k v)) ≤ one_if (p k) (count p (keys m))
  pub count-erase-le :
      (p : K → Bool) (m : Rep) (k : K)
      → Respects equal p
      → is_some (find m k) ≡ true
      → one_if (p k) (count p (keys (erase m k))) ≤ count p (keys m)
