-- ===== src/Database/Interface.antt =====
-- The table of values or of deadlines under the keys of one database, as its users take it: the
-- operations of `DashTable<NanoObj, V>` and the laws that they rely on. Keys are compared by
-- `obj_eq`; a key that is not equal to itself, as the null object, is never found.
use nano_redis.Prelude.{◌≡◌, Bool, true, false, Option, none, some, List, [], ◌∷◌, if◌then◌else◌}
use nano_redis.NanoObj.{NanoObj}
use nano_redis.NanoObj.Ops.{obj_eq}

abbrev pub is_some {ℓ} : {A : Type ℓ} → Option A → Bool
is_some none = false
is_some (some a) = true

-- Every entry of the list is what `f` finds under its key.
abbrev pub AllFound : {V : Type 0} → (NanoObj → Option V) → List (NanoObj × V) → Type 0
AllFound f [] = Unit
AllFound f ((k, v) ∷ l) = (f k ≡ some v) × AllFound f l

pub record Table (V : Type 0) : Type 1 where
  pub Rep : Type 0
  pub empty : Rep
  pub find : Rep → NanoObj → Option V
  pub insert : Rep → NanoObj → V → Rep
  -- a write through the pointer that `find` returns
  pub assign : Rep → NanoObj → V → Rep
  pub erase : Rep → NanoObj → Rep
  pub clear : Rep → Rep
  -- the entries in the order of `ForEach`
  pub entries : Rep → List (NanoObj × V)
  pub find-empty : (k : NanoObj) → find empty k ≡ none
  pub find_congr : (t : Rep) (k j : NanoObj) → obj_eq k j ≡ true → find t k ≡ find t j
  pub find_unequal : (t : Rep) (k : NanoObj) → obj_eq k k ≡ false → find t k ≡ none
  pub find-insert :
      (t : Rep) (k j : NanoObj) (v : V)
      → find (insert t k v) j ≡ (if obj_eq k j then some v else find t j)
  pub find-assign :
      (t : Rep) (k j : NanoObj) (v : V)
      → find (assign t k v) j
        ≡ (if obj_eq k j then (if is_some (find t k) then some v else none) else find t j)
  pub find-erase :
      (t : Rep) (k j : NanoObj) → find (erase t k) j ≡ (if obj_eq k j then none else find t j)
  pub find-clear : (t : Rep) (k : NanoObj) → find (clear t) k ≡ none
