-- ===== src/Util/Text.antt =====
-- `EqualsIgnoreCase` of src/core/util.cc.
use nano_redis.Prelude.{true, [], ◌∷◌, Bytes, length, map, ◌≡◌, ◌↔◌, refl, arith}
use nano_redis.Util.{upper, same_letters, equals_ignore_case}

same_letters-map :
    (a b : Bytes) → length a ≡ length b → same_letters a b ≡ true → map upper a ≡ map upper b
unfolding same_letters
same_letters-map [] [] l h = refl
same_letters-map [] (y ∷ b) l h = absurd (omega arith)
same_letters-map (x ∷ a) [] l h = absurd (omega arith)
same_letters-map (x ∷ a) (y ∷ b) l h = ground (arith, same_letters-map a b)

map-same_letters :
    (a b : Bytes) → map upper a ≡ map upper b → (length a ≡ length b) × (same_letters a b ≡ true)
unfolding same_letters
map-same_letters [] [] h = (refl, refl)
map-same_letters [] (y ∷ b) h = cc
map-same_letters (x ∷ a) [] h = cc
map-same_letters (x ∷ a) (y ∷ b) h = ground (arith, map-same_letters a b)

-- `EqualsIgnoreCase` holds of two texts exactly if they are the same once every ASCII letter is a
-- capital.
pub equals_ignore_case_iff :
    (a b : Bytes) → (equals_ignore_case a b ≡ true) ↔ (map upper a ≡ map upper b)
unfolding equals_ignore_case
equals_ignore_case_iff a b = (
  λ h. same_letters-map a b (ground arith) (ground arith),
  λ h. let (l, same) = map-same_letters a b h in ground arith,
)
