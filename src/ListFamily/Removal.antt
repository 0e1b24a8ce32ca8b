-- ===== src/ListFamily/Removal.antt =====
-- LREM of src/command/list_family.cc: which elements it removes.
use nano_redis.Prelude.{
  ℕ, zero, suc, ◌+◌, ◌<◌, min, true, ◌&&◌, List, [], ◌∷◌, ◌++◌, Bytes, ltb, Bool-cases, inl, inr,
  ◌≡◌, refl, sym, ap, ◌∙◌, arith,
}
use nano_redis.Prelude.Int.{ℤ, pos, negsuc}
use nano_redis.NanoObj.{NanoObj}
use nano_redis.ListFamily.Deque.{shows, remove, remove_front, remove_back}
use nano_redis.ListFamily.Ranges.{occurrences, without, remove_all_lem}

without-append :
    (value : Bytes) (a b : List NanoObj)
    → without value (a ++ b) ≡ without value a ++ without value b
without-append value [] b = refl
without-append value (o ∷ a) b = elim (Bool-cases (shows o value)) [
  | inl s ↦ rw s (without-append value a b)
  | inr s ↦ rw s (ap (λ (t : List NanoObj). o ∷ t) (without-append value a b))
]

occurrences-append :
    (value : Bytes) (a b : List NanoObj)
    → occurrences value (a ++ b) ≡ occurrences value a + occurrences value b
occurrences-append value [] b = omega arith
occurrences-append value (o ∷ a) b = elim (Bool-cases (shows o value)) [
  | inl s ↦ rw s (omega (arith, occurrences-append value a b))
  | inr s ↦ rw s (occurrences-append value a b)
]

without_none : (value : Bytes) (a : List NanoObj) → occurrences value a ≡ 0 → without value a ≡ a
without_none value [] h = refl
without_none value (o ∷ a) h = elim (Bool-cases (shows o value)) [
  | inl s ↦ absurd (ground arith)
  | inr s ↦ rw s (ap (λ (t : List NanoObj). o ∷ t) (without_none value a (ground arith)))
]

-- `kept` is the list without the value in its front part, which has as many of it as were to be
-- removed, or all.
abbrev pub FrontRemoved : ℕ → Bytes → List NanoObj → List NanoObj × ℕ → Type 0
FrontRemoved n value list (kept, removed) =
    (a : List NanoObj) × (b : List NanoObj) × ((list ≡ a ++ b)
      × ((kept ≡ without value a ++ b)
          × ((removed ≡ occurrences value a) × (removed ≡ min n (occurrences value list)))))

-- The same from the back.
abbrev pub BackRemoved : ℕ → Bytes → List NanoObj → List NanoObj × ℕ → Type 0
BackRemoved n value list (kept, removed) =
    (b : List NanoObj) × (a : List NanoObj) × ((list ≡ b ++ a)
      × ((kept ≡ b ++ without value a)
          × ((removed ≡ occurrences value a) × (removed ≡ min n (occurrences value list)))))

-- LREM from the front with a count `n`: what is left is the list without the value in some front part
-- of it, the back part as it was; the number of removed elements is how often the value is shown in
-- that front part, and it is `n` or, if that is less, how often it is shown in the list.
pub remove_front-FrontRemoved :
    (n : ℕ) (value : Bytes) (list : List NanoObj)
    → FrontRemoved n value list (remove_front n value list)
unfolding remove_front
remove_front-FrontRemoved zero value list = ([], list, (refl, (refl, (refl, omega arith))))
remove_front-FrontRemoved (suc n) value [] = ([], [], (refl, (refl, (refl, omega arith))))
remove_front-FrontRemoved (suc n) value (o ∷ list) = elim (Bool-cases (shows o value)) [
  | inl s ↦
      let (a, b, (whole, (kept, (count, least)))) = remove_front-FrontRemoved n value list in
      rw s (
        o ∷ a,
        b,
        (
          ap (λ (t : List NanoObj). o ∷ t) whole,
          (rw s kept, (rw s (omega (arith, count)), omega (arith, least))),
        ),
      )
  | inr s ↦
      let (a, b, (whole, (kept, (count, least)))) = remove_front-FrontRemoved (suc n) value list in
      rw s (
        o ∷ a,
        b,
        (
          ap (λ (t : List NanoObj). o ∷ t) whole,
          (rw s (ap (λ (t : List NanoObj). o ∷ t) kept), (rw s count, least)),
        ),
      )
]

-- LREM from the back with a positive count `n`: what is left is the list without the value in some
-- back part of it, the front part as it was; the number of removed elements is how often the value is
-- shown in that back part, and it is `n` or, if that is less, how often it is shown in the list.
pub remove_back-BackRemoved :
    (n : ℕ) (value : Bytes) (list : List NanoObj)
    → BackRemoved n value list (remove_back n value list)
unfolding remove_back
remove_back-BackRemoved n value [] = ([], [], (refl, (refl, (refl, omega arith))))
remove_back-BackRemoved n value (o ∷ list) =
    let (b, a, (whole, (kept, (count, least)))) = remove_back-BackRemoved n value list in
    let r = (remove_back n value list).1 in
    elim (Bool-cases (ltb r n && shows o value)) [
      | inl t ↦
          let below : r < n = ground arith in
          let s : shows o value ≡ true = ground arith in
          let none_left : occurrences value b ≡ 0 = omega (
            arith,
            below,
            count,
            least,
            ap (λ (l : List NanoObj). occurrences value l) whole,
            occurrences-append value b a,
          ) in
          let rest : without value list ≡ b ++ without value a =
            ap (λ (l : List NanoObj). without value l) whole
            ∙ without-append value b a
            ∙ ap (λ (l : List NanoObj). l ++ without value a) (without_none value b none_left) in
          rw t (
            [],
            o ∷ list,
            (
              refl,
              (
                rw s (kept ∙ sym rest),
                (rw s (omega (arith, below, least)), rw s (omega (arith, below, least))),
              ),
            ),
          )
      | inr t ↦
          let all : r ≡ min n (occurrences value (o ∷ list)) = ground (arith, least) in
          rw t (
            o ∷ b,
            a,
            (
              ap (λ (l : List NanoObj). o ∷ l) whole,
              (ap (λ (l : List NanoObj). o ∷ l) kept, (count, all)),
            ),
          )
    ]

-- What LREM is to leave of a list, and how many elements are gone, by its count.
abbrev pub Removed : ℤ → Bytes → List NanoObj → List NanoObj × ℕ → Type 0
Removed (pos zero) value list (kept, removed) =
    (kept ≡ without value list) × (removed ≡ occurrences value list)
Removed (pos (suc n)) value list out = FrontRemoved (suc n) value list out
Removed (negsuc n) value list out = BackRemoved (suc n) value list out

pub remove-Removed :
    (n : ℤ) (value : Bytes) (list : List NanoObj) → Removed n value list (remove n value list)
remove-Removed (pos zero) value list = (
  ap (λ (r : List NanoObj × ℕ). r.0) (remove_all_lem value list),
  ap (λ (r : List NanoObj × ℕ). r.1) (remove_all_lem value list),
)
remove-Removed (pos (suc n)) value list = remove_front-FrontRemoved (suc n) value list
remove-Removed (negsuc n) value list = remove_back-BackRemoved (suc n) value list
