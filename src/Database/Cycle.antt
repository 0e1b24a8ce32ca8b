-- ===== src/Database/Cycle.antt =====
-- `ActiveExpireCycle` of src/core/database.cc on the abstract keyspace.
use nano_redis.Prelude.{
  ℕ, suc, zero, ◌≤◌, ◌≢◌, true, Option, none, List, [], ◌∷◌, take, Bool-cases, inl, inr, ◌==◌, ◌≡◌,
  refl, sym, ◌∙◌, arith,
}
use mathlib.Core.Path.{subst}
use nano_redis.Prelude.Int.{ℤ, leb_ℤ}
use nano_redis.NanoObj.{NanoObj}
use nano_redis.Database.{Database, num_dbs}
use nano_redis.Database.Interface.{Table, AllFound}
use nano_redis.Database.Expiry.{erase_in_db}
use nano_redis.Database.Sweep.{expired_keys, delete_keys, cycle_first, active_expire_cycle}
use nano_redis.Database.View.{entry, is_at, entry-erase_in_db}

AllFound-take :
    {V : Type 0} (f : NanoObj → Option V) (n : ℕ) (l : List (NanoObj × V))
    → AllFound f l
    → AllFound f (take n l)
AllFound-take f zero l h = tt
AllFound-take f (suc n) [] h = tt
AllFound-take f (suc n) ((k, v) ∷ l) (h, hs) = (h, AllFound-take f n l hs)

module _ {T : Table NanoObj} {E : Table ℤ} where
  -- Nothing can be seen under the keys.
  abbrev AllHidden : ℤ → ℕ → List NanoObj → Database T E → Type 0
  AllHidden now i [] d = Unit
  AllHidden now i (k ∷ l) d = (entry now i k d ≡ none) × AllHidden now i l d

  -- Two databases that look the same.
  abbrev Same : ℤ → Database T E → Database T E → Type 0
  Same now d' d = (j : ℕ) (q : NanoObj) → entry now j q d' ≡ entry now j q d

  AllHidden-Same :
      (now : ℤ) (i : ℕ) (l : List NanoObj) (d' d : Database T E)
      → Same now d' d
      → AllHidden now i l d
      → AllHidden now i l d'
  AllHidden-Same now i [] d' d e h = tt
  AllHidden-Same now i (k ∷ l) d' d e (h, hs) = (e i k ∙ h, AllHidden-Same now i l d' d e hs)

  entry_at :
      (now : ℤ) (i : ℕ) (key : NanoObj) (d : Database T E) (j : ℕ) (q : NanoObj)
      → is_at i key j q ≡ true
      → entry now j q d ≡ entry now i key d
  unfolding entry
  entry_at now i key d j q h =
      ground (arith, T.find_congr (d.tables i) key q, E.find_congr (d.expire_tables i) key q)

  erase-Same :
      (now : ℤ) (i : ℕ) (key : NanoObj) (d : Database T E)
      → entry now i key d ≡ none
      → Same now (erase_in_db i key d) d
  erase-Same now i key d h j q = elim (Bool-cases (is_at i key j q)) [
    | inl p ↦ entry-erase_in_db d i j key q now ∙ rw p (sym (entry_at now i key d j q p ∙ h))
    | inr p ↦ entry-erase_in_db d i j key q now ∙ rw p refl
  ]

  delete_keys-Same :
      (now : ℤ) (i : ℕ) (l : List NanoObj) (d : Database T E) (n : ℕ)
      → AllHidden now i l d
      → Same now (delete_keys i l d n).0 d
  unfolding delete_keys
  delete_keys-Same now i [] d n h j q = refl
  delete_keys-Same now i (k ∷ l) d n (h, hs) j q =
      let d' = erase_in_db i k d in
      delete_keys-Same now i l d' _ (AllHidden-Same now i l d' d (erase-Same now i k d h) hs) j q
      ∙ erase-Same now i k d h j q

  delete_keys_other :
      (i : ℕ) (l : List NanoObj) (d : Database T E) (n j : ℕ)
      → j ≢ i
      → (delete_keys i l d n).0.expire_tables j ≡ d.expire_tables j
  unfolding delete_keys
  delete_keys_other i [] d n j h = refl
  delete_keys_other i (k ∷ l) d n j h =
      delete_keys_other i l (erase_in_db i k d) _ j h ∙ ground (arith, h)

  hidden_expired :
      (now : ℤ) (i : ℕ) (d : Database T E) (l : List (NanoObj × ℤ))
      → AllFound (E.find (d.expire_tables i)) l
      → AllHidden now i (expired_keys now l) d
  unfolding expired_keys entry
  hidden_expired now i d [] h = tt
  hidden_expired now i d ((k, at) ∷ l) (h, hs) = elim (Bool-cases (leb_ℤ at now)) [
    | inl p ↦ rw p (ground (arith, h, p), hidden_expired now i d l hs)
    | inr p ↦ rw p (hidden_expired now i d l hs)
  ]

  -- The entries that the tables of deadlines list are what they find.
  abbrev pub AllListed : Database T E → Type 0
  AllListed d = (i : ℕ) → AllFound (E.find (d.expire_tables i)) (E.entries (d.expire_tables i))

  cycle_first_other :
      (n max_keys : ℕ) (now : ℤ) (d : Database T E) (j : ℕ)
      → n ≤ j
      → (cycle_first n max_keys now d).0.expire_tables j ≡ d.expire_tables j
  unfolding cycle_first
  cycle_first_other zero max_keys now d j h = refl
  cycle_first_other (suc n) max_keys now d j h =
      let (d', deleted) = cycle_first n max_keys now d in
      delete_keys_other n (expired_keys now (take max_keys (E.entries (d'.expire_tables n)))) d'
        deleted j (omega arith)
      ∙ cycle_first_other n max_keys now d j (omega arith)

  cycle_first-Same :
      (n max_keys : ℕ) (now : ℤ) (d : Database T E)
      → AllListed d
      → Same now (cycle_first n max_keys now d).0 d
  unfolding cycle_first
  cycle_first-Same zero max_keys now d h j q = refl
  cycle_first-Same (suc n) max_keys now d h j q =
      let d' = (cycle_first n max_keys now d).0 in
      let deleted = (cycle_first n max_keys now d).1 in
      let listed : AllFound (E.find (d'.expire_tables n)) (E.entries (d'.expire_tables n)) =
        subst (λ (t : E.Rep). AllFound (E.find t) (E.entries t))
          (sym (cycle_first_other n max_keys now d n (omega arith))) (h n) in
      delete_keys-Same now n (expired_keys now (take max_keys (E.entries (d'.expire_tables n)))) d'
        deleted
        (hidden_expired now n d' (take max_keys (E.entries (d'.expire_tables n))) (
          AllFound-take (E.find (d'.expire_tables n)) max_keys (E.entries (d'.expire_tables n))
            listed))
        j q
      ∙ cycle_first-Same n max_keys now d h j q

  -- Where the entries that the tables of deadlines list are what they find, `ActiveExpireCycle`
  -- changes nothing that can be seen at its time, under no key of no database, however many entries
  -- it may scan.
  pub entry-active_expire_cycle :
      (max_keys : ℕ) (now : ℤ) (d : Database T E) (j : ℕ) (q : NanoObj)
      → AllListed d
      → entry now j q (active_expire_cycle max_keys now d).0 ≡ entry now j q d
  unfolding active_expire_cycle
  entry-active_expire_cycle max_keys now d j q h = elim (Bool-cases (max_keys == 0)) [
    | inl p ↦ rw p refl
    | inr p ↦ rw p (cycle_first-Same num_dbs max_keys now d h j q)
  ]
