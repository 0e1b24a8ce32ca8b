-- ===== src/SetFamily/Combining.antt =====
-- SINTER, SUNION and SDIFF of src/command/set_family.cc on the abstract keyspace.
use nano_redis.Prelude.{
  ℕ, ◌+◌, ◌≡◌, ◌⊎◌, inl, inr, refl, ap, ◌∙◌, sym, arith, Bool, true, false, ◌&&◌, ◌||◌, Option,
  none, some, List, [], ◌∷◌, Bytes,
}
use mathlib.Core.Path.{fun_ext}
use nano_redis.Prelude.Int.{ℤ}
use nano_redis.NanoObj.{NanoObj}
use nano_redis.Database.{Database}
use nano_redis.Database.Interface.{Table}
use nano_redis.Database.Expiry.{find, find_live, prune_expired_in_db}
use nano_redis.Database.View.{entry}
use nano_redis.Database.Methods.{value_of, find-Updates, entry_congr}
use nano_redis.ListFamily.Handlers.{Clock}
use nano_redis.SetFamily.Interface.{contains}
use nano_redis.SetFamily.Many.{as_set, with_found, members_reply, changed_by, gather, each_set}
use nano_redis.SetFamily.Members.{in_all}

-- Is `x` in the set that was found, if one was?
abbrev pub has : Option (Option (List Bytes)) → Bytes → Bool
has (some (some s)) x = contains s x
has _ x = false

-- No null pointer under the keys.
abbrev pub is_sound : Option (Option (List Bytes)) → Bool
is_sound (some none) = false
is_sound _ = true

abbrev pub are_sound : (NanoObj → Option (Option (List Bytes))) → List NanoObj → Bool
are_sound seen [] = true
are_sound seen (key ∷ keys) = is_sound (seen key) && are_sound seen keys

abbrev pub in_some : (NanoObj → Option (Option (List Bytes))) → List NanoObj → Bytes → Bool
in_some seen [] x = false
in_some seen (key ∷ keys) x = has (seen key) x || in_some seen keys x

abbrev pub in_every : (NanoObj → Option (Option (List Bytes))) → List NanoObj → Bytes → Bool
in_every seen [] x = true
in_every seen (key ∷ keys) x = has (seen key) x && in_every seen keys x

-- The reply has the members of a set: those that satisfy `p`.
pub record RepliesMembers (o : Option Bytes) (p : Bytes → Bool) : Type 0 where
  pub members : List Bytes
  pub replies : o ≡ some (members_reply members)
  pub contains_them : (x : Bytes) → contains members x ≡ p x

-- A set has been made: of those that satisfy `p`.
pub record Made (o : Option (List Bytes)) (p : Bytes → Bool) : Type 0 where
  pub members : List Bytes
  pub is : o ≡ some members
  pub contains_them : (x : Bytes) → contains members x ≡ p x

-- Sets have been found: `p` has what is in all of them.
pub record Found (o : Option (Option (List (List Bytes)))) (p : Bytes → Bool) : Type 0 where
  pub sets : List (List Bytes)
  pub is : o ≡ some (some sets)
  pub in_them : (x : Bytes) → in_all sets x ≡ p x

-- The loop over the keys, from what is seen under each.
abbrev pub folded :
    (List Bytes → List Bytes → List Bytes)
    → (NanoObj → Option (Option (List Bytes)))
    → List NanoObj
    → Option (List Bytes)
    → Option (List Bytes)
folded f seen [] s = s
folded f seen (key ∷ keys) s = folded f seen keys (changed_by f s (seen key))

abbrev pub found_in :
    (NanoObj → Option (Option (List Bytes))) → List NanoObj → Option (Option (List (List Bytes)))
found_in seen [] = some (some [])
found_in seen (key ∷ keys) = with_found (seen key) (found_in seen keys)

module _ (f : List Bytes → List Bytes → List Bytes) (op : Bool → Bool → Bool)
    (contains_op : (s t : List Bytes) (x : Bytes)
      → contains (f s t) x ≡ op (contains s x) (contains t x))
    (op-false : (a : Bool) → op a false ≡ a)
    (op-op : (a b e : Bool) → op (op a b) e ≡ op a (b || e)) where
  pub folded-Made :
      (seen : NanoObj → Option (Option (List Bytes))) (keys : List NanoObj) (s : List Bytes)
      → are_sound seen keys ≡ true
      → Made (folded f seen keys (some s)) (λ x. op (contains s x) (in_some seen keys x))
  folded-Made seen [] s h = record {
    members = s;
    is = refl;
    contains_them = λ x. sym (op-false (contains s x));
  }
  folded-Made seen (key ∷ keys) s h =
      by_set (folded-Made seen keys) (seen key) (ground (arith, h)) (ground (arith, h))
    where
      by_set :
          ((t : List Bytes)
            → are_sound seen keys ≡ true
            → Made (folded f seen keys (some t)) (λ x. op (contains t x) (in_some seen keys x)))
          → (o : Option (Option (List Bytes))) → is_sound o ≡ true
          → are_sound seen keys ≡ true
          → Made
              (folded f seen keys (changed_by f (some s) o))
              (λ x. op (contains s x) (has o x || in_some seen keys x))
      by_set rest none p q = rest s q
      by_set rest (some none) p q = absurd (ground (arith, p))
      by_set rest (some (some t)) p q =
          let r = rest (f s t) q in
          record {
            members = r.members;
            is = r.is;
            contains_them = λ x.
                r.contains_them x
                ∙ ap (λ (a : Bool). op a (in_some seen keys x)) (contains_op s t x)
                ∙ op-op (contains s x) (contains t x) (in_some seen keys x);
          }

pub found_in-Found :
    (seen : NanoObj → Option (Option (List Bytes))) (keys : List NanoObj)
    → are_sound seen keys ≡ true
    → ((found_in seen keys ≡ none) × ((x : Bytes) → in_every seen keys x ≡ false))
      ⊎ Found (found_in seen keys) (in_every seen keys)
found_in-Found seen [] h = inr (record { sets = []; is = refl; in_them = λ x. refl })
found_in-Found seen (key ∷ keys) h =
    by_set (seen key) (ground (arith, h)) (found_in-Found seen keys (ground (arith, h)))
  where
    by_set :
        (o : Option (Option (List Bytes)))
        → is_sound o ≡ true
        → ((found_in seen keys ≡ none) × ((x : Bytes) → in_every seen keys x ≡ false))
          ⊎ Found (found_in seen keys) (in_every seen keys)
        → ((with_found o (found_in seen keys) ≡ none)
            × ((x : Bytes) → (has o x && in_every seen keys x) ≡ false))
          ⊎ Found (with_found o (found_in seen keys)) (λ x. has o x && in_every seen keys x)
    by_set none p r = inl (refl, λ x. refl)
    by_set (some none) p r = absurd (ground (arith, p))
    by_set (some (some s)) p (inl (e, q)) =
        inl (ap (with_found (some (some s))) e, λ x. ground (arith, q x))
    by_set (some (some s)) p (inr r) = inr (record {
      sets = s ∷ r.sets;
      is = ap (with_found (some (some s))) r.is;
      in_them = λ x. ap (λ (b : Bool). contains s x && b) (r.in_them x);
    })

module _ {T : Table NanoObj} {E : Table ℤ} where
  -- The sets of the current database, by what can be seen.
  abbrev pub sets_now : ℤ → Database T E → NanoObj → Option (Option (List Bytes))
  sets_now now d q = as_set (value_of (entry now d.current_db q d))

  current_db-find :
      (key : NanoObj) (now : ℤ) (d : Database T E) → (find key now d).0.current_db ≡ d.current_db
  unfolding find find_live prune_expired_in_db
  current_db-find key now d = ground arith

  pub entry-find :
      (key : NanoObj) (now : ℤ) (d : Database T E) (j : ℕ) (q : NanoObj)
      → entry now j q (find key now d).0 ≡ entry now j q d
  entry-find key now d j q = (find-Updates key now d).writes j q ∙ sym (entry_congr key now d j q)

  pub sets_now-find :
      (key : NanoObj) (now : ℤ) (d : Database T E)
      → sets_now now (find key now d).0 ≡ sets_now now d
  sets_now-find key now d = fun_ext λ q.
      ap (λ e. as_set (value_of e))
        (ap (λ (n : ℕ). entry now n q (find key now d).0) (current_db-find key now d)
          ∙ entry-find key now d d.current_db q)

  pub each_set-folded :
      (f : List Bytes → List Bytes → List Bytes) (keys : List NanoObj) (clock : Clock) (now : ℤ)
      (i : ℕ) (s : Option (List Bytes)) (d : Database T E)
      → ((n : ℕ) → clock n ≡ now)
      → ((j : ℕ) (q : NanoObj) → entry now j q (each_set f keys clock i s d).0 ≡ entry now j q d)
        × ((each_set f keys clock i s d).1 ≡ folded f (sets_now now d) keys s)
  unfolding each_set
  each_set-folded f [] clock now i s d still = (λ j q. refl, refl)
  each_set-folded f (key ∷ keys) clock now i s d still =
      rw (still i, each_set)
        (let d1 = (find key now d).0 in
          let found = (find-Updates key now d).returns in
          let s1 = changed_by f s (as_set (find key now d).1) in
          let (entries, result) = each_set-folded f keys clock now (i + 1) s1 d1 still in
          (
            λ j q. entries j q ∙ entry-find key now d j q,
            result ∙ (λ k.
                folded f (sets_now-find key now d k) keys (changed_by f s (as_set (found k)))),
          ))

  pub gather-found_in :
      (keys : List NanoObj) (clock : Clock) (now : ℤ) (i : ℕ) (d : Database T E)
      → ((n : ℕ) → clock n ≡ now)
      → (gather keys clock i d).1 ≡ found_in (sets_now now d) keys
  unfolding gather
  gather-found_in [] clock now i d still = refl
  gather-found_in (key ∷ keys) clock now i d still = rw (still i) (
      let found = (find-Updates key now d).returns in
      let result = gather-found_in keys clock now (i + 1) (find key now d).0 still in
      λ k.
        with_found (as_set (found k))
          ((result ∙ ap (λ seen. found_in seen keys) (sets_now-find key now d)) k))
