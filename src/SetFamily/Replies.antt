-- ===== src/SetFamily/Replies.antt =====
-- The replies of SINTER, SUNION and SDIFF of src/command/set_family.cc.
use nano_redis.Prelude.{
  ℕ, ◌≡◌, ◌⊎◌, inl, inr, refl, ap, ◌∙◌, sym, arith, Bool, true, false, not, ◌&&◌, ◌||◌, Option,
  none, some, List, [], ◌∷◌, append-nil, Bytes, Bool-cases,
}
use mathlib.Core.Path.{subst}
use nano_redis.Prelude.Int.{ℤ, pos}
use nano_redis.NanoObj.{NanoObj}
use nano_redis.NanoObj.Ops.{is_set}
use nano_redis.Resp.{make_array}
use nano_redis.Database.{Database}
use nano_redis.Database.Interface.{Table}
use nano_redis.Database.Expiry.{find}
use nano_redis.Database.View.{entry}
use nano_redis.Database.Methods.{find-Updates}
use nano_redis.ListFamily.Handlers.{Clock, Out, reply}
use nano_redis.SetFamily.{all_keys_same_shard, set_of, insert_members, erase_members}
use nano_redis.SetFamily.Interface.{Sets, contains}
use nano_redis.SetFamily.Handlers.{on_set, with_set_in}
use nano_redis.SetFamily.Many.{
  as_set, with_found, reply_members, each_set, gather, intersected, subtract, s_inter, s_union,
  s_diff,
}
use nano_redis.SetFamily.Members.{
  intersect-contains, insert_members-contains, erase_members-contains,
}
use nano_redis.SetFamily.Combining.{
  has, is_sound, are_sound, in_some, in_every, RepliesMembers, Made, Found, found_in, folded-Made,
  found_in-Found, sets_now, sets_now-find, each_set-folded, gather-found_in,
}

module _ {T : Table NanoObj} {E : Table ℤ} where
  reply_members-RepliesMembers :
      (o : Option (List Bytes)) (p : Bytes → Bool) (d : Database T E)
      → Made o p
      → RepliesMembers (reply_members o d).1 p
  reply_members-RepliesMembers o p d m = record {
    members = m.members;
    replies = ap (λ (s : Option (List Bytes)). (reply_members s d).1) m.is;
    contains_them = m.contains_them;
  }

  reply_members-state : (o : Option (List Bytes)) (d : Database T E) → (reply_members o d).0 ≡ d
  reply_members-state none d = refl
  reply_members-state (some s) d = refl

  -- A handler that only looks at the set.
  abbrev by_set :
      Option (Option (List Bytes))
      → (Database T E → Out T E)
      → (List Bytes → Database T E → Out T E)
      → Database T E
      → Out T E
  by_set none other g d = other d
  by_set (some none) other g d = (d, none)
  by_set (some (some s)) other g d = g s d

  on_set-by_set :
      (o : Option NanoObj) (other : Database T E → Out T E)
      (g : List Bytes → Database T E → Out T E) (d : Database T E)
      → on_set o other (λ obj. g) d ≡ by_set (as_set o) other g d
  on_set-by_set none other g d = refl
  on_set-by_set (some obj) other g d = elim (Bool-cases (is_set obj)) [
    | inl e ↦ rw e (pointed (set_of obj))
    | inr e ↦ rw e refl
  ]
    where
      pointed : (o : Option (List Bytes)) → with_set_in obj o (λ v. g) d ≡ by_set (some o) other g d
      pointed none = refl
      pointed (some s) = refl

  module _ (c : Sets) (shard : Option (Bytes → ℕ)) where
    -- SUNION of one or more keys of one shard, with a clock that stands still and no null pointer
    -- among the sets: the reply has the members of a set, of everything that is in one or more of
    -- the sets that can be seen under the keys; nothing that can be seen changes.
    pub s_union-RepliesMembers :
        (name key : NanoObj) (keys : List NanoObj) (clock : Clock) (now : ℤ) (d : Database T E)
        → ((n : ℕ) → clock n ≡ now)
        → all_keys_same_shard shard (key ∷ keys) ≡ true
        → are_sound (sets_now now d) (key ∷ keys) ≡ true
        → RepliesMembers
            (s_union c shard (name ∷ key ∷ keys) clock d).1
            (in_some (sets_now now d) (key ∷ keys))
          × ((j : ℕ) (q : NanoObj)
              → entry now j q (s_union c shard (name ∷ key ∷ keys) clock d).0 ≡ entry now j q d)
    unfolding s_union
    s_union-RepliesMembers name key keys clock now d still same sound = rw same (
        let f = insert_members c in
        let l = key ∷ keys in
        let (entries, result) = each_set-folded f l clock now 0 (some []) d still in
        let out = each_set f l clock 0 (some []) d in
        let made =
          folded-Made f (λ a b. a || b) (insert_members-contains c) (λ a. ground arith)
            (λ a b e. ground arith) (sets_now now d) l [] sound in
        (
          reply_members-RepliesMembers out.1 (in_some (sets_now now d) l) out.0 (
              subst (λ (o : Option (List Bytes)). Made o (in_some (sets_now now d) l)) (sym result)
                made),
          λ j q. ap (entry now j q) (reply_members-state out.1 out.0) ∙ entries j q,
        ))

    intersected-RepliesMembers :
        (o : Option (Option (List Bytes))) (seen : NanoObj → Option (Option (List Bytes)))
        (keys : List NanoObj) (d : Database T E)
        → is_sound o ≡ true
        → ((found_in seen keys ≡ none) × ((x : Bytes) → in_every seen keys x ≡ false))
          ⊎ Found (found_in seen keys) (in_every seen keys)
        → RepliesMembers
            (intersected c shard (with_found o (found_in seen keys)) d).1
            (λ x. has o x && in_every seen keys x)
    intersected-RepliesMembers none seen keys d p r = record {
      members = [];
      replies = ap (λ (s : Bytes). some s) (sym (append-nil (make_array (pos 0))));
      contains_them = λ x. refl;
    }
    intersected-RepliesMembers (some none) seen keys d p r = absurd (ground (arith, p))
    intersected-RepliesMembers (some (some s)) seen keys d p (inl (e, q)) = record {
      members = [];
      replies =
          ap (λ more. (intersected c shard (with_found (some (some s)) more) d).1) e
          ∙ ap (λ (r : Bytes). some r) (sym (append-nil (make_array (pos 0))));
      contains_them = λ x. ground (arith, q x);
    }
    intersected-RepliesMembers (some (some s)) seen keys d p (inr r) = record {
      members = _;
      replies = ap (λ more. (intersected c shard (with_found (some (some s)) more) d).1) r.is;
      contains_them =
          λ x. intersect-contains c s r.sets x ∙ ap (λ (b : Bool). contains s x && b) (r.in_them x);
    }

    -- SINTER of one or more keys of one shard, with a clock that stands still and no null pointer
    -- among the sets: the reply has the members of a set, of everything that is in each of the
    -- sets that can be seen under the keys, where a key without a set counts as an empty one.
    pub s_inter-RepliesMembers :
        (name key : NanoObj) (keys : List NanoObj) (clock : Clock) (now : ℤ) (d : Database T E)
        → ((n : ℕ) → clock n ≡ now)
        → all_keys_same_shard shard (key ∷ keys) ≡ true
        → are_sound (sets_now now d) (key ∷ keys) ≡ true
        → RepliesMembers
            (s_inter c shard (name ∷ key ∷ keys) clock d).1
            (in_every (sets_now now d) (key ∷ keys))
    unfolding s_inter
    s_inter-RepliesMembers name key keys clock now d still same sound = rw same (
        let l = key ∷ keys in
        let seen = sets_now now d in
        let d1 = (gather l clock 0 d).0 in
        subst
          (λ (o : Option (Option (List (List Bytes)))).
            RepliesMembers (intersected c shard o d1).1 (in_every seen l))
          (sym (gather-found_in l clock now 0 d still))
          (intersected-RepliesMembers (seen key) seen keys d1 (ground (arith, sound))
            (found_in-Found seen keys (ground (arith, sound)))))

    subtracted-RepliesMembers :
        (o : Option (Option (List Bytes))) (key : NanoObj) (keys : List NanoObj) (clock : Clock)
        (now : ℤ) (d : Database T E)
        → ((n : ℕ) → clock n ≡ now)
        → all_keys_same_shard shard (key ∷ keys) ≡ true
        → is_sound o ≡ true
        → are_sound (sets_now now d) keys ≡ true
        → RepliesMembers
            (by_set o (reply (make_array (pos 0))) (subtract c shard (key ∷ keys) keys clock) d).1
            (λ x. has o x && not (in_some (sets_now now d) keys x))
    subtracted-RepliesMembers none key keys clock now d still same p sound = record {
      members = [];
      replies = ap (λ (s : Bytes). some s) (sym (append-nil (make_array (pos 0))));
      contains_them = λ x. refl;
    }
    subtracted-RepliesMembers (some none) key keys clock now d still same p sound =
        absurd (ground (arith, p))
    subtracted-RepliesMembers (some (some s)) key keys clock now d still same p sound = rw same (
        let f = erase_members c in
        let out = each_set f keys clock 1 (some s) d in
        let p' = λ (x : Bytes). contains s x && not (in_some (sets_now now d) keys x) in
        let made =
          folded-Made f (λ a b. a && not b) (erase_members-contains c) (λ a. ground arith)
            (λ a b e. ground arith) (sets_now now d) keys s sound in
        reply_members-RepliesMembers out.1 p' out.0 (
          subst (λ (o : Option (List Bytes)). Made o p')
            (sym (each_set-folded f keys clock now 1 (some s) d still).1) made))

    -- SDIFF of one or more keys of one shard, with a clock that stands still and no null pointer
    -- among the sets: the reply has the members of a set, of everything that is in the set that
    -- can be seen under the first key and in none of those under the others.
    pub s_diff-RepliesMembers :
        (name key : NanoObj) (keys : List NanoObj) (clock : Clock) (now : ℤ) (d : Database T E)
        → ((n : ℕ) → clock n ≡ now)
        → all_keys_same_shard shard (key ∷ keys) ≡ true
        → are_sound (sets_now now d) (key ∷ keys) ≡ true
        → RepliesMembers
            (s_diff c shard (name ∷ key ∷ keys) clock d).1
            (λ x. has (sets_now now d key) x && not (in_some (sets_now now d) keys x))
    unfolding s_diff
    s_diff-RepliesMembers name key keys clock now d still same sound = rw (still 0) (
        let d1 = (find key now d).0 in
        let other = reply (make_array (pos 0)) in
        let g = subtract c shard (key ∷ keys) keys clock in
        let run : on_set (find key now d).1 other (λ obj. g) d1
            ≡ by_set (sets_now now d key) other g d1 =
          on_set-by_set (find key now d).1 other g d1
          ∙ ap (λ (o : Option NanoObj). by_set (as_set o) other g d1)
              (find-Updates key now d).returns in
        let seen = sets_now-find key now d in
        subst
          (λ (t : NanoObj → Option (Option (List Bytes))).
            RepliesMembers (on_set (find key now d).1 other (λ obj. g) d1).1
              (λ x. has (sets_now now d key) x && not (in_some t keys x)))
          seen
          (subst
            (λ (o : Out T E).
              RepliesMembers o.1
                (λ x. has (sets_now now d key) x && not (in_some (sets_now now d1) keys x)))
            (sym run)
            (subtracted-RepliesMembers (sets_now now d key) key keys clock now d1 still same
              (ground (arith, sound))
              (ap (λ (t : NanoObj → Option (Option (List Bytes))). are_sound t keys) seen
                ∙ ground (arith, sound)))))
