-- ===== src/SetFamily/Many.antt =====
-- The handlers of src/command/set_family.cc that work on several sets. The keys have to be of one shard.
use nano_redis.Prelude.{
  ℕ, ◌+◌, Option, none, some, List, [], ◌∷◌, ◌++◌, Bytes, codes, length, if◌then◌else◌,
}
use nano_redis.Prelude.Int.{ℤ, pos}
use nano_redis.NanoObj.{NanoObj}
use nano_redis.NanoObj.Ops.{is_set, to_string}
use nano_redis.Resp.{make_error, make_integer, make_array}
use nano_redis.Database.{Database}
use nano_redis.Database.Interface.{Table}
use nano_redis.Database.Expiry.{find}
use nano_redis.ListFamily.Handlers.{Clock, Out, reply, wrong_number}
use nano_redis.SetFamily.{
  set_of, bulk_members, all_keys_same_shard, intersect, insert_members, erase_members,
}
use nano_redis.SetFamily.Interface.{Sets, contains}
use nano_redis.SetFamily.Handlers.{found_set, write_set, keep_set, set_made}

abbrev pub cross_slot : Bytes
cross_slot = make_error (codes "CROSSSLOT Keys in request don't hash to the same slot")

-- What `Find` has found, where it is a set object: a null pointer is `some none`.
abbrev pub as_set : Option NanoObj → Option (Option (List Bytes))
as_set none = none
as_set (some obj) = if is_set obj then some (set_of obj) else none

-- The sets behind the pointers; `none` where one is null.
abbrev pub one_more : Option (List Bytes) → Option (List (List Bytes)) → Option (List (List Bytes))
one_more (some s) (some sets) = some (s ∷ sets)
one_more _ _ = none

abbrev pub with_found :
    Option (Option (List Bytes))
    → Option (Option (List (List Bytes)))
    → Option (Option (List (List Bytes)))
with_found none more = none
with_found (some s) none = none
with_found (some s) (some sets) = some (one_more s sets)

-- The loop ends at a key without a set.
abbrev pub if_found : {A : Type 0} → Option (Option (List Bytes)) → A → A → A
if_found none here later = here
if_found (some s) here later = later

abbrev pub members_reply : List Bytes → Bytes
members_reply s = make_array (pos (length s)) ++ bulk_members s

-- What a loop has made of the members so far, and the next set that was found.
abbrev pub changed_by :
    (List Bytes → List Bytes → List Bytes)
    → Option (List Bytes)
    → Option (Option (List Bytes))
    → Option (List Bytes)
changed_by f none found = none
changed_by f (some s) none = some s
changed_by f (some s) (some none) = none
changed_by f (some s) (some (some t)) = some (f s t)

module _ {T : Table NanoObj} {E : Table ℤ} where
  -- The loop of SINTER that looks for the sets; no list where one of them is missing.
  unfoldable pub gather :
      List NanoObj → Clock → ℕ → Database T E → Database T E × Option (Option (List (List Bytes)))
  gather [] clock i d = (d, some (some []))
  gather (key ∷ keys) clock i d =
      let (d', o) = find key (clock i) d in
      let (d'', more) = gather keys clock (i + 1) d' in
      (if_found (as_set o) d' d'', with_found (as_set o) more)

  -- The loops of SUNION and SDIFF: `f` with every set that is found.
  unfoldable pub each_set :
      (List Bytes → List Bytes → List Bytes)
      → List NanoObj
      → Clock
      → ℕ
      → Option (List Bytes)
      → Database T E
      → Database T E × Option (List Bytes)
  each_set f [] clock i s d = (d, s)
  each_set f (key ∷ keys) clock i s d =
      let (d', o) = find key (clock i) d in
      each_set f keys clock (i + 1) (changed_by f s (as_set o)) d'

  -- The reply with the members; a null pointer on the way is `none`.
  abbrev pub reply_members : Option (List Bytes) → Database T E → Out T E
  reply_members none d = (d, none)
  reply_members (some s) d = reply (members_reply s) d

  module _ (c : Sets) (shard : Option (Bytes → ℕ)) where
    abbrev pub intersected : Option (Option (List (List Bytes))) → Database T E → Out T E
    intersected none d = reply (make_array (pos 0)) d
    intersected (some none) d = (d, none)
    intersected (some (some [])) d = (d, none)
    intersected (some (some (s ∷ sets))) d = reply (members_reply (intersect c s sets)) d

    unfoldable pub s_inter : List NanoObj → Clock → Database T E → Out T E
    unfolding gather
    s_inter (name ∷ key ∷ keys) clock d =
        if all_keys_same_shard shard (key ∷ keys)
        then (let (d', found) = gather (key ∷ keys) clock 0 d in intersected found d')
        else reply cross_slot d
    s_inter _ clock d = reply (wrong_number (codes "SINTER")) d

    unfoldable pub s_union : List NanoObj → Clock → Database T E → Out T E
    unfolding each_set
    s_union (name ∷ key ∷ keys) clock d =
        if all_keys_same_shard shard (key ∷ keys)
        then (let (d', members) = each_set (insert_members c) (key ∷ keys) clock 0 (some []) d in
            reply_members members d')
        else reply cross_slot d
    s_union _ clock d = reply (wrong_number (codes "SUNION")) d

    -- The first set, copied; the test of the shards is behind it.
    abbrev pub subtract : List NanoObj → List NanoObj → Clock → List Bytes → Database T E → Out T E
    subtract all keys clock s d =
        if all_keys_same_shard shard all
        then (let (d', members) = each_set (erase_members c) keys clock 1 (some s) d in
            reply_members members d')
        else reply cross_slot d

    unfoldable pub s_diff : List NanoObj → Clock → Database T E → Out T E
    s_diff (name ∷ key ∷ keys) clock d =
        found_set key (clock 0) d (reply (make_array (pos 0)))
          (λ obj s. subtract (key ∷ keys) keys clock s)
    s_diff _ clock d = reply (wrong_number (codes "SDIFF")) d

    -- The member into the set of the destination; the third call of the clock is its first.
    abbrev pub move_to : NanoObj → Clock → Bytes → Database T E → Out T E
    move_to dest clock member d =
        set_made dest clock 2
          (λ obj s e. reply (make_integer (pos 1)) (write_set dest obj (c.insert s member) e)) d

    abbrev pub move_from_set :
        NanoObj → NanoObj → Clock → Bytes → NanoObj → List Bytes → Database T E → Out T E
    move_from_set src dest clock member obj s d =
        if contains s member
        then move_to dest clock member (keep_set src (clock 1) obj (c.erase s member) d)
        else reply (make_integer (pos 0)) d

    unfoldable pub s_move : List NanoObj → Clock → Database T E → Out T E
    s_move (name ∷ src ∷ dest ∷ arg ∷ []) clock d =
        if all_keys_same_shard shard (src ∷ dest ∷ arg ∷ [])
        then found_set src (clock 0) d (reply (make_integer (pos 0)))
            (move_from_set src dest clock (to_string arg))
        else reply cross_slot d
    s_move _ clock d = reply (wrong_number (codes "SMOVE")) d
