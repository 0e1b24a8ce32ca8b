-- ===== src/ListFamily/Edits.antt =====
-- LRANGE, LTRIM and LREM of src/command/list_family.cc on a key under which a list can be seen.
use mathlib.Core.Path.{subst}
use nano_redis.Prelude.{
  ℕ, ◌<◌, ◌^◌, false, Option, none, some, List, [], ◌∷◌, ◌++◌, Bytes, length, is_empty, append-nil,
  if◌then◌else◌, ◌≡◌, refl, sym, ap, ◌∙◌, arith,
}
use nano_redis.Prelude.Int.{ℤ, pos}
use nano_redis.NanoObj.{NanoObj}
use nano_redis.NanoObj.Ops.{to_string}
use nano_redis.Resp.{make_integer, make_array, ok_response}
use nano_redis.Database.{Database}
use nano_redis.Database.Interface.{Table}
use nano_redis.Database.Expiry.{del}
use nano_redis.Database.View.{entry, is_at}
use nano_redis.Database.Methods.{entry_congr, del-Updates}
use nano_redis.ListFamily.{parse_long_long}
use nano_redis.ListFamily.Deque.{range_of, slice, remove}
use nano_redis.ListFamily.Handlers.{Clock, reply, keep}
use nano_redis.ListFamily.Places.{
  bulk_replies, range_reply, with_number, with_numbers, trimmed, l_range, l_trim, l_rem,
}
use nano_redis.ListFamily.Changes.{
  Holds, Changed, kept_entry, found_seen, write-Changed, keep-Changed,
}
use nano_redis.ListFamily.Removal.{Removed, remove-Removed}
use nano_redis.ListFamily.Ranges.{range_of-bound, length-slice}

-- The elements that a range means.
abbrev pub ranged : List NanoObj → Option (ℕ × ℕ) → List NanoObj
ranged list none = []
ranged list (some (start, stop)) = slice start stop list

-- The count that the reply announces is that of the elements in it.
range_reply_lem :
    (list : List NanoObj) (i j : ℤ) (r : Option (ℕ × ℕ))
    → range_of i j (length list) ≡ r
    → range_reply list r ≡ make_array (pos (length (ranged list r))) ++ bulk_replies (ranged list r)
range_reply_lem list i j none e = sym (append-nil (make_array (pos 0)))
range_reply_lem list i j (some (a, b)) e =
    ap (λ (n : ℕ). make_array (pos n) ++ bulk_replies (slice a b list))
      (sym (length-slice i j a b list e))

is_empty-length : (l : List NanoObj) → 0 < length l → is_empty l ≡ false
is_empty-length [] h = absurd (omega arith)
is_empty-length (o ∷ l) h = refl

module _ {T : Table NanoObj} {E : Table ℤ} where
  -- LRANGE on a key under which a list can be seen, with bounds that `ParseLongLong` reads: the
  -- reply announces as many elements as it has, and has those of the range; nothing that can be
  -- seen changes.
  pub l_range-Changed :
      (name key start stop obj : NanoObj) (list : List NanoObj) (i j : ℤ) (at : Option ℤ)
      (clock : Clock) (d : Database T E)
      → Holds (clock 0) key obj at list d
      → parse_long_long (to_string start) ≡ some i
      → parse_long_long (to_string stop) ≡ some j
      → Changed
          (clock 0)
          key
          (some (obj, at))
          (make_array (pos (length (ranged list (range_of i j (length list)))))
            ++ bulk_replies (ranged list (range_of i j (length list))))
          d
          (l_range (name ∷ key ∷ start ∷ stop ∷ []) clock d)
  unfolding l_range
  l_range-Changed name key start stop obj list i j at clock d h p q =
      subst (λ out. Changed (clock 0) key (some (obj, at)) r d out) (sym run)
        (record {
          replies = refl;
          writes = λ n k.
              entry_congr key (clock 0) d n k
              ∙ ap (λ e. if is_at d.current_db key n k then e else entry (clock 0) n k d) h.seen;
        })
    where
      r : Bytes
      r =
          make_array (pos (length (ranged list (range_of i j (length list)))))
          ++ bulk_replies (ranged list (range_of i j (length list)))

      run : l_range (name ∷ key ∷ start ∷ stop ∷ []) clock d ≡ (d, some r)
      run =
          found_seen clock key obj at list d (reply (make_array (pos 0)))
            (λ obj' list'.
              with_numbers (parse_long_long (to_string start)) (parse_long_long (to_string stop))
                (λ i' j'. reply (range_reply list' (range_of i' j' (length list')))))
            h
          ∙ rw (p, q)
              (ap (λ (t : Bytes). (d, some t))
                (range_reply_lem list i j (range_of i j (length list)) refl))

  trimmed-Changed :
      (key obj : NanoObj) (list : List NanoObj) (i j : ℤ) (at : Option ℤ) (clock : Clock)
      (d : Database T E) (r : Option (ℕ × ℕ))
      → Holds (clock 0) key obj at list d
      → clock 1 ≡ clock 0
      → range_of i j (length list) ≡ r
      → Changed
          (clock 0)
          key
          (kept_entry obj at (ranged list r))
          ok_response
          d
          (trimmed key clock obj list r d)
  trimmed-Changed key obj list i j at clock d none h still e = record {
    replies = refl;
    writes = λ n k.
        ap (λ t. entry (clock 0) n k (del key t d).0) still
        ∙ (del-Updates key (clock 0) d).writes n k;
  }
  trimmed-Changed key obj list i j at clock d (some (a, b)) h still e =
      let (le, lt) = range_of-bound i j (length list) a b e in
      let some_left : is_empty (slice a b list) ≡ false =
        is_empty-length (slice a b list) (omega (arith, length-slice i j a b list e)) in
      rw some_left (write-Changed (clock 0) key obj at list (slice a b list) ok_response d h)

  -- LTRIM on a key under which a list can be seen, with bounds that `ParseLongLong` reads and a
  -- clock that stands still: the key has the elements that LRANGE would show, with the deadline
  -- from before, or nothing where there are none; the reply is OK, and every other entry of every
  -- database is as before.
  pub l_trim-Changed :
      (name key start stop obj : NanoObj) (list : List NanoObj) (i j : ℤ) (at : Option ℤ)
      (clock : Clock) (d : Database T E)
      → Holds (clock 0) key obj at list d
      → clock 1 ≡ clock 0
      → parse_long_long (to_string start) ≡ some i
      → parse_long_long (to_string stop) ≡ some j
      → Changed
          (clock 0)
          key
          (kept_entry obj at (ranged list (range_of i j (length list))))
          ok_response
          d
          (l_trim (name ∷ key ∷ start ∷ stop ∷ []) clock d)
  unfolding l_trim
  l_trim-Changed name key start stop obj list i j at clock d h still p q =
      let r = range_of i j (length list) in
      subst (λ out. Changed (clock 0) key (kept_entry obj at (ranged list r)) ok_response d out)
        (sym (
          found_seen clock key obj at list d (reply ok_response)
            (λ obj' list'.
              with_numbers (parse_long_long (to_string start)) (parse_long_long (to_string stop))
                (λ i' j'. trimmed key clock obj' list' (range_of i' j' (length list'))))
            h
          ∙ rw (p, q) refl))
        (trimmed-Changed key obj list i j at clock d r h still refl)

  l_rem-remove :
      (name key count value obj : NanoObj) (list : List NanoObj) (n : ℤ) (at : Option ℤ)
      (clock : Clock) (d : Database T E)
      → Holds (clock 0) key obj at list d
      → clock 1 ≡ clock 0
      → parse_long_long (to_string count) ≡ some n
      → Changed
          (clock 0)
          key
          (kept_entry obj at (remove n (to_string value) list).0)
          (make_integer (pos (remove n (to_string value) list).1))
          d
          (l_rem (name ∷ key ∷ count ∷ value ∷ []) clock d)
  unfolding l_rem
  l_rem-remove name key count value obj list n at clock d h still p =
      let out = remove n (to_string value) list in
      subst (λ o. Changed (clock 0) key (kept_entry obj at out.0) (make_integer (pos out.1)) d o)
        (sym (
          found_seen clock key obj at list d (reply (make_integer (pos 0)))
            (λ obj' list'. with_number (parse_long_long (to_string count)) (λ m d'.
              let (kept, removed) = remove m (to_string value) list' in
              reply (make_integer (pos removed)) (keep key clock obj' kept d')))
            h
          ∙ rw (p) refl))
        (keep-Changed clock (clock 0) key obj at list out.0 (make_integer (pos out.1)) d still h)

  -- LREM on a key under which a list of fewer than 2^31 elements can be seen, with a count that
  -- `ParseLongLong` reads and a clock that stands still: the key has, with the deadline from
  -- before, the list without the value where the count is 0, without it in a front part for a
  -- positive count and in a back part for a negative one, or nothing where no element is left; the
  -- part has the value as often as the count says, or as often as the list where that is less; the
  -- reply is how often the value was removed, and every other entry of every database is as before.
  pub l_rem-Changed :
      (name key count value obj : NanoObj) (list : List NanoObj) (n : ℤ) (at : Option ℤ)
      (clock : Clock) (d : Database T E)
      → Holds (clock 0) key obj at list d
      → clock 1 ≡ clock 0
      → parse_long_long (to_string count) ≡ some n
      → length list < 2 ^ 31
      → (out : List NanoObj × ℕ) × Removed n (to_string value) list out
        × Changed
            (clock 0)
            key
            (kept_entry obj at out.0)
            (make_integer (pos out.1))
            d
            (l_rem (name ∷ key ∷ count ∷ value ∷ []) clock d)
  l_rem-Changed name key count value obj list n at clock d h still p short = (
    remove n (to_string value) list,
    remove-Removed n (to_string value) list,
    l_rem-remove name key count value obj list n at clock d h still p,
  )
