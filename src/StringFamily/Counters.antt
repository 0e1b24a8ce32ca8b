-- ===== src/StringFamily/Counters.antt =====
-- INCR, DECR, INCRBY and DECRBY of src/command/string_family.cc on the abstract keyspace.
use nano_redis.Prelude.{
  ℕ, zero, suc, ◌≤◌, ◌≡◌, ◌⊎◌, refl, ap, ◌∙◌, sym, arith, true, Option, none, some, [], ◌∷◌, Bytes,
  inl, inr,
}
use mathlib.Core.Path.{subst}
use nano_redis.Prelude.Int.{ℤ, pos, negsuc, int64_max, IsInt64, ◌+ℤ◌, ◌-ℤ◌}
use nano_redis.NanoObj.{NanoObj, from_int}
use nano_redis.NanoObj.Ops
use nano_redis.NanoObj.Ops.{obj_eq}
use nano_redis.Resp.{make_integer}
use nano_redis.Database.{Database, set}
use nano_redis.Database.Interface.{Table}
use nano_redis.Database.View.{entry}
use nano_redis.ListFamily.Changes.{Changed}
use nano_redis.ListFamily.Handlers.{Clock, Out}
use nano_redis.StringFamily.{parse_int, wrap64, invalid_integer}
use nano_redis.StringFamily.Handlers.{
  count_on, count_from, counted, by_number, store_number, incr, incr_by, decr_by,
}
use nano_redis.StringFamily.Numbers.{parse_int-to_string, wrap64_id}
use nano_redis.StringFamily.Reads.{get_seen, set_seen, get-Absent, set-Absent, Absent}

module _ {T : Table NanoObj} {E : Table ℤ} where
  counted_seen :
      (clock : Clock) (key obj : NanoObj) (at : Option ℤ) (f : ℤ → ℤ) (start : ℤ) (d : Database T E)
      → entry (clock 0) d.current_db key d ≡ some (obj, at)
      → counted key f start clock d ≡ count_from key f (parse_int (Ops.to_string obj)) d
  counted_seen clock key obj at f start d h =
      ap (λ (o : Database T E × Option Bytes). count_on key f start o.1 o.0)
        (get_seen (clock 0) key obj at d h)

  counted-Changed :
      (clock : Clock) (key obj : NanoObj) (at : Option ℤ) (f : ℤ → ℤ) (start m : ℤ)
      (d : Database T E)
      → entry (clock 0) d.current_db key d ≡ some (obj, at)
      → parse_int (Ops.to_string obj) ≡ some m
      → Changed
          (clock 0)
          key
          (some (from_int (f m), at))
          (make_integer (f m))
          d
          (counted key f start clock d)
  counted-Changed clock key obj at f start m d h p =
      subst (Changed (clock 0) key (some (from_int (f m), at)) (make_integer (f m)) d)
        (sym (counted_seen clock key obj at f start d h ∙ ap (λ n. count_from key f n d) p))
        (set_seen (clock 0) key obj (from_int (f m)) at (make_integer (f m)) d h)

  counted-Absent :
      (clock : Clock) (key : NanoObj) (f : ℤ → ℤ) (start : ℤ) (d : Database T E)
      → Absent (clock 0) key d
      → Changed
          (clock 0)
          key
          (some (from_int start, none))
          (make_integer start)
          d
          (counted key f start clock d)
  counted-Absent clock key f start d h =
      subst (Changed (clock 0) key (some (from_int start, none)) (make_integer start) d)
        (sym (
          ap (λ (o : Database T E × Option Bytes). count_on key f start o.1 o.0)
            (get-Absent (clock 0) key d h)))
        (set-Absent (clock 0) key (from_int start) (make_integer start) d h)

  -- INCRBY and DECRBY with a number that `ParseInt` reads, on a key under which the text of a
  -- number can be seen: the key has the sum, or the difference, in 64 bits with sign and with the
  -- deadline from before, the reply is that number, and every other entry of every database is as
  -- before.
  pub incr_by-Changed :
      (clock : Clock) (name key by obj : NanoObj) (at : Option ℤ) (m n : ℤ) (d : Database T E)
      → entry (clock 0) d.current_db key d ≡ some (obj, at)
      → parse_int (Ops.to_string obj) ≡ some m
      → parse_int (Ops.to_string by) ≡ some n
      → Changed
          (clock 0)
          key
          (some (from_int (wrap64 (m +ℤ n)), at))
          (make_integer (wrap64 (m +ℤ n)))
          d
          (incr_by (name ∷ key ∷ by ∷ []) clock d)
        × Changed
            (clock 0)
            key
            (some (from_int (wrap64 (m -ℤ n)), at))
            (make_integer (wrap64 (m -ℤ n)))
            d
            (decr_by (name ∷ key ∷ by ∷ []) clock d)
  unfolding incr_by decr_by
  incr_by-Changed clock name key by obj at m n d h p q = (
    subst
        (λ (o : Option ℤ).
          Changed (clock 0) key (some (from_int (wrap64 (m +ℤ n)), at))
            (make_integer (wrap64 (m +ℤ n))) d
            (by_number o (λ n. counted key (λ m. wrap64 (m +ℤ n)) n clock) d))
        (sym q) (counted-Changed clock key obj at (λ m. wrap64 (m +ℤ n)) n m d h p),
    subst
        (λ (o : Option ℤ).
          Changed (clock 0) key (some (from_int (wrap64 (m -ℤ n)), at))
            (make_integer (wrap64 (m -ℤ n))) d
            (by_number o (λ n. counted key (λ m. wrap64 (m -ℤ n)) (wrap64 (pos 0 -ℤ n)) clock) d))
        (sym q)
        (counted-Changed clock key obj at (λ m. wrap64 (m -ℤ n)) (wrap64 (pos 0 -ℤ n)) m d h p),
  )

  -- The text under the key, or the argument, is no number.
  abbrev pub NoNumber : Clock → NanoObj → NanoObj → Database T E → Type 0
  NoNumber clock key by d =
      (parse_int (Ops.to_string by) ≡ none)
      ⊎ ((obj : NanoObj) × (at : Option ℤ) × (entry (clock 0) d.current_db key d ≡ some (obj, at))
          × (parse_int (Ops.to_string obj) ≡ none))

  refused :
      (o : Option ℤ) (f : ℤ → Database T E → Out T E) (d : Database T E)
      → (o ≡ none) ⊎ ((n : ℤ) → f n d ≡ (d, some invalid_integer))
      → by_number o f d ≡ (d, some invalid_integer)
  refused none f d h = refl
  refused (some n) f d (inl e) = absurd (ground (arith, e))
  refused (some n) f d (inr h) = h n

  -- INCRBY and DECRBY reply with the error for integers and leave the database as it is, where
  -- `ParseInt` does not read the argument, or a value can be seen under the key whose text it does
  -- not read.
  pub incr_by_refused :
      (clock : Clock) (name key by : NanoObj) (d : Database T E)
      → NoNumber clock key by d
      → (incr_by (name ∷ key ∷ by ∷ []) clock d ≡ (d, some invalid_integer))
        × (decr_by (name ∷ key ∷ by ∷ []) clock d ≡ (d, some invalid_integer))
  unfolding incr_by decr_by
  incr_by_refused clock name key by d (inl p) = (
    refused (parse_int (Ops.to_string by)) _ d (inl p),
    refused (parse_int (Ops.to_string by)) _ d (inl p),
  )
  incr_by_refused clock name key by d (inr (obj, at, h, p)) =
      let no : (f : ℤ → ℤ) (start : ℤ) → counted key f start clock d ≡ (d, some invalid_integer) =
        λ f start. counted_seen clock key obj at f start d h ∙ ap (λ n. count_from key f n d) p in
      (
        refused (parse_int (Ops.to_string by)) _ d (inr (λ n. no (λ m. wrap64 (m +ℤ n)) n)),
        refused (parse_int (Ops.to_string by)) _ d
            (inr (λ n. no (λ m. wrap64 (m -ℤ n)) (wrap64 (pos 0 -ℤ n)))),
      )

  -- INCR, `k` times in a row on one key while the clock stands still.
  abbrev pub incr_times : ℕ → NanoObj → NanoObj → Clock → Database T E → Database T E
  incr_times zero name key clock d = d
  incr_times (suc k) name key clock d =
      (incr (name ∷ key ∷ []) clock (incr_times k name key clock d)).0

  incr_stored :
      (clock : Clock) (name key : NanoObj) (at : Option ℤ) (m : ℤ) (d : Database T E)
      → IsInt64 m
      → entry (clock 0) d.current_db key d ≡ some (from_int m, at)
      → incr (name ∷ key ∷ []) clock d ≡ store_number key (wrap64 (m +ℤ pos 1)) d
  unfolding incr Ops.to_string
  incr_stored clock name key at m d small h =
      counted_seen clock key (from_int m) at (λ n. wrap64 (n +ℤ pos 1)) (pos 1) d h
      ∙ ap (λ n. count_from key (λ n. wrap64 (n +ℤ pos 1)) n d) (parse_int-to_string m small)

  incr-Absent :
      (clock : Clock) (name key : NanoObj) (d : Database T E)
      → Absent (clock 0) key d
      → incr (name ∷ key ∷ []) clock d ≡ store_number key (pos 1) d
  unfolding incr
  incr-Absent clock name key d h =
      ap
        (λ (o : Database T E × Option Bytes).
          count_on key (λ n. wrap64 (n +ℤ pos 1)) (pos 1) o.1 o.0)
        (get-Absent (clock 0) key d h)

  -- The database behind a stored number: the same one is current, and the number is seen.
  stored :
      (now : ℤ) (key : NanoObj) (n : ℤ) (d : Database T E) (out : Out T E)
      → out ≡ store_number key n d
      → obj_eq key key ≡ true
      → Changed now key (some (from_int n, none)) (make_integer n) d (store_number key n d)
      → (out.0.current_db ≡ d.current_db)
        × (entry now out.0.current_db key out.0 ≡ some (from_int n, none))
  unfolding set
  stored now key n d out e proper c =
      subst
        (λ (o : Out T E).
          (o.0.current_db ≡ d.current_db)
          × (entry now o.0.current_db key o.0 ≡ some (from_int n, none)))
        (sym e) (refl, c.writes d.current_db key ∙ ground (arith, proper))

  incr_times-steps :
      (k : ℕ) (clock : Clock) (name key : NanoObj) (d : Database T E)
      → suc k ≤ int64_max
      → obj_eq key key ≡ true
      → Absent (clock 0) key d
      → ((incr_times (suc k) name key clock d).current_db ≡ d.current_db)
        × (entry
              (clock 0)
              (incr_times (suc k) name key clock d).current_db
              key
              (incr_times (suc k) name key clock d)
            ≡ some (from_int (pos (suc k)), none))
  incr_times-steps zero clock name key d small proper h =
      stored (clock 0) key (pos 1) d _ (incr-Absent clock name key d h) proper
        (set-Absent (clock 0) key (from_int (pos 1)) (make_integer (pos 1)) d h)
  incr_times-steps (suc k) clock name key d small proper h =
      let d' = incr_times (suc k) name key clock d in
      let (e, seen) = incr_times-steps k clock name key d (omega arith) proper h in
      let n = pos (suc (suc k)) in
      let next : wrap64 (pos (suc k) +ℤ pos 1) ≡ n =
        let sum : pos (suc k) +ℤ pos 1 ≡ n = ground arith in ap wrap64 sum ∙ wrap64_id n small in
      let (c, s) =
        stored (clock 0) key n d' (incr (name ∷ key ∷ []) clock d')
          (incr_stored clock name key none (pos (suc k)) d' (omega arith) seen
            ∙ ap (λ m. store_number key m d') next)
          proper
          (set_seen (clock 0) key (from_int (pos (suc k))) (from_int n) none (make_integer n) d'
            seen) in
      (c ∙ e, s)

  -- INCR, one or more times and at most 2^63 - 1 times in a row while the clock stands still, on a
  -- key that equals itself and has neither a value nor a deadline: the key then has the number of
  -- the calls, without a deadline.
  pub incr_times_lem :
      (k : ℕ) (clock : Clock) (name key : NanoObj) (d : Database T E)
      → suc k ≤ int64_max
      → obj_eq key key ≡ true
      → Absent (clock 0) key d
      → entry (clock 0) d.current_db key (incr_times (suc k) name key clock d)
        ≡ some (from_int (pos (suc k)), none)
  incr_times_lem k clock name key d small proper h =
      let (e, seen) = incr_times-steps k clock name key d small proper h in
      subst
        (λ (i : ℕ).
          entry (clock 0) i key (incr_times (suc k) name key clock d)
          ≡ some (from_int (pos (suc k)), none))
        e seen

  -- INCR of a key under which the largest number of 64 bits with sign can be seen: there is no
  -- error, the key has the least number, and the reply is that number.
  pub incr_max :
      (clock : Clock) (name key obj : NanoObj) (at : Option ℤ) (d : Database T E)
      → entry (clock 0) d.current_db key d ≡ some (obj, at)
      → parse_int (Ops.to_string obj) ≡ some (pos int64_max)
      → Changed
          (clock 0)
          key
          (some (from_int (negsuc int64_max), at))
          (make_integer (negsuc int64_max))
          d
          (incr (name ∷ key ∷ []) clock d)
  unfolding incr wrap64
  incr_max clock name key obj at d h p =
      counted-Changed clock key obj at (λ n. wrap64 (n +ℤ pos 1)) (pos 1) (pos int64_max) d h p
