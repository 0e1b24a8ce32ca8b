-- ===== src/StringFamily/Setting.antt =====
-- SET of src/command/string_family.cc on the abstract keyspace.
use nano_redis.Prelude.{
  ℕ, ◌*◌, min, ◌<◌, ◌≡◌, ◌⊎◌, refl, ap, ◌∙◌, sym, arith, true, false, Option, none, some, [], ◌∷◌,
  Bytes, codes, inl, inr, ◌==◌, Bool-cases,
}
use mathlib.Core.Path.{subst}
use nano_redis.Prelude.Int.{ℤ, pos, negsuc, int64_max, ltb_ℤ, leb_ℤ}
use nano_redis.Util.{equals_ignore_case}
use nano_redis.NanoObj.{NanoObj}
use nano_redis.NanoObj.Ops.{obj_eq, to_string, copy_from, get_string_view}
use nano_redis.Resp.{ok_response}
use nano_redis.Database.{Database, set, expire_table_of}
use nano_redis.Database.Interface.{Table}
use nano_redis.Database.Expiry.{is_past}
use nano_redis.Database.View.{entry}
use nano_redis.Database.Methods.{persist-Updates}
use nano_redis.Database.Deadlines.{end_of, entry-set, expire-Updates}
use nano_redis.ListFamily.Changes.{Changed}
use nano_redis.ListFamily.Handlers.{Clock}
use nano_redis.StringFamily.{parse_int, to_ms}
use nano_redis.StringFamily.Handlers.{ttl_of, set_for, set_command}

-- A time to live that SET takes is positive.
ttl_of-pos : (option : NanoObj) (o : Option ℤ) (ms : ℕ) → ttl_of option o ≡ inr ms → 0 < ms
unfolding ttl_of
ttl_of-pos option none ms h = absurd (ground (arith, h))
ttl_of-pos option (some (negsuc n)) ms h = absurd (ground (arith, h))
ttl_of-pos option (some (pos n)) ms h = elim (Bool-cases (n == 0)) [
  | inl e ↦ absurd (ground (arith, h, e))
  | inr e ↦ elim (Bool-cases (equals_ignore_case (get_string_view option) (codes "EX"))) [
    | inl x ↦ ground (arith, h, e, x)
    | inr x ↦ elim (Bool-cases (equals_ignore_case (get_string_view option) (codes "PX"))) [
      | inl y ↦ ground (arith, h, e, x, y)
      | inr y ↦ absurd (ground (arith, h, e, x, y))
    ]
  ]
]

-- The milliseconds of a time, by the option: `n` seconds or `n` milliseconds.
abbrev pub Lasts : NanoObj → ℕ → ℕ → Type 0
Lasts option n ms =
    ((equals_ignore_case (get_string_view option) (codes "EX") ≡ true)
      × (ms ≡ min (n * 1000) int64_max))
    ⊎ ((equals_ignore_case (get_string_view option) (codes "EX") ≡ false)
        × (equals_ignore_case (get_string_view option) (codes "PX") ≡ true)
        × (ms ≡ n))

ttl_of-Lasts :
    (option : NanoObj) (n ms : ℕ)
    → 0 < n
    → Lasts option n ms
    → ttl_of option (some (pos n)) ≡ inr ms
unfolding ttl_of
ttl_of-Lasts option n ms many lasts =
    let some_time : (n == 0) ≡ false = ground (arith, many) in
    elim lasts [
      | inl (ex, size) ↦
          let long : to_ms n ≡ ms = ground (arith, size) in rw (some_time, ex) (ap inr long)
      | inr (ex, px, size) ↦ rw (some_time, ex, px) (ap inr (sym size))
    ]

module _ {T : Table NanoObj} {E : Table ℤ} where
  set-current_db : (key v : NanoObj) (d : Database T E) → (set key v d).current_db ≡ d.current_db
  unfolding set
  set-current_db key v d = refl

  -- The value that `Set` has written, seen with the deadline from before.
  set-here :
      (key v : NanoObj) (now : ℤ) (d : Database T E)
      → obj_eq key key ≡ true
      → is_past (E.find (expire_table_of d) key) now ≡ false
      → entry now (set key v d).current_db key (set key v d)
        ≡ some (v, E.find (expire_table_of d) key)
  set-here key v now d proper live =
      ap (λ (n : ℕ). entry now n key (set key v d)) (set-current_db key v d)
      ∙ entry-set key v now d d.current_db key
      ∙ ground (arith, live, proper)

  pub set_command-forever :
      (clock : Clock) (name key value : NanoObj) (d : Database T E)
      → obj_eq key key ≡ true
      → is_past (E.find (expire_table_of d) key) (clock 0) ≡ false
      → Changed
          (clock 0)
          key
          (some (copy_from value, none))
          ok_response
          d
          (set_command (name ∷ key ∷ value ∷ []) clock d)
  unfolding set_command
  set_command-forever clock name key value d proper live =
      let v = copy_from value in
      record {
        replies = refl;
        writes = λ j q.
            (persist-Updates key (clock 0) (set key v d)).writes j q
            ∙ ground (
              arith,
              entry-set key v (clock 0) d j q,
              set-here key v (clock 0) d proper live,
              set-current_db key v d,
            );
      }

  set_command-read :
      (clock : Clock) (name key value option time : NanoObj) (ms : ℕ) (d : Database T E)
      → ttl_of option (parse_int (to_string time)) ≡ inr ms
      → obj_eq key key ≡ true
      → ltb_ℤ (clock 0) (pos int64_max) ≡ true
      → is_past (E.find (expire_table_of d) key) (clock 0) ≡ false
      → Changed
          (clock 0)
          key
          (some (copy_from value, some (end_of (pos ms) (clock 0))))
          ok_response
          d
          (set_command (name ∷ key ∷ value ∷ option ∷ time ∷ []) clock d)
  unfolding set_command
  set_command-read clock name key value option time ms d h proper small live =
      let v = copy_from value in
      let some_time = ttl_of-pos option (parse_int (to_string time)) ms h in
      let positive : leb_ℤ (pos ms) (pos 0) ≡ false = ground (arith, some_time) in
      subst
        (λ (o : Bytes ⊎ ℕ).
          Changed (clock 0) key (some (v, some (end_of (pos ms) (clock 0)))) ok_response d
            (set_for key value clock o d))
        (sym h)
        (record {
          replies = refl;
          writes = λ j q.
              (expire-Updates key (pos ms) (clock 0) (set key v d) small).writes j q
              ∙ ground (
                arith,
                positive,
                entry-set key v (clock 0) d j q,
                set-here key v (clock 0) d proper live,
                set-current_db key v d,
              );
        })

  -- SET with the option EX or PX, in any case of the letters, and a time that `ParseInt` reads as a
  -- positive number, of a key that equals itself and has no deadline that has come, before the
  -- clock's largest value: the reply is OK, a copy of the value can be seen under the key with the
  -- sum of the clock and that many seconds or milliseconds as its deadline, where both the
  -- milliseconds and the sum are held at the largest int64, and every other entry of every database
  -- is as before.
  pub set_command-for :
      (clock : Clock) (name key value option time : NanoObj) (n ms : ℕ) (d : Database T E)
      → parse_int (to_string time) ≡ some (pos n)
      → 0 < n
      → Lasts option n ms
      → obj_eq key key ≡ true
      → ltb_ℤ (clock 0) (pos int64_max) ≡ true
      → is_past (E.find (expire_table_of d) key) (clock 0) ≡ false
      → Changed
          (clock 0)
          key
          (some (copy_from value, some (end_of (pos ms) (clock 0))))
          ok_response
          d
          (set_command (name ∷ key ∷ value ∷ option ∷ time ∷ []) clock d)
  set_command-for clock name key value option time n ms d read many lasts proper small live =
      set_command-read clock name key value option time ms d
        (ap (ttl_of option) read ∙ ttl_of-Lasts option n ms many lasts) proper small live
