-- ===== src/StringFamily/Many.antt =====
-- DEL, EXISTS and MGET of src/command/string_family.cc, in the branch for one shard.
use nano_redis.Prelude.{
  ℕ, ◌+◌, ◌≡◌, refl, ap, ◌∙◌, sym, arith, Bool, false, ◌&&◌, ◌||◌, Option, none, some, List, [],
  ◌∷◌, ◌++◌, Bytes, length, ◌==◌, if◌then◌else◌,
}
use mathlib.Core.Path.{fun_ext}
use nano_redis.Prelude.Int.{ℤ, pos}
use nano_redis.NanoObj.{NanoObj}
use nano_redis.NanoObj.Ops.{obj_eq}
use nano_redis.Resp.{make_integer, make_array}
use nano_redis.Database.{Database}
use nano_redis.Database.Interface.{Table, is_some}
use nano_redis.Database.Expiry.{get, get_live, del, del_live, text_of, prune_expired_in_db}
use nano_redis.Database.View.{entry}
use nano_redis.Database.Methods.{value_of, get-Updates, del-Updates, entry_congr}
use nano_redis.ListFamily.Handlers.{Clock}
use nano_redis.StringFamily.Handlers.{bulk_or_null}
use nano_redis.StringFamily.Keyspace.{counted_up, del_all, del_command, get_all, m_get}

-- How many of the keys are seen, where a key that is taken is not seen again.
abbrev pub taken : (NanoObj → Bool) → List NanoObj → ℕ
taken seen [] = 0
taken seen (key ∷ l) = counted_up (seen key) (taken (λ q. if obj_eq key q then false else seen q) l)

abbrev pub one_of : List NanoObj → NanoObj → Bool
one_of [] q = false
one_of (key ∷ l) q = obj_eq key q || one_of l q

-- The replies to the keys, by what is seen under them.
abbrev pub shown : (NanoObj → Option NanoObj) → List NanoObj → Bytes
shown seen [] = []
shown seen (key ∷ l) = bulk_or_null (text_of (seen key)) ++ shown seen l

module _ {T : Table NanoObj} {E : Table ℤ} where
  current_db-del :
      (key : NanoObj) (now : ℤ) (d : Database T E) → (del key now d).0.current_db ≡ d.current_db
  unfolding del del_live prune_expired_in_db
  current_db-del key now d = ground arith

  current_db-get :
      (key : NanoObj) (now : ℤ) (d : Database T E) → (get key now d).0.current_db ≡ d.current_db
  unfolding get get_live prune_expired_in_db
  current_db-get key now d = ground arith

  -- What is seen under a key of the current database.
  abbrev pub seen_now : ℤ → Database T E → NanoObj → Bool
  seen_now now d q = is_some (entry now d.current_db q d)

  seen-del :
      (key : NanoObj) (now : ℤ) (d : Database T E)
      → seen_now now (del key now d).0 ≡ (λ q. if obj_eq key q then false else seen_now now d q)
  seen-del key now d = fun_ext λ q.
      let d1 = (del key now d).0 in
      ap (λ (n : ℕ). is_some (entry now n q d1)) (current_db-del key now d)
      ∙ ground (arith, (del-Updates key now d).writes d.current_db q)

  del_all-entry :
      (l : List NanoObj) (clock : Clock) (now : ℤ) (i : ℕ) (d : Database T E)
      → ((n : ℕ) → clock n ≡ now)
      → ((j : ℕ) (q : NanoObj)
          → entry now j q (del_all l clock i d).0
            ≡ (if (j == d.current_db) && one_of l q then none else entry now j q d))
        × ((del_all l clock i d).1 ≡ taken (seen_now now d) l)
  unfolding del_all
  del_all-entry [] clock now i d still = (λ j q. ground arith, refl)
  del_all-entry (key ∷ l) clock now i d still = rw (still i) (
      let d1 = (del key now d).0 in
      let u = del-Updates key now d in
      let (entries, count) = del_all-entry l clock now (i + 1) d1 still in
      (
        λ j q. entries j q ∙ ground (arith, u.writes j q, current_db-del key now d),
        λ k. counted_up (u.returns k) ((count ∙ ap (λ f. taken f l) (seen-del key now d)) k),
      ))

  -- DEL of one or more keys, in the branch for one shard and with a clock that stands still: the
  -- reply is the number of keys under which a value can be seen, where a key that equals an earlier
  -- one is not counted again; afterwards nothing can be seen under any of the keys, and every other
  -- entry of every database is as before.
  pub del_command-taken :
      (name key : NanoObj) (l : List NanoObj) (clock : Clock) (now : ℤ) (d : Database T E)
      → ((n : ℕ) → clock n ≡ now)
      → ((del_command (name ∷ key ∷ l) clock d).1
          ≡ some (make_integer (pos (taken (seen_now now d) (key ∷ l)))))
        × ((j : ℕ) (q : NanoObj)
            → entry now j q (del_command (name ∷ key ∷ l) clock d).0
              ≡ (if (j == d.current_db) && one_of (key ∷ l) q then none else entry now j q d))
  unfolding del_command
  del_command-taken name key l clock now d still =
      let (entries, count) = del_all-entry (key ∷ l) clock now 0 d still in
      (ap (λ (n : ℕ). some (make_integer (pos n))) count, entries)

  get_all-shown :
      (l : List NanoObj) (clock : Clock) (now : ℤ) (i : ℕ) (d : Database T E)
      → ((n : ℕ) → clock n ≡ now)
      → ((j : ℕ) (q : NanoObj) → entry now j q (get_all l clock i d).0 ≡ entry now j q d)
        × ((get_all l clock i d).1 ≡ shown (λ q. value_of (entry now d.current_db q d)) l)
  unfolding get_all
  get_all-shown [] clock now i d still = (λ j q. refl, refl)
  get_all-shown (key ∷ l) clock now i d still = rw (still i) (
      let d1 = (get key now d).0 in
      let u = get-Updates key now d in
      let same : (j : ℕ) (q : NanoObj) → entry now j q d1 ≡ entry now j q d =
        λ j q. u.writes j q ∙ sym (entry_congr key now d j q) in
      let cur = current_db-get key now d in
      let (entries, result) = get_all-shown l clock now (i + 1) d1 still in
      (
        λ j q. entries j q ∙ same j q,
        λ k.
            bulk_or_null (u.returns k)
            ++ (result
                  ∙ ap (λ (f : NanoObj → Option NanoObj). shown f l)
                      (fun_ext λ q.
                        ap value_of (ap (λ (n : ℕ). entry now n q d1) cur ∙ same d.current_db q)))
                k,
      ))

  -- MGET of one or more keys, in the branch for one shard and with a clock that stands still: the
  -- reply announces as many elements as there are keys and has, in their order, the text of the
  -- value that can be seen under each, or the null reply; nothing that can be seen changes.
  pub m_get-shown :
      (name key : NanoObj) (l : List NanoObj) (clock : Clock) (now : ℤ) (d : Database T E)
      → ((n : ℕ) → clock n ≡ now)
      → ((m_get (name ∷ key ∷ l) clock d).1
          ≡ some (
              make_array (pos (length (key ∷ l)))
              ++ shown (λ q. value_of (entry now d.current_db q d)) (key ∷ l)))
        × ((j : ℕ) (q : NanoObj)
            → entry now j q (m_get (name ∷ key ∷ l) clock d).0 ≡ entry now j q d)
  unfolding m_get
  m_get-shown name key l clock now d still =
      let (entries, result) = get_all-shown (key ∷ l) clock now 0 d still in
      (ap (λ (r : Bytes). some (make_array (pos (length (key ∷ l))) ++ r)) result, entries)
