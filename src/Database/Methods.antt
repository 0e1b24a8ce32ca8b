-- ===== src/Database/Methods.antt =====
-- What the methods of src/core/database.cc return, and what they make of the abstract keyspace.
use nano_redis.Prelude.{
  ℕ, ◌≡◌, refl, ap, ◌∙◌, arith, Bool, false, Option, none, some, if◌then◌else◌,
}
use mathlib.Core.Path.{subst, ap₂}
use nano_redis.Prelude.Int.{ℤ}
use nano_redis.NanoObj.{NanoObj}
use nano_redis.Database.{Database, table_of, expire_table_of}
use nano_redis.Database.Interface.{Table, is_some}
use nano_redis.Database.Expiry.{
  is_past, prune_expired_in_db, pruned, find, find_live, get, get_live, text_of, exists,
  exists_live, del, del_live, persist, persist_live,
}
use nano_redis.Database.View.{entry, is_at, entry-prune}

abbrev pub value_of : Option (NanoObj × Option ℤ) → Option NanoObj
value_of none = none
value_of (some e) = some e.0

is_some-value_of : (e : Option (NanoObj × Option ℤ)) → is_some (value_of e) ≡ is_some e
is_some-value_of none = refl
is_some-value_of (some e) = refl

-- What `Persist` does to an entry.
abbrev pub without_deadline : Option (NanoObj × Option ℤ) → Option (NanoObj × Option ℤ)
without_deadline none = none
without_deadline (some e) = some (e.0, none)

abbrev pub has_deadline : Option (NanoObj × Option ℤ) → Bool
has_deadline none = false
has_deadline (some e) = is_some e.1

module _ {T : Table NanoObj} {E : Table ℤ} where
  -- What `out` is of a method that returns `g` of the entry at `key` in database `i`, writes `h` of it
  -- there, and leaves every other entry of every database as it is.
  pub record Updates {R : Type 0} (i : ℕ) (now : ℤ) (key : NanoObj)
      (g : Option (NanoObj × Option ℤ) → R)
      (h : Option (NanoObj × Option ℤ) → Option (NanoObj × Option ℤ)) (d : Database T E)
      (out : Database T E × R) : Type 0 where
    pub returns : out.1 ≡ g (entry now i key d)
    pub writes :
        (j : ℕ) (q : NanoObj)
        → entry now j q out.0 ≡ (if is_at i key j q then h (entry now i key d) else entry now j q d)

  current_db-prune :
      (i : ℕ) (key : NanoObj) (now : ℤ) (d : Database T E)
      → (prune_expired_in_db i key now d).current_db ≡ d.current_db
  unfolding prune_expired_in_db
  current_db-prune i key now d = ground arith

  -- The key has no deadline that has come.
  abbrev pub IsLive : NanoObj → ℤ → Database T E → Type 0
  IsLive key now d = is_past (E.find (expire_table_of d) key) now ≡ false

  pub IsLive-prune :
      (key : NanoObj) (now : ℤ) (d : Database T E) → IsLive key now (pruned key now d)
  unfolding prune_expired_in_db
  IsLive-prune key now d =
      ground
        (arith, E.find-erase (expire_table_of d) key key, E.find_unequal (expire_table_of d) key)

  -- A method may be looked at behind its pruning.
  pub Updates-pruned :
      {R : Type 0} (now : ℤ) (key : NanoObj) (g : Option (NanoObj × Option ℤ) → R)
      (h : Option (NanoObj × Option ℤ) → Option (NanoObj × Option ℤ)) (d : Database T E)
      (out : Database T E × R)
      → Updates (pruned key now d).current_db now key g h (pruned key now d) out
      → Updates d.current_db now key g h d out
  Updates-pruned now key g h d out u =
      let i = d.current_db in
      let here = entry-prune d i i key key now in
      let v =
        subst (λ n. Updates n now key g h (pruned key now d) out) (current_db-prune i key now d)
          u in
      record {
        returns = v.returns ∙ ap g here;
        writes = λ j q.
            v.writes j q
            ∙ ap₂ (λ a b. if is_at i key j q then h a else b) here (entry-prune d i j key q now);
      }

  pub entry_live :
      (key : NanoObj) (now : ℤ) (d : Database T E)
      → IsLive key now d
      → T.find (table_of d) key ≡ value_of (entry now d.current_db key d)
  unfolding entry
  entry_live key now d h = ground arith

  pub entry_congr :
      (key : NanoObj) (now : ℤ) (d : Database T E) (j : ℕ) (q : NanoObj)
      → entry now j q d
        ≡ (if is_at d.current_db key j q then entry now d.current_db key d else entry now j q d)
  unfolding entry
  entry_congr key now d j q =
      ground (arith, T.find_congr (table_of d) key q, E.find_congr (expire_table_of d) key q)

  -- A method that only reads the entry.
  pub reads :
      {R : Type 0} (now : ℤ) (key : NanoObj) (g : Option (NanoObj × Option ℤ) → R)
      (d : Database T E) (r : R)
      → r ≡ g (entry now d.current_db key d)
      → Updates d.current_db now key g (λ e. e) d (d, r)
  reads now key g d r e = record { returns = e; writes = entry_congr key now d }

  -- `Find` returns the value that can be seen under the key, if there is one; nothing that can be
  -- seen changes.
  pub find-Updates :
      (key : NanoObj) (now : ℤ) (d : Database T E)
      → Updates d.current_db now key value_of (λ e. e) d (find key now d)
  unfolding find find_live
  find-Updates key now d =
      let d' = pruned key now d in
      Updates-pruned now key _ _ d _
        (reads now key value_of d' _ (entry_live key now d' (IsLive-prune key now d)))

  -- `Get` returns the text of the value that can be seen under the key, if there is one; nothing
  -- that can be seen changes.
  pub get-Updates :
      (key : NanoObj) (now : ℤ) (d : Database T E)
      → Updates d.current_db now key (λ e. text_of (value_of e)) (λ e. e) d (get key now d)
  unfolding get get_live
  get-Updates key now d =
      let d' = pruned key now d in
      Updates-pruned now key _ _ d _ (
        reads now key (λ e. text_of (value_of e)) d' _
          (ap text_of (entry_live key now d' (IsLive-prune key now d))))

  -- `Exists` returns whether a value can be seen under the key; nothing that can be seen changes.
  pub exists-Updates :
      (key : NanoObj) (now : ℤ) (d : Database T E)
      → Updates d.current_db now key is_some (λ e. e) d (exists key now d)
  unfolding exists exists_live
  exists-Updates key now d =
      let d' = pruned key now d in
      Updates-pruned now key _ _ d _ (
        reads now key is_some d' _
          (ap is_some (entry_live key now d' (IsLive-prune key now d)) ∙ is_some-value_of _))

  del_live-Updates :
      (key : NanoObj) (now : ℤ) (d : Database T E)
      → IsLive key now d
      → Updates d.current_db now key is_some (λ _. none) d (del_live key d)
  unfolding del_live entry
  del_live-Updates key now d live = record {
    returns = ground arith;
    writes = λ j q. ground (
      arith,
      T.find-erase (table_of d) key q,
      E.find-erase (expire_table_of d) key q,
      T.find_congr (table_of d) key q,
    );
  }

  -- `Del` returns whether a value can be seen under the key, and after it none can; every other
  -- entry of every database is as before.
  pub del-Updates :
      (key : NanoObj) (now : ℤ) (d : Database T E)
      → Updates d.current_db now key is_some (λ _. none) d (del key now d)
  unfolding del
  del-Updates key now d =
      Updates-pruned now key _ _ d _
        (del_live-Updates key now (pruned key now d) (IsLive-prune key now d))

  persist_live-Updates :
      (key : NanoObj) (now : ℤ) (d : Database T E)
      → IsLive key now d
      → Updates d.current_db now key has_deadline without_deadline d (persist_live key d)
  unfolding persist_live entry
  persist_live-Updates key now d live = record {
    returns = ground arith;
    writes = λ j q. ground (
      arith,
      E.find-erase (expire_table_of d) key q,
      T.find_congr (table_of d) key q,
      E.find_congr (expire_table_of d) key q,
    );
  }

  -- `Persist` returns whether a value with a deadline can be seen under the key, and takes the
  -- deadline away; every other entry of every database is as before.
  pub persist-Updates :
      (key : NanoObj) (now : ℤ) (d : Database T E)
      → Updates d.current_db now key has_deadline without_deadline d (persist key now d)
  unfolding persist
  persist-Updates key now d =
      Updates-pruned now key _ _ d _
        (persist_live-Updates key now (pruned key now d) (IsLive-prune key now d))
