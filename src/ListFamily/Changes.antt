-- ===== src/ListFamily/Changes.antt =====
-- What the list commands of src/command/list_family.cc make of a key under which a list can be seen.
use nano_redis.Prelude.{
  ℕ, true, false, Option, none, some, List, [], ◌∷◌, Bytes, is_empty, if◌then◌else◌, Bool-cases,
  inl, inr, ◌≡◌, refl, ap, ◌∙◌, arith,
}
use nano_redis.Prelude.Int.{ℤ}
use nano_redis.NanoObj.{NanoObj}
use nano_redis.NanoObj.Ops.{is_list}
use nano_redis.Database.{Database, table_of, expire_table_of, assign}
use nano_redis.Database.Interface.{Table}
use nano_redis.Database.Expiry.{is_past, erase_in_db, find, find_live, del, prune_expired_in_db}
use nano_redis.Database.View.{visible, entry, is_at}
use nano_redis.Database.Methods.{del-Updates}
use nano_redis.ListFamily.{deque_of, with_deque}
use nano_redis.ListFamily.Handlers.{Clock, Out, on_list, found_list, write, keep}

pub visible_inv :
    (o : Option NanoObj) (a at : Option ℤ) (now : ℤ) (obj : NanoObj)
    → visible o a now ≡ some (obj, at)
    → (o ≡ some obj) × (a ≡ at) × (is_past a now ≡ false)
visible_inv none a at now obj h = absurd (ground arith)
visible_inv (some v) a at now obj h = elim (Bool-cases (is_past a now)) [
  | inl p ↦ absurd (ground arith)
  | inr p ↦ (ground arith, ground arith, p)
]

-- What is to be seen of a list object whose deque is changed.
abbrev pub kept_entry : NanoObj → Option ℤ → List NanoObj → Option (NanoObj × Option ℤ)
kept_entry obj at list = if is_empty list then none else some (with_deque obj list, at)

module _ {T : Table NanoObj} {E : Table ℤ} where
  -- Under the key a list can be seen, in the object `obj` with the deadline `at`.
  pub record Holds (now : ℤ) (key obj : NanoObj) (at : Option ℤ) (list : List NanoObj)
      (d : Database T E) : Type 0 where
    pub seen : entry now d.current_db key d ≡ some (obj, at)
    pub lists : is_list obj ≡ true
    pub deque : deque_of obj ≡ some list

  -- `out` has replied `r`, and left `e` to be seen under the key and every other entry as it was.
  pub record Changed (now : ℤ) (key : NanoObj) (e : Option (NanoObj × Option ℤ)) (r : Bytes)
      (d : Database T E) (out : Out T E) : Type 0 where
    pub replies : out.1 ≡ some r
    pub writes :
        (j : ℕ) (q : NanoObj)
        → entry now j q out.0 ≡ (if is_at d.current_db key j q then e else entry now j q d)

  pub find_seen :
      (now : ℤ) (key obj : NanoObj) (at : Option ℤ) (d : Database T E)
      → entry now d.current_db key d ≡ some (obj, at)
      → find key now d ≡ (d, some obj)
  unfolding find find_live prune_expired_in_db entry
  find_seen now key obj at d h =
      let (f, e, p) =
        visible_inv (T.find (table_of d) key) (E.find (expire_table_of d) key) at now obj h in
      ap (λ b. find_live key (if b then erase_in_db d.current_db key d else d)) p
      ∙ ap (λ (o : Option NanoObj). (d, o)) f

  pub entry-assign :
      (now : ℤ) (key obj : NanoObj) (at : Option ℤ) (v : NanoObj) (d : Database T E) (j : ℕ)
      (q : NanoObj)
      → entry now d.current_db key d ≡ some (obj, at)
      → entry now j q (assign key v d)
        ≡ (if is_at d.current_db key j q then some (v, at) else entry now j q d)
  unfolding entry assign
  entry-assign now key obj at v d j q h =
      let (f, e, p) =
        visible_inv (T.find (table_of d) key) (E.find (expire_table_of d) key) at now obj h in
      ground
        (arith, f, e, p, T.find-assign (table_of d) key q v, E.find_congr (expire_table_of d) key q)

  -- A handler that finds the list goes on with it.
  pub found_seen :
      (clock : Clock) (key obj : NanoObj) (at : Option ℤ) (list : List NanoObj) (d : Database T E)
      (other : Database T E → Out T E) (f : NanoObj → List NanoObj → Database T E → Out T E)
      → Holds (clock 0) key obj at list d
      → found_list key clock d other f ≡ f obj list d
  found_seen clock key obj at list d other f h =
      ap (λ o. on_list o.1 other f o.0) (find_seen (clock 0) key obj at d h.seen)
      ∙ rw (h.lists, h.deque) refl

  pub write-Changed :
      (now : ℤ) (key obj : NanoObj) (at : Option ℤ) (list new : List NanoObj) (r : Bytes)
      (d : Database T E)
      → Holds now key obj at list d
      → Changed now key (some (with_deque obj new, at)) r d (write key obj new d, some r)
  write-Changed now key obj at list new r d h = record {
    replies = refl;
    writes = λ j q. entry-assign now key obj at (with_deque obj new) d j q h.seen;
  }

  pub keep-Changed :
      (clock : Clock) (now : ℤ) (key obj : NanoObj) (at : Option ℤ) (list new : List NanoObj)
      (r : Bytes) (d : Database T E)
      → clock 1 ≡ now
      → Holds now key obj at list d
      → Changed now key (kept_entry obj at new) r d (keep key clock obj new d, some r)
  unfolding assign
  keep-Changed clock now key obj at list [] r d still h = record {
    replies = refl;
    writes = λ j q.
        ap (λ t. entry now j q (del key t (write key obj [] d)).0) still
        ∙ (del-Updates key now (write key obj [] d)).writes j q
        ∙ ground (arith, entry-assign now key obj at (with_deque obj []) d j q h.seen);
  }
  keep-Changed clock now key obj at list (o ∷ new) r d still h =
      write-Changed now key obj at list (o ∷ new) r d h
