-- ===== src/Rdb/Dump.antt =====
-- A whole dump: what the SAVE command of src/command/server_family.cc writes, read by `Load` of
-- src/core/rdb_loader.cc.
use nano_redis.Prelude.{
  ℕ, suc, ◌+◌, ◌≤◌, Bool, true, false, not, Bool-cases, ◌⊎◌, inl, inr, none, List, [], ◌∷◌, ◌++◌,
  Bytes, length, length-append, ◌==◌, ◌≡◌, refl, sym, ap, ◌∙◌, arith,
}
use nano_redis.Prelude.Int.{ℤ, pos, ltb_ℤ}
use nano_redis.Rdb.{build_crc32, opcode_eof}
use nano_redis.Rdb.Numbers.{length-le_bytes}
use nano_redis.Rdb.Save
use nano_redis.Rdb.Save.{
  Saver, new_serializer, Save, ◌>>◌, success, save_header, save_entry, save_footer,
}
use nano_redis.Rdb.Load.{Containers, Entry, Cursor, load_loop}
use nano_redis.Rdb.Pieces.{wrote, wrote-nil, wrote-append}
use nano_redis.Rdb.Entries.{
  Steps, Steps-nil, Steps-trans, Saved, IsEntry, no_db, select_bytes, deadline_bytes, body_bytes,
  entry_bytes, wrote_in, save_entry-wrote,
}
use nano_redis.Rdb.Turns.{handler, seen, one_if, deadline_seen, entry-Steps}
use nano_redis.Rdb.Frame.{header_bytes, footer_bytes, save_header-wrote, save_footer-wrote}

unfoldable pub save_entries : List Saved → Save
unfolding save_entry
save_entries [] = success
save_entries (e ∷ l) = do save_entry e.key e.value e.expire_ms e.dbid; save_entries l

-- The calls of the serializer in SAVE, at the time `ts`.
unfoldable pub save_dump : ℕ → List Saved → Save
unfolding save_header save_entries save_footer
save_dump ts l = do save_header ts; save_entries l; save_footer

abbrev pub AllEntries : List Saved → Type 0
AllEntries [] = Unit
AllEntries (e ∷ l) = IsEntry e × AllEntries l

abbrev pub entries_bytes : ℕ → List Saved → Bytes
entries_bytes last [] = []
entries_bytes last (e ∷ l) = entry_bytes last e ++ entries_bytes e.dbid l

abbrev pub last_db : ℕ → List Saved → ℕ
last_db last [] = last
last_db last (e ∷ l) = last_db e.dbid l

save_entries-wrote :
    (l : List Saved) (s : Saver)
    → AllEntries l
    → s.has_sink ≡ true
    → length (entries_bytes s.last_dbid l) ≤ s.room
    → save_entries l s ≡ (none, wrote_in (last_db s.last_dbid l) (entries_bytes s.last_dbid l) s)
unfolding save_entries
save_entries-wrote [] s v h r = ap (λ (t : Saver). (none, t)) (sym (wrote-nil s))
save_entries-wrote (e ∷ l) s (v, vs) h r =
    let one = entry_bytes s.last_dbid e in
    let more = entries_bytes e.dbid l in
    ap (λ o. Save.continue o.0 (save_entries l) o.1)
      (save_entry-wrote e s v h (omega (arith, r, length-append one more)))
    ∙ save_entries-wrote l (wrote_in e.dbid one s) vs h (omega (arith, r, length-append one more))
    ∙ ap (λ (t : Saver). (none, record t { last_dbid = last_db e.dbid l }))
        (wrote-append one more s)

one_if-add : (b : Bool) (n : ℕ) → one_if b n ≡ one_if b 0 + n
one_if-add true n = omega arith
one_if-add false n = omega arith

select-length : (last dbid : ℕ) → one_if (not (dbid == last)) 0 ≤ length (select_bytes last dbid)
unfolding select_bytes
select-length last dbid = elim (Bool-cases (dbid == last)) [
  | inl e ↦ rw e (omega arith)
  | inr e ↦ rw e (omega arith)
]

deadline-length : (z : ℤ) → one_if (ltb_ℤ (pos 0) z) 0 ≤ length (deadline_bytes z)
unfolding deadline_bytes
deadline-length z = elim (Bool-cases (ltb_ℤ (pos 0) z)) [
  | inl e ↦ rw e (omega arith)
  | inr e ↦ rw e (omega arith)
]

-- The turns of the loop that the entries take, and `fuel` more.
abbrev pub rounds : ℕ → List Saved → ℕ → ℕ
rounds last [] fuel = fuel
rounds last (e ∷ l) fuel =
    one_if (not (e.dbid == last)) (one_if (ltb_ℤ (pos 0) e.expire_ms) (suc (rounds e.dbid l fuel)))

rounds-cons :
    (last fuel : ℕ) (e : Saved) (l : List Saved)
    → rounds last (e ∷ l) fuel
      ≡ one_if (not (e.dbid == last)) 0
        + (one_if (ltb_ℤ (pos 0) e.expire_ms) 0 + suc (rounds e.dbid l fuel))
rounds-cons last fuel e l =
    let more = suc (rounds e.dbid l fuel) in
    let dated = ltb_ℤ (pos 0) e.expire_ms in
    one_if-add (not (e.dbid == last)) (one_if dated more)
    ∙ ap (λ (n : ℕ). one_if (not (e.dbid == last)) 0 + n) (one_if-add dated more)

-- Every turn reads a byte at least.
pub rounds-below : (last : ℕ) (l : List Saved) → rounds last l 0 ≤ length (entries_bytes last l)
rounds-below last [] = omega arith
rounds-below last (e ∷ l) = omega (
  arith,
  rounds-cons last 0 e l,
  rounds-below e.dbid l,
  select-length last e.dbid,
  deadline-length e.expire_ms,
  length-append (entry_bytes last e) (entries_bytes e.dbid l),
  length-append (select_bytes last e.dbid) (deadline_bytes e.expire_ms ++ body_bytes e),
  length-append (deadline_bytes e.expire_ms) (body_bytes e),
)

pub rounds-add : (last fuel : ℕ) (l : List Saved) → rounds last l fuel ≡ rounds last l 0 + fuel
rounds-add last fuel [] = omega arith
rounds-add last fuel (e ∷ l) =
    omega (arith, rounds-cons last fuel e l, rounds-cons last 0 e l, rounds-add e.dbid fuel l)

abbrev pub cursor_after : Cursor → List Saved → Cursor
cursor_after cur [] = cur
cursor_after cur (e ∷ l) = cursor_after (record { dbid = e.dbid; expire = none }) l

module _ (c : Containers) {S : Type 0} (h : Entry → S → S) where
  -- The handler's calls, one for each entry, in order.
  abbrev pub handled : S → List Saved → S
  handled s [] = s
  handled s (e ∷ l) = handled (h (seen c h e (deadline_seen c h e.expire_ms)) s) l

  pub entries-Steps :
      (fuel last : ℕ) (l : List Saved) (cur : Cursor) (s : S)
      → AllEntries l
      → (cur.dbid ≡ last) ⊎ (last ≡ no_db)
      → cur.expire ≡ none
      → Steps
          (load_loop c (handler c h) (rounds last l fuel) cur s)
          (entries_bytes last l)
          (load_loop c (handler c h) fuel (cursor_after cur l) (handled s l))
  entries-Steps fuel last [] cur s v synced none_yet =
      Steps-nil (load_loop c (handler c h) fuel cur s)
  entries-Steps fuel last (e ∷ l) cur s (v, vs) synced none_yet =
      let there : Cursor = record { dbid = e.dbid; expire = none } in
      let s' = h (seen c h e (deadline_seen c h e.expire_ms)) s in
      Steps-trans (load_loop c (handler c h) (rounds last (e ∷ l) fuel) cur s)
        (load_loop c (handler c h) (rounds e.dbid l fuel) there s')
        (load_loop c (handler c h) fuel (cursor_after there l) (handled s' l)) (entry_bytes last e)
        (entries_bytes e.dbid l)
        (entry-Steps c h (rounds e.dbid l fuel) last e cur s v synced none_yet)
        (entries-Steps fuel e.dbid l there s' vs (inl refl) refl)

abbrev pub dump_bytes : ℕ → ℕ → ℕ → List Saved → Bytes
dump_bytes shard shards ts l =
    let front = header_bytes shard shards ts ++ entries_bytes no_db l in
    front ++ footer_bytes (build_crc32 0 front)

module _ (room shard shards ts : ℕ) (l : List Saved) where
  -- With room for it, SAVE writes the dump and succeeds.
  pub save_dump-wrote :
      AllEntries l
      → length (dump_bytes shard shards ts l) ≤ room
      → save_dump ts l (new_serializer true room shard shards) ≡ (
        none,
        wrote_in
            (last_db no_db l)
            (dump_bytes shard shards ts l)
            (new_serializer true room shard shards),
      )
  unfolding save_dump
  save_dump-wrote v r =
      ap (λ o. Save.continue o.0 (save_entries l >> save_footer) o.1)
        (save_header-wrote ts new refl (omega (arith, r, sizes, foot)))
      ∙ ap (λ o. Save.continue o.0 save_footer o.1)
          (save_entries-wrote l (wrote head new) v refl (omega (arith, r, sizes, foot))
            ∙ ap (λ (t : Saver). (none, record t { last_dbid = last_db no_db l }))
                (wrote-append head body new))
      ∙ save_footer-wrote (wrote_in (last_db no_db l) front new) refl
          (omega (arith, r, sizes, foot, front_size))
      ∙ ap (λ (t : Saver). (none, record t { last_dbid = last_db no_db l }))
          (wrote-append front (footer_bytes (build_crc32 0 front)) new)
    where
      new : Saver
      new = new_serializer true room shard shards

      head : Bytes
      head = header_bytes shard shards ts

      body : Bytes
      body = entries_bytes no_db l

      front : Bytes
      front = head ++ body

      sizes :
          length (dump_bytes shard shards ts l)
          ≡ length head + length body + length (footer_bytes (build_crc32 0 front))
      sizes =
          omega (
            arith,
            length-append front (footer_bytes (build_crc32 0 front)),
            length-append head body,
          )

      foot : length (footer_bytes (build_crc32 0 front)) ≡ 5
      foot = ap suc (length-le_bytes 4 (build_crc32 (build_crc32 0 front) (opcode_eof ∷ [])))

      front_size : length front ≡ length head + length body
      front_size = length-append head body
