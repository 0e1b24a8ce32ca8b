-- ===== src/Tests/Strings.antt =====
-- A database with numbers and texts, for the commands of src/command/string_family.cc.
use nano_redis.Prelude.{
  inl, ℕ, suc, ◌+◌, ◌≤◌, ◌≡◌, refl, arith, true, ◌&&◌, none, some, [], ◌∷◌, ◌++◌, Bytes, codes,
  length, get_elem?, ◌==◌, if◌then◌else◌, inr,
}
use Prim.Native.Nat.{max}
use nano_redis.Prelude.Int.{pos, negsuc, int64_max, ◌+ℤ◌, ◌-ℤ◌}
use nano_redis.Util
use nano_redis.NanoObj.{NanoObj, inline_str, int_tag, from_int}
use nano_redis.NanoObj.Ops
use nano_redis.NanoObj.Ops.{obj_eq, copy_from}
use nano_redis.Resp.{make_integer, make_array, make_bulk_string, ok_response}
use nano_redis.Database.{Database}
use nano_redis.Database.Assoc.{assoc_table}
use nano_redis.Database.View.{entry}
use nano_redis.Database.Methods.{value_of}
use nano_redis.ListFamily.Changes.{Changed}
use nano_redis.ListFamily.Handlers.{Clock}
use nano_redis.StringFamily.{parse_int, wrap64, invalid_integer}
use nano_redis.StringFamily.Handlers.{set_command, incr, incr_by, decr_by}
use nano_redis.StringFamily.Places.{get_range, written}
use nano_redis.StringFamily.Keyspace.{del_command, m_get}
use nano_redis.StringFamily.Reads.{Absent}
use nano_redis.StringFamily.Counters.{NoNumber, incr_by-Changed, incr_by_refused, incr_max}
use nano_redis.StringFamily.Ranges.{between, get_range_lem, get_range_throws}
use nano_redis.StringFamily.Overwriting.{byte_at, written_lem}
use nano_redis.StringFamily.Many.{taken, one_of, shown, seen_now, del_command-taken, m_get-shown}
use nano_redis.StringFamily.Setting.{set_command-for}

abbrev command : NanoObj
command = inline_str (codes "COMMAND")

abbrev number : NanoObj
number = int_tag (pos 7)

abbrev text : NanoObj
text = int_tag (pos 8)

abbrev blank : NanoObj
blank = int_tag (pos 9)

abbrev largest : NanoObj
largest = int_tag (pos 10)

abbrev missing : NanoObj
missing = int_tag (pos 11)

abbrev forty_one : NanoObj
forty_one = int_tag (pos 41)

abbrev hello : NanoObj
hello = inline_str (codes "hello")

abbrev nothing : NanoObj
nothing = inline_str []

abbrev the_max : NanoObj
the_max = int_tag (pos int64_max)

abbrev keyspace : Database assoc_table assoc_table
keyspace = record {
  tables = λ i.
      if i == 0
      then (number, forty_one) ∷ (text, hello) ∷ (blank, nothing) ∷ (largest, the_max) ∷ []
      else [];
  expire_tables = λ i. if i == 0 then (number, pos 5000) ∷ [] else [];
  current_db = 0;
}

abbrev clock : Clock
clock i = pos 1000

forty_one_seen : entry (pos 1000) 0 number keyspace ≡ some (forty_one, some (pos 5000))
unfolding entry obj_eq
forty_one_seen = refl

hello_seen : entry (pos 1000) 0 text keyspace ≡ some (hello, none)
unfolding entry obj_eq
hello_seen = refl

nothing_seen : entry (pos 1000) 0 blank keyspace ≡ some (nothing, none)
unfolding entry obj_eq
nothing_seen = refl

the_max_seen : entry (pos 1000) 0 largest keyspace ≡ some (the_max, none)
unfolding entry obj_eq
the_max_seen = refl

number_read : parse_int (Ops.to_string forty_one) ≡ some (pos 41)
unfolding parse_int Ops.to_string Util.to_string
number_read = refl

by_read : parse_int (Ops.to_string number) ≡ some (pos 7)
unfolding parse_int Ops.to_string Util.to_string
by_read = refl

max_read : parse_int (Ops.to_string the_max) ≡ some (pos int64_max)
unfolding parse_int Ops.to_string Util.to_string
max_read = refl

hello_read : parse_int (Ops.to_string hello) ≡ none
unfolding parse_int Ops.to_string
hello_read = refl

incr_by-Changed_example :
    Changed
      (pos 1000)
      number
      (some (from_int (wrap64 (pos 41 +ℤ pos 7)), some (pos 5000)))
      (make_integer (wrap64 (pos 41 +ℤ pos 7)))
      keyspace
      (incr_by (command ∷ number ∷ number ∷ []) clock keyspace)
    × Changed
        (pos 1000)
        number
        (some (from_int (wrap64 (pos 41 -ℤ pos 7)), some (pos 5000)))
        (make_integer (wrap64 (pos 41 -ℤ pos 7)))
        keyspace
        (decr_by (command ∷ number ∷ number ∷ []) clock keyspace)
incr_by-Changed_example =
    incr_by-Changed clock command number number forty_one (some (pos 5000)) (pos 41) (pos 7)
      keyspace forty_one_seen number_read by_read

hello-NoNumber : NoNumber clock text number keyspace
hello-NoNumber = inr (hello, none, hello_seen, hello_read)

incr_by_refused_example :
    (incr_by (command ∷ text ∷ number ∷ []) clock keyspace ≡ (keyspace, some invalid_integer))
    × (decr_by (command ∷ text ∷ number ∷ []) clock keyspace ≡ (keyspace, some invalid_integer))
incr_by_refused_example = incr_by_refused clock command text number keyspace hello-NoNumber

missing-Absent : Absent (pos 1000) missing keyspace
unfolding obj_eq
missing-Absent = record { value = refl; deadline = refl }

missing_proper : obj_eq missing missing ≡ true
unfolding obj_eq
missing_proper = refl

incr_max_example :
    Changed
      (pos 1000)
      largest
      (some (from_int (negsuc int64_max), none))
      (make_integer (negsuc int64_max))
      keyspace
      (incr (command ∷ largest ∷ []) clock keyspace)
incr_max_example = incr_max clock command largest the_max none keyspace the_max_seen max_read

one_read : parse_int (Ops.to_string (int_tag (pos 1))) ≡ some (pos 1)
unfolding parse_int Ops.to_string Util.to_string
one_read = refl

end_read : parse_int (Ops.to_string (int_tag (negsuc 1))) ≡ some (negsuc 1)
unfolding parse_int Ops.to_string Util.to_string
end_read = refl

get_range_lem_example :
    get_range (command ∷ text ∷ int_tag (pos 1) ∷ int_tag (negsuc 1) ∷ []) clock keyspace
    ≡ (keyspace, some (make_bulk_string (between (Ops.to_string hello) (pos 1) (negsuc 1))))
unfolding Ops.to_string
get_range_lem_example =
    get_range_lem clock command text (int_tag (pos 1)) (int_tag (negsuc 1)) hello none (pos 1)
      (negsuc 1) keyspace one_read end_read hello_seen (omega arith) (omega arith)

get_range_throws_example :
    get_range (command ∷ blank ∷ int_tag (pos 1) ∷ int_tag (negsuc 1) ∷ []) clock keyspace
    ≡ (keyspace, none)
unfolding Ops.to_string
get_range_throws_example =
    get_range_throws clock command blank (int_tag (pos 1)) (int_tag (negsuc 1)) nothing none (pos 1)
      (negsuc 1) keyspace one_read end_read nothing_seen refl

written_lem_example :
    (t : Bytes) × (written 100 (codes "ab") 3 (codes "cd") ≡ some t)
    × (length t ≡ max (length (codes "ab")) (3 + length (codes "cd")))
    × ((j : ℕ) → suc j ≤ length t → get_elem? t j ≡ byte_at (codes "ab") 3 (codes "cd") j)
written_lem_example = written_lem 100 (codes "ab") 3 (codes "cd") (omega arith) (omega arith)

del_command-taken_example :
    ((del_command (command ∷ text ∷ text ∷ missing ∷ []) clock keyspace).1
      ≡ some
          (make_integer (pos (taken (seen_now (pos 1000) keyspace) (text ∷ text ∷ missing ∷ [])))))
    × ((j : ℕ) (q : NanoObj)
        → entry (pos 1000) j q (del_command (command ∷ text ∷ text ∷ missing ∷ []) clock keyspace).0
          ≡ (if (j == 0) && one_of (text ∷ text ∷ missing ∷ []) q
              then none
              else entry (pos 1000) j q keyspace))
del_command-taken_example =
    del_command-taken command text (text ∷ missing ∷ []) clock (pos 1000) keyspace (λ n. refl)

m_get-shown_example :
    ((m_get (command ∷ text ∷ missing ∷ []) clock keyspace).1
      ≡ some (
          make_array (pos 2)
          ++ shown (λ q. value_of (entry (pos 1000) 0 q keyspace)) (text ∷ missing ∷ [])))
    × ((j : ℕ) (q : NanoObj)
        → entry (pos 1000) j q (m_get (command ∷ text ∷ missing ∷ []) clock keyspace).0
          ≡ entry (pos 1000) j q keyspace)
m_get-shown_example = m_get-shown command text (missing ∷ []) clock (pos 1000) keyspace (λ n. refl)

seconds_read : parse_int (Ops.to_string number) ≡ some (pos 7)
unfolding parse_int Ops.to_string Util.to_string
seconds_read = refl

ex_read :
    Util.equals_ignore_case (Ops.get_string_view (inline_str (codes "ex"))) (codes "EX") ≡ true
unfolding Util.equals_ignore_case Ops.get_string_view Util.upper
ex_read = refl

set_command-for_example :
    Changed (pos 1000) missing (some (copy_from hello, some (pos 8000))) ok_response keyspace (
      set_command
        (command ∷ missing ∷ hello ∷ inline_str (codes "ex") ∷ number ∷ [])
        clock
        keyspace)
unfolding obj_eq
set_command-for_example =
    set_command-for clock command missing hello (inline_str (codes "ex")) number 7 7000 keyspace
      seconds_read (omega arith) (inl (ex_read, refl)) refl refl refl
