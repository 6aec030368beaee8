-- ===== src/Parser.antt =====
-- src/server/parser.c: the commands of a job file.
pub mod Commands
pub mod Lists
pub mod Reads
pub mod Bounds
pub mod Lines
use so_proj.Base.{
  ℕ, zero, suc, Bool, true, false, not, ◌&&◌, ◌||◌, List, [], ◌∷◌, ◌++◌, Option, none, some, ◌==◌,
  if◌then◌else◌, length, take, drop, Bytes, codes, equal, until_nul, Run, ok, ◌>>=◌, ℤ, pos, negsuc,
}
use so_proj.Scan.{Ended, failed, comma, closing, bracket, read_string, read_uint, cleanup}

pub data Command : Type 0 where
  cmd_write cmd_read cmd_delete cmd_show cmd_wait : Command
  cmd_backup cmd_help cmd_empty cmd_invalid eoc : Command

-- MAX_WRITE_SIZE and MAX_STRING_SIZE of src/server/constants.h
abbrev pub max_write_size : ℕ
max_write_size = 256

abbrev pub max_string_size : ℕ
max_string_size = 40

-- `cleanup(fd); return CMD_INVALID;`
abbrev pub invalid : Bytes → Command × Bytes
invalid input = (cmd_invalid, cleanup input)

-- `read(fd, buf + k, n) == n && strncmp(buf, word, k + n) == 0`, where `buf` holds `k` bytes
abbrev pub completes : Bytes → ℕ → Bytes → Bytes → Bool
completes buf n word input = length (take n input) == n && equal (buf ++ take n input) word

-- The command is complete, but a byte behind it has to be the end of the line.
pub ends_line : Command → Bytes → Command × Bytes
ends_line command [] = (command, [])
ends_line command (ch ∷ input) = if ch == b'\n' then (command, input) else invalid input

pub after_w : Bytes → Command × Bytes
after_w input =
    if completes (codes "W") 4 (codes "WAIT ") input
    then (cmd_wait, drop 4 input)
    else if completes (codes "W" ++ take 4 input) 1 (codes "WRITE ") (drop 4 input)
    then (cmd_write, drop 1 (drop 4 input))
    else invalid (drop 1 (drop 4 input))

unfoldable pub get_next : Bytes → Command × Bytes
get_next [] = (eoc, [])
get_next (ch ∷ input) =
    if ch == b'W'
    then after_w input
    else if ch == b'R'
    then (if completes (codes "R") 4 (codes "READ ") input
        then (cmd_read, drop 4 input)
        else invalid (drop 4 input))
    else if ch == b'D'
    then (if completes (codes "D") 6 (codes "DELETE ") input
        then (cmd_delete, drop 6 input)
        else invalid (drop 6 input))
    else if ch == b'S'
    then (if completes (codes "S") 3 (codes "SHOW") input
        then ends_line cmd_show (drop 3 input)
        else invalid (drop 3 input))
    else if ch == b'B'
    then (if completes (codes "B") 5 (codes "BACKUP") input
        then ends_line cmd_backup (drop 5 input)
        else invalid (drop 5 input))
    else if ch == b'H'
    then (if completes (codes "H") 3 (codes "HELP") input
        then ends_line cmd_help (drop 3 input)
        else invalid (drop 3 input))
    else if ch == b'#'
    then (cmd_empty, cleanup input)
    else if ch == b'\n'
    then (cmd_empty, input)
    else invalid input

abbrev value_read : Bytes → Ended × Bytes × Bytes → Option (Bytes × Bytes) × Bytes
value_read key (closing, value, rest) = (some (key, value), rest)
value_read key (_, value, rest) = (none, cleanup rest)

abbrev key_read : Ended × Bytes × Bytes → Run (Option (Bytes × Bytes) × Bytes)
key_read (comma, key, rest) = do r ← read_string max_string_size rest; ok (value_read key r)
key_read (_, key, rest) = ok (none, cleanup rest)

-- `none` stands for the result 0.
pub parse_pair : Bytes → Run (Option (Bytes × Bytes) × Bytes)
parse_pair input = do r ← read_string max_string_size input; key_read r

-- The last check of both list parsers, with what they return if it is passed; the empty list is
-- the result 0.
unfoldable pub ends_list {ℓ} : {A : Type ℓ} → List A → Bytes → List A × Bytes
ends_list items [] = ([], [])
ends_list items (ch ∷ input) =
    if ch == b'\n' || ch == 0 then (items, input) else ([], cleanup input)

-- What stands behind a pair.
pub data Next : Type 0 where
  another finished neither : Next

pub after_pair : Bytes → Next × Bytes
after_pair [] = (neither, [])
after_pair (ch ∷ input) =
    if ch == b'('
    then (another, input)
    else if ch == b']'
    then (finished, input)
    else (neither, input)

-- `read(fd, &ch, 1) == 1 && ch == wanted`
unfoldable pub expect : ℕ → Bytes → Bool × Bytes
expect wanted [] = (false, [])
expect wanted (ch ∷ input) = (ch == wanted, input)

abbrev pub Pairs : Type 0
Pairs = List (Bytes × Bytes)

-- `strcpy` copies up to the terminator.
abbrev pub copied : Bytes × Bytes → Bytes × Bytes
copied (key, value) = (until_nul key, until_nul value)

-- One round of the loop of `parse_write` behind `parse_pair`, with `left` rounds to come, and the
-- checks behind the loop. `loop` is the rest of the loop.
pub store_pair :
    ℕ
    → Pairs
    → (Pairs → Bytes → Run (Pairs × Bytes))
    → Option (Bytes × Bytes) × Bytes
    → Run (Pairs × Bytes)
unfolding after_pair ends_list
store_pair left stored loop (none, rest) = ok ([], cleanup rest)
store_pair left stored loop (some p, rest) =
    let now = stored ++ (copied p ∷ []) in
    let (next, rest') = after_pair rest in
    elim next [
      | neither ↦ ok ([], cleanup rest')
      | another ↦ loop now rest'
      | finished ↦ ok (if left == 0 then ([], cleanup rest') else ends_list now rest')
    ]

-- The loop of `parse_write` with `max_pairs - num_pairs` rounds left; the pairs stored so far are
-- in `stored`.
pub write_pairs : ℕ → Pairs → Bytes → Run (Pairs × Bytes)
write_pairs zero stored input = ok ([], cleanup input)
write_pairs (suc left) stored input = do
  r ← parse_pair input
  store_pair left stored (write_pairs left) r

pub parse_write : ℕ → Bytes → Run (Pairs × Bytes)
unfolding expect
parse_write max_pairs input =
    let (opened, rest) = expect b'[' input in
    let (opened', rest') = expect b'(' rest in
    if not opened
    then ok ([], cleanup rest)
    else if not opened'
    then ok ([], cleanup rest')
    else write_pairs max_pairs [] rest'

-- The same for the keys of `parse_read_delete`.
pub store_key :
    ℕ
    → List Bytes
    → (List Bytes → Bytes → Run (List Bytes × Bytes))
    → Ended × Bytes × Bytes
    → Run (List Bytes × Bytes)
unfolding ends_list
store_key left stored loop (failed, key, rest) = ok ([], cleanup rest)
store_key left stored loop (closing, key, rest) = ok ([], cleanup rest)
store_key left stored loop (comma, key, rest) = loop (stored ++ (until_nul key ∷ [])) rest
store_key left stored loop (bracket, key, rest) =
    ok (if left == 0 then ([], cleanup rest) else ends_list (stored ++ (until_nul key ∷ [])) rest)

pub list_keys : ℕ → ℕ → List Bytes → Bytes → Run (List Bytes × Bytes)
list_keys max_size zero stored input = ok ([], cleanup input)
list_keys max_size (suc left) stored input = do
  r ← read_string max_size input
  store_key left stored (list_keys max_size left) r

pub parse_read_delete : ℕ → ℕ → Bytes → Run (List Bytes × Bytes)
unfolding expect
parse_read_delete max_keys max_size input =
    let (opened, rest) = expect b'[' input in
    if not opened then ok ([], cleanup rest) else list_keys max_size max_keys [] rest

-- The number returned, what is stored through the two pointers, and the input left.
pub record Wait : Type 0 where
  pub code : ℤ
  pub delay : Option ℕ
  pub thread_id : Option ℕ
  pub rest : Bytes

abbrev pub ends_number : ℕ → Bool
ends_number ch = ch == b'\n' || ch == 0

abbrev thread_read : ℕ → Option ℕ × ℕ × Bytes → Wait
thread_read delay (none, ch, rest) = record {
  code = negsuc 0;
  delay = some delay;
  thread_id = none;
  rest = cleanup rest;
}
thread_read delay (some thread, ch, rest) =
    if ends_number ch
    then record { code = pos 1; delay = some delay; thread_id = some thread; rest = rest }
    else record {
      code = negsuc 0;
      delay = some delay;
      thread_id = some thread;
      rest = cleanup rest;
    }

abbrev pub delay_read : Bool → Option ℕ × ℕ × Bytes → Run Wait
delay_read with_thread (none, ch, rest) =
    ok (record { code = negsuc 0; delay = none; thread_id = none; rest = cleanup rest })
delay_read with_thread (some delay, ch, rest) =
    if ch == b' '
    then (if with_thread
        then (do r ← read_uint rest; ok (thread_read delay r))
        else ok
            (record { code = pos 0; delay = some delay; thread_id = none; rest = cleanup rest }))
    else if ends_number ch
    then ok (record { code = pos 0; delay = some delay; thread_id = none; rest = rest })
    else ok (record { code = negsuc 0; delay = some delay; thread_id = none; rest = cleanup rest })

-- The flag tells whether `thread_id` is a pointer other than NULL.
unfoldable pub parse_wait : Bool → Bytes → Run Wait
parse_wait with_thread input = do r ← read_uint input; delay_read with_thread r
