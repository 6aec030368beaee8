-- ===== src/ClientParser.antt =====
-- src/client/parser.c: the commands that a client reads.
pub mod Orders
use so_proj.Base.{
  ℕ, zero, suc, not, List, [], ◌∷◌, ◌++◌, Option, none, some, ◌==◌, if◌then◌else◌, take, drop,
  Bytes, codes, until_nul, Run, ok, ◌>>=◌, ℤ, pos, negsuc,
}
use so_proj.Scan
use so_proj.Scan.{Ended, failed, comma, closing, bracket}
use so_proj.Parser.{completes, ends_list, expect}

-- The three static functions have the same words as those of src/server/parser.c.
abbrev pub read_string : ℕ → Bytes → Run (Ended × Bytes × Bytes)
read_string = Scan.read_string

abbrev pub read_uint : Bytes → Run (Option ℕ × ℕ × Bytes)
read_uint = Scan.read_uint

abbrev pub cleanup : Bytes → Bytes
cleanup = Scan.cleanup

-- `enum Command` of src/client/parser.h
pub data Order : Type 0 where
  cmd_disconnect cmd_subscribe cmd_unsubscribe cmd_delay cmd_empty cmd_invalid eoc : Order

-- `cleanup(fd); return CMD_INVALID;`
abbrev pub invalid : Bytes → Order × Bytes
invalid input = (cmd_invalid, cleanup input)

-- What `get_next` does behind DISCONNECT: only the end of the line or of the input may follow.
pub ends_disconnect : Bytes → Order × Bytes
ends_disconnect [] = (cmd_disconnect, [])
ends_disconnect (ch ∷ input) = if ch == b'\n' then (cmd_disconnect, input) else invalid input

pub after_d : Bytes → Order × Bytes
unfolding ends_disconnect
after_d input =
    if completes (codes "D") 5 (codes "DELAY ") input
    then (cmd_delay, drop 5 input)
    else if completes (codes "D" ++ take 5 input) 4 (codes "DISCONNECT") (drop 5 input)
    then ends_disconnect (drop 4 (drop 5 input))
    else invalid (drop 4 (drop 5 input))

unfoldable pub get_next : Bytes → Order × Bytes
unfolding after_d
get_next [] = (eoc, [])
get_next (ch ∷ input) =
    if ch == b'S'
    then (if completes (codes "S") 9 (codes "SUBSCRIBE ") input
        then (cmd_subscribe, drop 9 input)
        else invalid (drop 9 input))
    else if ch == b'U'
    then (if completes (codes "U") 11 (codes "UNSUBSCRIBE ") input
        then (cmd_unsubscribe, drop 11 input)
        else invalid (drop 11 input))
    else if ch == b'D'
    then after_d input
    else if ch == b'#'
    then (cmd_empty, cleanup input)
    else if ch == b'\n'
    then (cmd_empty, input)
    else invalid input

-- One round of the loop of `parse_list` behind `read_string`, and the checks behind the loop.
-- `loop` is the rest of the loop.
pub keep_key :
    List Bytes
    → (List Bytes → Bytes → Run (List Bytes × Bytes))
    → Ended × Bytes × Bytes
    → Run (List Bytes × Bytes)
keep_key stored loop (failed, key, rest) = ok ([], cleanup rest)
keep_key stored loop (closing, key, rest) = ok ([], cleanup rest)
keep_key stored loop (comma, key, rest) = loop (stored ++ (until_nul key ∷ [])) rest
keep_key stored loop (bracket, key, rest) = ok (ends_list (stored ++ (until_nul key ∷ [])) rest)

-- The loop with `max_keys - num_keys` rounds left, after a key that a comma ended.
pub list_loop : ℕ → ℕ → List Bytes → Bytes → Run (List Bytes × Bytes)
unfolding keep_key
list_loop max_size zero stored input = ok ([], cleanup input)
list_loop max_size (suc left) stored input = do
  r ← read_string max_size input
  keep_key stored (list_loop max_size left) r

-- With room for no key the loop is not entered, and `output` still has its first value 2.
abbrev pub list_keys : ℕ → ℕ → Bytes → Run (List Bytes × Bytes)
list_keys max_size zero input = ok (ends_list [] input)
list_keys max_size (suc left) input = list_loop max_size (suc left) [] input

pub parse_list : ℕ → ℕ → Bytes → Run (List Bytes × Bytes)
unfolding list_loop
parse_list max_keys max_size input =
    let (opened, rest) = expect b'[' input in
    if not opened then ok ([], cleanup rest) else list_keys max_size max_keys rest

-- What is stored through `delay`, if the number 0 is returned, and the input left.
abbrev pub delay_read : Option ℕ × ℕ × Bytes → Option ℕ × Bytes
delay_read (none, ch, rest) = (none, cleanup rest)
delay_read (some delay, ch, rest) = (some delay, rest)

pub parse_delay : Bytes → Run (Option ℕ × Bytes)
parse_delay input = do r ← read_uint input; ok (delay_read r)
