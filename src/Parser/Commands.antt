-- ===== src/Parser/Commands.antt =====
-- `get_next` of src/server/parser.c against the words of the commands.
use so_proj.Base.{
  ℕ, ◌≤◌, ◌≡◌, refl, [], ◌∷◌, ◌++◌, arith, length, length-drop, drop, Bytes, codes, equal,
}
use so_proj.Scan.{cleanup}
use so_proj.Parser.{
  Command, cmd_write, cmd_read, cmd_delete, cmd_show, cmd_wait, cmd_backup, cmd_help, cmd_empty,
  cmd_invalid, eoc, invalid, ends_line, after_w, get_next,
}

-- How a job file spells a command, up to its arguments.
abbrev pub command_word : Command → Bytes
command_word cmd_write = codes "WRITE "
command_word cmd_read = codes "READ "
command_word cmd_delete = codes "DELETE "
command_word cmd_show = codes "SHOW\n"
command_word cmd_wait = codes "WAIT "
command_word cmd_backup = codes "BACKUP\n"
command_word cmd_help = codes "HELP\n"
command_word cmd_empty = codes "\n"
command_word cmd_invalid = []
command_word eoc = []

abbrev pub HasWord : Command → Type 0
HasWord cmd_invalid = ⊥
HasWord eoc = ⊥
HasWord _ = Unit

-- `get_next` recognises every command by its word and leaves what stands behind the word.
pub get_next-command_word :
    (c : Command) (rest : Bytes) → HasWord c → get_next (command_word c ++ rest) ≡ (c, rest)
unfolding get_next after_w ends_line equal
get_next-command_word cmd_invalid rest h = absurd h
get_next-command_word eoc rest h = absurd h
get_next-command_word _ rest h = refl

pub length-cleanup-le : (input : Bytes) → length (cleanup input) ≤ length input
unfolding cleanup
length-cleanup-le [] = omega arith
length-cleanup-le (c ∷ cs) = ground (arith, length-cleanup-le cs)

length-invalid-le : (n : ℕ) (input : Bytes) → length (invalid (drop n input)).1 ≤ length input
length-invalid-le n input = omega (arith, length-cleanup-le (drop n input), length-drop n input)

length-drop-le : (n : ℕ) (input : Bytes) → length (drop n input) ≤ length input
length-drop-le n input = omega (arith, length-drop n input)

length-ends_line_whole-le :
    (c : Command) (input : Bytes) → length (ends_line c input).1 ≤ length input
unfolding ends_line
length-ends_line_whole-le c [] = omega arith
length-ends_line_whole-le c (ch ∷ input) = ground (arith, length-cleanup-le input)

length-ends_line-le :
    (c : Command) (n : ℕ) (input : Bytes) → length (ends_line c (drop n input)).1 ≤ length input
length-ends_line-le c n input =
    omega (arith, length-ends_line_whole-le c (drop n input), length-drop n input)

length-after_w-le : (input : Bytes) → length (after_w input).1 ≤ length input
unfolding after_w
length-after_w-le input = ground (
  arith,
  length-drop 4 input,
  length-drop 1 (drop 4 input),
  length-cleanup-le (drop 1 (drop 4 input)),
)

-- `get_next` takes at least one byte of an input that is not empty.
pub length-get_next-le : (c : ℕ) (input : Bytes) → length (get_next (c ∷ input)).1 ≤ length input
unfolding get_next
length-get_next-le c input = ground (
  arith,
  length-after_w-le input,
  length-drop-le 4 input,
  length-drop-le 6 input,
  length-invalid-le 4 input,
  length-invalid-le 6 input,
  length-invalid-le 3 input,
  length-invalid-le 5 input,
  length-ends_line-le cmd_show 3 input,
  length-ends_line-le cmd_backup 5 input,
  length-ends_line-le cmd_help 3 input,
  length-cleanup-le input,
)
