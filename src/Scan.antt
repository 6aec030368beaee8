-- ===== src/Scan.antt =====
-- `read_string`, `read_uint` and `cleanup`, which src/server/parser.c and src/client/parser.c hold
-- in the same words. A file descriptor is the list of the bytes not yet read; `read` on it gives
-- as many bytes as are asked for while there are any, as it does on a file.
pub mod Words
pub mod Numbers
use so_proj.Base.{
  ℕ, zero, suc, ◌+◌, ◌-◌, ◌*◌, ◌^◌, Bool, ◌&&◌, List, [], ◌∷◌, Option, none, some, ◌==◌, ltb, leb,
  if◌then◌else◌, Bytes, Run, ok, fault, bad_index, uninitialised, ◌>>=◌,
}

-- The results -1, 0, 1 and 2 of `read_string`.
pub data Ended : Type 0 where
  failed comma closing bracket : Ended

-- The first argument is `max - i`, the room left in `buffer`, which has `max` bytes. The result is
-- what ended the string, the bytes stored before the terminator, and the input left. With no room
-- left the loop ends and the terminator is stored behind the end of the buffer.
unfoldable pub read_string : ℕ → Bytes → Run (Ended × Bytes × Bytes)
read_string zero input = fault bad_index
read_string (suc room) [] = ok (failed, [], [])
read_string (suc room) (ch ∷ input) =
    let more = read_string room input >>= λ (ended, text, rest). ok (ended, ch ∷ text, rest) in
    if ch == b' '
    then ok (failed, [], input)
    else if ch == b','
    then ok (comma, [], input)
    else if ch == b')'
    then ok (closing, [], input)
    else if ch == b']'
    then ok (bracket, [], input)
    else more

abbrev pub is_digit : ℕ → Bool
is_digit c = leb b'0' c && leb c b'9'

-- The loop of `read_uint` with `room` bytes left in `buf`: the digits, the byte behind them, and
-- the input left. At the end of the input nothing terminates `buf`, and `strtoul` reads on.
unfoldable pub read_digits : ℕ → Bytes → Run (Bytes × ℕ × Bytes)
read_digits room [] = fault uninitialised
read_digits zero (c ∷ input) = fault bad_index
read_digits (suc room) (c ∷ input) =
    let more = read_digits room input >>= λ (digits, next, rest). ok (c ∷ digits, next, rest) in
    if is_digit c then more else ok ([], c, input)

-- `strtoul` on digits alone, fewer than make an `unsigned long` overflow.
pub strtoul : ℕ → Bytes → ℕ
strtoul value [] = value
strtoul value (c ∷ cs) = strtoul (value * 10 + (c - b'0')) cs

abbrev pub uint_max : ℕ
uint_max = 2 ^ 32 - 1

-- The number if it is stored, with `*next` and the input left; `none` stands for the result 1.
unfoldable pub read_uint : Bytes → Run (Option ℕ × ℕ × Bytes)
read_uint input = do
  (digits, next, rest) ← read_digits 16 input
  let ul = strtoul 0 digits
  ok (if ltb uint_max ul then none else some ul, next, rest)

unfoldable pub cleanup : Bytes → Bytes
cleanup [] = []
cleanup (ch ∷ input) = if ch == b'\n' then input else cleanup input
