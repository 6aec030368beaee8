-- ===== src/Io.antt =====
-- src/common/io.c: transfers of a given number of bytes over pipes, whose `read` and `write` move
-- what they can and may be interrupted.
pub mod Transfers
pub mod Lines
use so_proj.Base.{
  ℕ, zero, suc, ◌-◌, Bool, true, false, ◌||◌, List, [], ◌∷◌, ◌++◌, Option, none, some, ◌==◌,
  if◌then◌else◌, length, take, drop, min, Bytes, ℤ, pos, negsuc,
}

-- How the kernel answers one call of `read` or `write`: it moves at most `most + 1` bytes of those
-- asked for, as many as there are; or a signal interrupts it; or it fails (for `write`, also when
-- nobody reads the pipe any more).
pub data Answer : Type 0 where
  moves : (most : ℕ) → Answer
  interrupted : Answer
  failed : Answer

-- What a call of `read_all` leaves: the number returned, the bytes in `buffer`, `*intr` (`none` for
-- a pointer NULL), the answers not yet used, and the bytes still in the pipe.
pub record Reading : Type 0 where
  pub code : ℤ
  pub buffer : Bytes
  pub intr : Option Bool
  pub answers : List Answer
  pub rest : Bytes

-- The loop of `read_all` with `left` bytes to go. An empty pipe that has no writer any more gives no
-- byte, and `read` returns 0. The result is `none` if the call has not returned after these answers.
unfoldable pub read_loop : List Answer → ℕ → Bytes → Option Bool → Bytes → Option Reading
read_loop answers zero buffer intr input =
    some (record { code = pos 1; buffer = buffer; intr = intr; answers = answers; rest = input })
read_loop [] (suc left) buffer intr input = none
read_loop (failed ∷ answers) (suc left) buffer intr input =
    some (record { code = negsuc 0; buffer = buffer; intr = intr; answers = answers; rest = input })
read_loop (moves most ∷ answers) (suc left) buffer intr [] =
    some (record { code = pos 0; buffer = buffer; intr = intr; answers = answers; rest = [] })
read_loop (moves most ∷ answers) (suc left) buffer intr (c ∷ input) =
    let chunk = take (min left most) input in
    read_loop answers (left - length chunk) (buffer ++ (c ∷ chunk)) intr
      (drop (min left most) input)
read_loop (interrupted ∷ answers) (suc left) buffer none input =
    read_loop answers (suc left) buffer none input
read_loop (interrupted ∷ answers) (suc left) [] (some _) input =
    some
      (record { code = negsuc 0; buffer = []; intr = some true; answers = answers; rest = input })
read_loop (interrupted ∷ answers) (suc left) (b ∷ buffer) (some _) input =
    read_loop answers (suc left) (b ∷ buffer) (some true) input

-- `intr != NULL && *intr`
abbrev pub was_interrupted : Option Bool → Bool
was_interrupted none = false
was_interrupted (some intr) = intr

unfoldable pub read_all : List Answer → ℕ → Option Bool → Bytes → Option Reading
unfolding read_loop
read_all answers size intr input =
    if was_interrupted intr
    then some
        (record { code = negsuc 0; buffer = []; intr = intr; answers = answers; rest = input })
    else read_loop answers size [] intr input

-- The number that `write_all` returns, and the bytes that have gone into the pipe.
pub write_all : List Answer → Bytes → Bytes → Option (ℤ × Bytes)
write_all answers [] sent = some (pos 1, sent)
write_all [] (c ∷ bytes) sent = none
write_all (failed ∷ answers) (c ∷ bytes) sent = some (negsuc 0, sent)
write_all (interrupted ∷ answers) (c ∷ bytes) sent = write_all answers (c ∷ bytes) sent
write_all (moves most ∷ answers) (c ∷ bytes) sent =
    write_all answers (drop most bytes) (sent ++ (c ∷ take most bytes))

-- `write_str` gives up when it is interrupted, and returns nothing.
pub write_str : List Answer → Bytes → Bytes → Option Bytes
write_str answers [] sent = some sent
write_str [] (c ∷ str) sent = none
write_str (failed ∷ answers) (c ∷ str) sent = some sent
write_str (interrupted ∷ answers) (c ∷ str) sent = some sent
write_str (moves most ∷ answers) (c ∷ str) sent =
    write_str answers (drop most str) (sent ++ (c ∷ take most str))

-- MAX_STRING_SIZE
abbrev pub max_string_size : ℕ
max_string_size = 40

abbrev pub is_end : ℕ → Bool
is_end ch = ch == 0 || ch == b'\n'

-- The loop of `read_string` with room for `room` more bytes: the string, `none` for the result -1, and
-- the bytes still in the pipe.
pub read_string_loop : List Answer → ℕ → Bytes → Bytes → Option (Option Bytes × Bytes)
read_string_loop answers zero str input = some (some str, input)
read_string_loop [] (suc room) str input = none
read_string_loop (moves _ ∷ answers) (suc room) str [] = some (none, [])
read_string_loop (moves _ ∷ answers) (suc room) str (ch ∷ input) =
    let more = read_string_loop answers room (str ++ (ch ∷ [])) input in
    if is_end ch then some (some str, input) else more
read_string_loop (_ ∷ answers) (suc room) str input = some (none, input)

unfoldable pub read_string : List Answer → Bytes → Option (Option Bytes × Bytes)
unfolding read_string_loop
read_string answers input = read_string_loop answers (max_string_size - 1) [] input
