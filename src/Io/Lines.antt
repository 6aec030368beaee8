-- ===== src/Io/Lines.antt =====
-- Which strings `read_string` of src/common/io.c reads.
use so_proj.Base.{
  ℕ, ◌-◌, zero, suc, ◌≤◌, ◌<◌, ◌≡◌, refl, ◌∙◌, true, false, List, [], ◌∷◌, ◌++◌, some, arith, ltb,
  if◌then◌else◌, length, Bytes, append_assoc, append-nil,
}
use so_proj.Io.{
  Answer, moves, interrupted, failed, max_string_size, is_end, read_string_loop, read_string,
}

abbrev pub HasNoEnd : Bytes → Type 0
HasNoEnd [] = Unit
HasNoEnd (ch ∷ text) = (is_end ch ≡ false) × HasNoEnd text

abbrev pub AllMove : List Answer → Type 0
AllMove [] = Unit
AllMove (moves _ ∷ answers) = AllMove answers
AllMove (_ ∷ answers) = ⊥

-- The end of the string is taken with it if there was room for one more byte.
abbrev pub left_behind : ℕ → Bytes → ℕ → Bytes → Bytes
left_behind room text end rest = if ltb (length text) room then rest else end ∷ rest

read_string_loop-text :
    (text : Bytes) (answers : List Answer) (room : ℕ) (str : Bytes) (end : ℕ) (rest : Bytes)
    → HasNoEnd text
    → is_end end ≡ true
    → AllMove answers
    → length text < length answers
    → length text ≤ room
    → read_string_loop answers room str (text ++ (end ∷ rest))
      ≡ some (some (str ++ text), left_behind room text end rest)
unfolding read_string_loop
read_string_loop-text [] answers zero str end rest plain ends fine enough le =
    rw (append-nil str) refl
read_string_loop-text [] [] (suc room) str end rest plain ends fine enough le = absurd (omega arith)
read_string_loop-text [] (moves _ ∷ answers) (suc room) str end rest plain ends fine enough le =
    let room_left : ltb 0 (suc room) ≡ true = ground arith in
    rw (ends, append-nil str, room_left) refl
read_string_loop-text [] (interrupted ∷ answers) (suc room) str end rest plain ends fine enough le =
    absurd fine
read_string_loop-text [] (failed ∷ answers) (suc room) str end rest plain ends fine enough le =
    absurd fine
read_string_loop-text (ch ∷ text) answers zero str end rest plain ends fine enough le =
    absurd (omega arith)
read_string_loop-text (ch ∷ text) [] (suc room) str end rest plain ends fine enough le =
    absurd (omega arith)
read_string_loop-text (ch ∷ text) (interrupted ∷ answers) (suc room) str end rest plain ends fine
      enough le =
    absurd fine
read_string_loop-text (ch ∷ text) (failed ∷ answers) (suc room) str end rest plain ends fine enough
      le =
    absurd fine
read_string_loop-text (ch ∷ text) (moves _ ∷ answers) (suc room) str end rest (this, plain) ends
      fine enough le =
    let more =
      read_string_loop-text text answers room (str ++ (ch ∷ [])) end rest plain ends fine
        (omega arith) (omega arith) in
    let same : ltb (suc (length text)) (suc room) ≡ ltb (length text) room = ground arith in
    rw (this, same) (more ∙ rw (append_assoc str (ch ∷ []) text) refl)

-- A string of at most 39 bytes, with no line feed or zero among them, is read whole, if no read is
-- interrupted or fails and there are more of them than bytes. What ends it is taken too, but for a
-- string of just 39 bytes: there it stays in the pipe, and the next call reads an empty string.
pub read_string-text :
    (text : Bytes) (answers : List Answer) (end : ℕ) (rest : Bytes)
    → HasNoEnd text
    → is_end end ≡ true
    → AllMove answers
    → length text < length answers
    → length text < max_string_size
    → read_string answers (text ++ (end ∷ rest))
      ≡ some (some text, left_behind (max_string_size - 1) text end rest)
unfolding read_string
read_string-text text answers end rest plain ends fine enough le =
    read_string_loop-text text answers (max_string_size - 1) [] end rest plain ends fine enough
      (omega arith)
