-- ===== src/Parser/Lines.antt =====
-- How much of the input the parsers of src/server/parser.c skip after an error.
use so_proj.Base.{
  ℕ, suc, ◌^◌, ◌<◌, ◌≡◌, refl, Bool, false, [], ◌∷◌, ◌++◌, arith, ◌==◌, ltb, if◌then◌else◌, length,
  Bytes, none, some, ok, ◌>>=◌, pos, negsuc,
}
use so_proj.Operations.Files.{write_uint}
use so_proj.Scan.Numbers.{read_uint-write_uint}
use so_proj.Scan.Words.{HasNoDelimiter, read_string-append}
use so_proj.Scan.{failed, uint_max, cleanup}
use so_proj.Parser.{
  max_string_size, parse_pair, store_pair, store_key, write_pairs, parse_write, list_keys,
  parse_read_delete, parse_wait,
}

abbrev pub HasNoNewline : Bytes → Type 0
HasNoNewline [] = Unit
HasNoNewline (c ∷ cs) = ((c == b'\n') ≡ false) × HasNoNewline cs

-- `cleanup` skips the rest of a line with its newline.
cleanup-append : (line rest : Bytes) → HasNoNewline line → cleanup (line ++ (b'\n' ∷ rest)) ≡ rest
unfolding cleanup
cleanup-append [] rest h = refl
cleanup-append (c ∷ cs) rest (h, t) = rw (h, cleanup-append cs rest t)

-- A space in the first string of the list ends the command. READ and DELETE skip the rest of that
-- line; WRITE skips the line that follows as well.
pub bad_list_skips :
    (word junk line rest : Bytes) (max : ℕ)
    → HasNoDelimiter word
    → length word < max_string_size
    → HasNoNewline junk
    → HasNoNewline line
    → let tail = word ++ (b' ' ∷ (junk ++ (b'\n' ∷ (line ++ (b'\n' ∷ rest))))) in
      (parse_read_delete (suc max) max_string_size (b'[' ∷ tail) ≡ ok ([], line ++ (b'\n' ∷ rest)))
      × (parse_write (suc max) (b'[' ∷ b'(' ∷ tail) ≡ ok ([], rest))
unfolding parse_read_delete parse_write write_pairs list_keys store_pair store_key parse_pair
bad_list_skips word junk line rest max plain fits j l =
    let after = line ++ (b'\n' ∷ rest) in
    let read =
      read_string-append word max_string_size failed (junk ++ (b'\n' ∷ after)) plain fits in
    (
      rw (read, ◌>>=◌, store_key, cleanup-append junk after j),
      rw (read, ◌>>=◌, cleanup-append junk after j, ◌>>=◌, store_pair, cleanup-append line rest l),
    )

-- `parse_wait` reads a number of at most fifteen digits that ends its line. A number within an
-- `unsigned int` is the delay and the input is left behind the line; a larger one is an error,
-- and the line that follows is skipped too.
pub parse_wait-write_uint :
    (n : ℕ) (with_thread : Bool) (rest : Bytes)
    → n < 10 ^ 15
    → parse_wait with_thread (write_uint n ++ (b'\n' ∷ rest))
      ≡ ok (
          if ltb uint_max n
          then record { code = negsuc 0; delay = none; thread_id = none; rest = cleanup rest }
          else record { code = pos 0; delay = some n; thread_id = none; rest = rest })
unfolding parse_wait
parse_wait-write_uint n with_thread rest h =
    rw (read_uint-write_uint n b'\n' rest h refl) (ground arith)
