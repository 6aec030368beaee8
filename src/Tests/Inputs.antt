-- ===== src/Tests/Inputs.antt =====
-- The parsers of src/server/parser.c on small inputs.
use so_proj.Base.{
  ◌≡◌, refl, false, List, [], ◌∷◌, ◌++◌, none, some, arith, ltb, if◌then◌else◌, Bytes, codes, ok,
  fault, bad_index, pos, negsuc, Ensures,
}
use so_proj.Operations.Files.{write_uint}
use so_proj.Parser.Bounds.{parse_write-Listed}
use so_proj.Parser.Reads.{Listed, PairFits}
use so_proj.Parser.Lines.{bad_list_skips, parse_wait-write_uint}
use so_proj.Parser.Lists.{
  write_text, parse_write-write_text, list_text, parse_read_delete-list_text,
}
use so_proj.Parser.{max_string_size, max_write_size, parse_write, parse_read_delete, parse_wait}
use so_proj.Entries.{entry_files}
use so_proj.Entries.Jobs.{entry_files-IsJob}
use so_proj.Scan.Words.{IsWord, Scanned, read_string-Scanned}
use so_proj.Scan.{read_string, uint_max, cleanup}

read_string-Scanned_example : Scanned 4 (codes "abcdef") (read_string 4 (codes "abcdef"))
read_string-Scanned_example = read_string-Scanned 4 (codes "abcdef")

overflows : read_string 4 (codes "abcdef") ≡ fault bad_index
unfolding read_string
overflows = refl

pub a-IsWord : IsWord max_string_size (codes "a")
a-IsWord = record { plain = (refl, tt); no_nul = (refl, tt); fits = omega arith }

anna-IsWord : IsWord max_string_size (codes "anna")
anna-IsWord = record {
  plain = (refl, (refl, (refl, (refl, tt))));
  no_nul = (refl, (refl, (refl, (refl, tt))));
  fits = omega arith;
}

abbrev two_pairs : List (Bytes × Bytes)
two_pairs = (codes "a", codes "anna") ∷ (codes "anna", codes "a") ∷ []

parse_write-write_text_example :
    parse_write max_write_size (write_text two_pairs (b'\n' ∷ codes "SHOW\n"))
    ≡ ok (two_pairs, codes "SHOW\n")
parse_write-write_text_example =
    parse_write-write_text two_pairs max_write_size (codes "SHOW\n") (λ e. cc) (omega arith)
      (a-IsWord, anna-IsWord, (anna-IsWord, a-IsWord, tt))

parse_read_delete-list_text_example :
    parse_read_delete max_write_size max_string_size
      (list_text (codes "a" ∷ codes "anna" ∷ []) (b'\n' ∷ codes "SHOW\n"))
    ≡ ok (codes "a" ∷ codes "anna" ∷ [], codes "SHOW\n")
parse_read_delete-list_text_example =
    parse_read_delete-list_text (codes "a" ∷ codes "anna" ∷ []) max_write_size (codes "SHOW\n")
      (λ e. cc) (omega arith) (a-IsWord, (anna-IsWord, tt))

parse_write-Listed_example :
    Ensures (Listed PairFits 256 (codes "[(a,b)]\n")) (parse_write 256 (codes "[(a,b)]\n"))
parse_write-Listed_example = parse_write-Listed 256 (codes "[(a,b)]\n")

abbrev bad_line : Bytes
bad_line = codes "a b)]\nSHOW\nREAD [a]\n"

bad_list_skips_example :
    (parse_read_delete 256 max_string_size (b'[' ∷ bad_line) ≡ ok ([], codes "SHOW\nREAD [a]\n"))
    × (parse_write 256 (b'[' ∷ b'(' ∷ bad_line) ≡ ok ([], codes "READ [a]\n"))
bad_list_skips_example =
    bad_list_skips (codes "a") (codes "b)]") (codes "SHOW") (codes "READ [a]\n") 255 (refl, tt)
      (omega arith) (refl, (refl, (refl, tt))) (refl, (refl, (refl, (refl, tt))))

parse_wait-write_uint_example :
    parse_wait false (write_uint 4294967296 ++ (b'\n' ∷ codes "SHOW\n"))
    ≡ ok (
        if ltb uint_max 4294967296
        then record {
          code = negsuc 0;
          delay = none;
          thread_id = none;
          rest = cleanup (codes "SHOW\n");
        }
        else record {
          code = pos 0;
          delay = some 4294967296;
          thread_id = none;
          rest = codes "SHOW\n";
        })
parse_wait-write_uint_example =
    parse_wait-write_uint 4294967296 false (codes "SHOW\n") (omega arith)

entry_files-IsJob_example :
    entry_files (codes "jobs") (codes "a.b.job") ≡ some (codes "jobs/a.b.job", codes "jobs/a.b.out")
entry_files-IsJob_example =
    (entry_files-IsJob (codes "jobs") (codes "a.b.job") (codes "jobs/a.b.job")
        (codes "jobs/a.b.out")).1
      (codes "a.b", (λ e. cc), refl, refl, refl, omega arith)
