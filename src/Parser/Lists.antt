-- ===== src/Parser/Lists.antt =====
-- `parse_write` and `parse_read_delete` of src/server/parser.c read back printed lists.
use so_proj.Base.{
  ℕ, zero, suc, ◌<◌, ◌≡◌, ◌≢◌, refl, ap, ◌∙◌, false, List, [], ◌∷◌, ◌++◌, append_assoc, arith, ◌==◌,
  length, Bytes, some, ok, ◌>>=◌,
}
use so_proj.Scan.Words.{IsWord, read_string-append, until_nul-eq}
use so_proj.Scan.{comma, closing, bracket}
use so_proj.Parser.{
  store_pair, store_key, Pairs, max_string_size, parse_pair, write_pairs, parse_write, list_keys,
  parse_read_delete,
}

abbrev pub AreWords : Pairs → Type 0
AreWords [] = Unit
AreWords ((key, value) ∷ pairs) =
    IsWord max_string_size key × IsWord max_string_size value × AreWords pairs

-- The text of a list of pairs behind its first bracket, in front of `rest`.
pub pairs_text : Pairs → Bytes → Bytes
pairs_text [] rest = b']' ∷ rest
pairs_text ((key, value) ∷ []) rest = key ++ (b',' ∷ (value ++ (b')' ∷ b']' ∷ rest)))
pairs_text ((key, value) ∷ p ∷ pairs) rest =
    key ++ (b',' ∷ (value ++ (b')' ∷ b'(' ∷ pairs_text (p ∷ pairs) rest)))

abbrev pub write_text : Pairs → Bytes → Bytes
write_text pairs rest = b'[' ∷ b'(' ∷ pairs_text pairs rest

parse_pair-append :
    (key value rest : Bytes)
    → IsWord max_string_size key
    → IsWord max_string_size value
    → parse_pair (key ++ (b',' ∷ (value ++ (b')' ∷ rest)))) ≡ ok (some (key, value), rest)
unfolding parse_pair
parse_pair-append key value rest k v = rw (
  read_string-append key max_string_size comma (value ++ (b')' ∷ rest)) k.plain k.fits,
  ◌>>=◌,
  read_string-append value max_string_size closing rest v.plain v.fits,
)

write_pairs-pairs_text :
    (pairs : Pairs) (key value : Bytes) (left : ℕ) (stored : Pairs) (rest : Bytes)
    → AreWords ((key, value) ∷ pairs)
    → length ((key, value) ∷ pairs) < left
    → write_pairs left stored (pairs_text ((key, value) ∷ pairs) (b'\n' ∷ rest))
      ≡ ok (stored ++ ((key, value) ∷ pairs), rest)
unfolding write_pairs store_pair pairs_text
write_pairs-pairs_text pairs key value zero stored rest h lt = absurd (omega arith)
write_pairs-pairs_text [] key value (suc left) stored rest (k, v, _) lt =
    let open_slot : (left == 0) ≡ false = ground arith in
    rw (
      parse_pair-append key value (b']' ∷ b'\n' ∷ rest) k v,
      ◌>>=◌,
      until_nul-eq key k.no_nul,
      until_nul-eq value v.no_nul,
      open_slot,
    )
write_pairs-pairs_text ((key', value') ∷ pairs) key value (suc left) stored rest (k, v, more) lt =
    rw
      (
        parse_pair-append key value (b'(' ∷ pairs_text ((key', value') ∷ pairs) (b'\n' ∷ rest)) k v,
        ◌>>=◌,
        until_nul-eq key k.no_nul,
        until_nul-eq value v.no_nul,
      )
      (write_pairs-pairs_text pairs key' value' left (stored ++ ((key, value) ∷ [])) rest more
          (omega arith)
        ∙ ap (λ (ps : Pairs). ok (ps, rest)) (append_assoc stored ((key, value) ∷ []) _))

-- A printed list of pairs, not empty and shorter than the limit, whose keys and values are words,
-- is read back whole, and the input is left behind the end of its line.
pub parse_write-write_text :
    (pairs : Pairs) (max_pairs : ℕ) (rest : Bytes)
    → pairs ≢ []
    → length pairs < max_pairs
    → AreWords pairs
    → parse_write max_pairs (write_text pairs (b'\n' ∷ rest)) ≡ ok (pairs, rest)
unfolding parse_write
parse_write-write_text [] max_pairs rest ne lt words = absurd (ne refl)
parse_write-write_text ((key, value) ∷ pairs) max_pairs rest ne lt words =
    write_pairs-pairs_text pairs key value max_pairs [] rest words lt

abbrev pub KeysAreWords : List Bytes → Type 0
KeysAreWords [] = Unit
KeysAreWords (key ∷ keys) = IsWord max_string_size key × KeysAreWords keys

unfoldable pub keys_text : List Bytes → Bytes → Bytes
keys_text [] rest = b']' ∷ rest
keys_text (key ∷ []) rest = key ++ (b']' ∷ rest)
keys_text (key ∷ k ∷ keys) rest = key ++ (b',' ∷ keys_text (k ∷ keys) rest)

abbrev pub list_text : List Bytes → Bytes → Bytes
list_text keys rest = b'[' ∷ keys_text keys rest

list_keys-keys_text :
    (keys : List Bytes) (key : Bytes) (left : ℕ) (stored : List Bytes) (rest : Bytes)
    → KeysAreWords (key ∷ keys)
    → length (key ∷ keys) < left
    → list_keys max_string_size left stored (keys_text (key ∷ keys) (b'\n' ∷ rest))
      ≡ ok (stored ++ (key ∷ keys), rest)
unfolding list_keys store_key keys_text
list_keys-keys_text keys key zero stored rest h lt = absurd (omega arith)
list_keys-keys_text [] key (suc left) stored rest (k, _) lt =
    let open_slot : (left == 0) ≡ false = ground arith in
    rw (
      read_string-append key max_string_size bracket (b'\n' ∷ rest) k.plain k.fits,
      ◌>>=◌,
      until_nul-eq key k.no_nul,
      open_slot,
    )
list_keys-keys_text (key' ∷ keys) key (suc left) stored rest (k, more) lt =
    rw
      (
        read_string-append key max_string_size comma (keys_text (key' ∷ keys) (b'\n' ∷ rest))
            k.plain k.fits,
        ◌>>=◌,
        store_key,
        until_nul-eq key k.no_nul,
      )
      (list_keys-keys_text keys key' left (stored ++ (key ∷ [])) rest more (omega arith)
        ∙ ap (λ (ks : List Bytes). ok (ks, rest)) (append_assoc stored (key ∷ []) _))

-- `parse_read_delete` reads back each list of keys that is not empty, has fewer keys than the maximum
-- and consists of words that the scanner reads whole, and leaves the input behind its line.
pub parse_read_delete-list_text :
    (keys : List Bytes) (max_keys : ℕ) (rest : Bytes)
    → keys ≢ []
    → length keys < max_keys
    → KeysAreWords keys
    → parse_read_delete max_keys max_string_size (list_text keys (b'\n' ∷ rest)) ≡ ok (keys, rest)
unfolding parse_read_delete
parse_read_delete-list_text [] max_keys rest ne lt words = absurd (ne refl)
parse_read_delete-list_text (key ∷ keys) max_keys rest ne lt words =
    list_keys-keys_text keys key max_keys [] rest words lt
