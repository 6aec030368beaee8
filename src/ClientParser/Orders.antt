-- ===== src/ClientParser/Orders.antt =====
-- What src/client/parser.c reads from printed orders.
use so_proj.Base.{
  ℕ, zero, suc, ◌≤◌, ◌≡◌, ◌≢◌, refl, ap, ◌∙◌, List, [], ◌∷◌, ◌++◌, append_assoc, arith, length,
  drop, length-drop, Bytes, codes, equal, ok, ◌>>=◌,
}
use so_proj.Scan.{comma, bracket}
use so_proj.Scan.Words.{read_string-append, until_nul-eq}
use so_proj.Parser.{max_string_size, ends_list, expect}
use so_proj.Parser.Commands.{length-cleanup-le}
use so_proj.Parser.Lists.{KeysAreWords, keys_text, list_text}
use so_proj.ClientParser.{
  Order, cmd_disconnect, cmd_subscribe, cmd_unsubscribe, cmd_delay, cmd_empty, cmd_invalid, eoc,
  invalid, ends_disconnect, after_d, get_next, keep_key, list_loop, parse_list,
}

-- How an order is spelled, up to its arguments.
abbrev pub order_word : Order → Bytes
order_word cmd_disconnect = codes "DISCONNECT\n"
order_word cmd_subscribe = codes "SUBSCRIBE "
order_word cmd_unsubscribe = codes "UNSUBSCRIBE "
order_word cmd_delay = codes "DELAY "
order_word cmd_empty = codes "\n"
order_word cmd_invalid = []
order_word eoc = []

abbrev pub HasWord : Order → Type 0
HasWord cmd_invalid = ⊥
HasWord eoc = ⊥
HasWord _ = Unit

pub get_next-order_word :
    (o : Order) (rest : Bytes) → HasWord o → get_next (order_word o ++ rest) ≡ (o, rest)
unfolding get_next after_d ends_disconnect equal
get_next-order_word cmd_invalid rest h = absurd h
get_next-order_word eoc rest h = absurd h
get_next-order_word _ rest h = refl

list_loop-keys_text :
    (keys : List Bytes) (key : Bytes) (left : ℕ) (stored : List Bytes) (rest : Bytes)
    → KeysAreWords (key ∷ keys)
    → length (key ∷ keys) ≤ left
    → list_loop max_string_size left stored (keys_text (key ∷ keys) (b'\n' ∷ rest))
      ≡ ok (stored ++ (key ∷ keys), rest)
unfolding list_loop keep_key keys_text ends_list
list_loop-keys_text keys key zero stored rest h lt = absurd (omega arith)
list_loop-keys_text [] key (suc left) stored rest (k, _) lt = rw (
  read_string-append key max_string_size bracket (b'\n' ∷ rest) k.plain k.fits,
  ◌>>=◌,
  until_nul-eq key k.no_nul,
)
list_loop-keys_text (key' ∷ keys) key (suc left) stored rest (k, more) lt =
    rw
      (
        read_string-append key max_string_size comma (keys_text (key' ∷ keys) (b'\n' ∷ rest))
            k.plain k.fits,
        ◌>>=◌,
        keep_key,
        until_nul-eq key k.no_nul,
      )
      (list_loop-keys_text keys key' left (stored ++ (key ∷ [])) rest more (omega arith)
        ∙ ap (λ (ks : List Bytes). ok (ks, rest)) (append_assoc stored (key ∷ []) _))

pub parse_list-list_text :
    (keys : List Bytes) (max_keys : ℕ) (rest : Bytes)
    → keys ≢ []
    → length keys ≤ max_keys
    → KeysAreWords keys
    → parse_list max_keys max_string_size (list_text keys (b'\n' ∷ rest)) ≡ ok (keys, rest)
unfolding parse_list expect
parse_list-list_text [] max_keys rest ne le words = absurd (ne refl)
parse_list-list_text (key ∷ keys) zero rest ne le words = absurd (omega arith)
parse_list-list_text (key ∷ keys) (suc left) rest ne le words =
    list_loop-keys_text keys key (suc left) [] rest words le

-- Each order is known by its word, and what stands behind the word is left. A printed list of
-- keys, not empty and no longer than the limit, whose keys are words, is read back whole, and the
-- input is left behind the end of its line.
pub get_next-parse_list :
    (o : Order) (keys : List Bytes) (max_keys : ℕ) (rest : Bytes)
    → HasWord o
    → keys ≢ []
    → length keys ≤ max_keys
    → KeysAreWords keys
    → (get_next (order_word o ++ rest) ≡ (o, rest))
      × (parse_list max_keys max_string_size (list_text keys (b'\n' ∷ rest)) ≡ ok (keys, rest))
get_next-parse_list o keys max_keys rest word ne le words =
    (get_next-order_word o rest word, parse_list-list_text keys max_keys rest ne le words)

length-drop-le : (n : ℕ) (input : Bytes) → length (drop n input) ≤ length input
length-drop-le n input = omega (arith, length-drop n input)

length-invalid-le : (n : ℕ) (input : Bytes) → length (invalid (drop n input)).1 ≤ length input
length-invalid-le n input = omega (arith, length-cleanup-le (drop n input), length-drop n input)

length-ends_disconnect-le : (input : Bytes) → length (ends_disconnect input).1 ≤ length input
unfolding ends_disconnect
length-ends_disconnect-le [] = omega arith
length-ends_disconnect-le (ch ∷ input) = ground (arith, length-cleanup-le input)

length-after_d-le : (input : Bytes) → length (after_d input).1 ≤ length input
unfolding after_d
length-after_d-le input = ground (
  arith,
  length-drop-le 5 input,
  length-drop-le 4 (drop 5 input),
  length-invalid-le 4 (drop 5 input),
  length-ends_disconnect-le (drop 4 (drop 5 input)),
)

-- `get_next` takes at least one byte of an input that is not empty.
pub length-get_next-le : (c : ℕ) (input : Bytes) → length (get_next (c ∷ input)).1 ≤ length input
unfolding get_next
length-get_next-le c input = ground (
  arith,
  length-after_d-le input,
  length-drop-le 9 input,
  length-drop-le 11 input,
  length-invalid-le 9 input,
  length-invalid-le 11 input,
  length-cleanup-le input,
)
