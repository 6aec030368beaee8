-- ===== src/Parser/Bounds.antt =====
-- Whatever `parse_write` and `parse_read_delete` of src/server/parser.c store fits its arrays.
use so_proj.Base.{
  ℕ, zero, suc, ◌+◌, ◌≤◌, ◌<◌, ◌≡◌, refl, ◌⊎◌, inl, inr, Bool, true, false, List, [], ◌∷◌, ◌++◌,
  arith, Bool-cases, length, Bytes, Option, none, some, until_nul, Run, Ensures, Ensures-bind, All,
  All-snoc,
}
use so_proj.Scan.{Ended, failed, comma, closing, bracket, read_string}
use so_proj.Parser.{
  store_pair, store_key, Pairs, parse_pair, after_pair, Next, another, finished, neither, copied,
  write_pairs, parse_write, list_keys, parse_read_delete, expect,
}
use so_proj.Parser.Reads.{
  Short, PairFits, PairRead, Listed, Listed-nil, Listed-le, closing-Listed, Loop, Ensures-le,
  length-concat, skipped, read_string-Short, length-until_nul-le, parse_pair-PairRead,
  length-after_pair-le, length-expect-le, copied-PairFits,
}

store_pair-Listed :
    (left max : ℕ) (stored : Pairs) (loop : Pairs → Bytes → Run (Pairs × Bytes)) (input : Bytes)
    (r : Option (Bytes × Bytes) × Bytes)
    → length stored + suc left ≡ max
    → All PairFits stored
    → Loop PairFits left max loop
    → PairRead input r
    → Ensures (Listed PairFits max input) (store_pair left stored loop r)
unfolding store_pair Loop
store_pair-Listed left max stored loop input (none, rest) e fit next le =
    Listed-nil PairFits max input rest le
store_pair-Listed left max stored loop input (some p, rest) e fit next (fits, le) =
    by (after_pair rest).0 refl
  where
    now : Pairs
    now = stored ++ (copied p ∷ [])

    rest' : Bytes
    rest' = (after_pair rest).1

    shorter : length rest' ≤ length input
    shorter = omega (arith, length-after_pair-le rest)

    full : length now + left ≡ max
    full = omega (arith, length-concat stored (copied p))

    all_fit : All PairFits now
    all_fit = All-snoc PairFits stored _ fit (copied-PairFits p fits)

    by :
        (n : Next)
        → (after_pair rest).0 ≡ n
        → Ensures (Listed PairFits max input) (store_pair left stored loop (some p, rest))
    by neither e' = rw (store_pair, e') (Listed-nil PairFits max input rest' shorter)
    by another e' =
        rw (store_pair, e')
          (Ensures-le PairFits max input rest' _ shorter (next now rest' full all_fit))
    by finished e' =
        rw (store_pair, e')
          (Listed-le PairFits max input rest' _ shorter
            (closing-Listed PairFits max left now rest' full all_fit))

write_pairs-Listed :
    (left max : ℕ) (stored : Pairs) (input : Bytes)
    → length stored + left ≡ max
    → All PairFits stored
    → Ensures (Listed PairFits max input) (write_pairs left stored input)
unfolding write_pairs Loop
write_pairs-Listed zero max stored input e fit = Listed-nil PairFits max input input (omega arith)
write_pairs-Listed (suc left) max stored input e fit =
    Ensures-bind (PairRead input) (Listed PairFits max input) (parse_pair input) _
      (parse_pair-PairRead input)
      (λ r p.
        store_pair-Listed left max stored (write_pairs left) input r e fit
          (λ items rest e' fit'. write_pairs-Listed left max items rest e' fit') p)

-- On any input `parse_write` either faults or returns fewer pairs than the limit (none, on an
-- error), every key and value of which fits an array of 40 bytes with its terminator, and it
-- never leaves more input than there was.
pub parse_write-Listed :
    (max_pairs : ℕ) (input : Bytes)
    → Ensures (Listed PairFits max_pairs input) (parse_write max_pairs input)
unfolding parse_write
parse_write-Listed max_pairs input = opening (Bool-cases first.0) (Bool-cases second.0)
  where
    first : Bool × Bytes
    first = expect b'[' input

    second : Bool × Bytes
    second = expect b'(' first.1

    opening :
        (first.0 ≡ true) ⊎ (first.0 ≡ false)
        → (second.0 ≡ true) ⊎ (second.0 ≡ false)
        → Ensures (Listed PairFits max_pairs input) (parse_write max_pairs input)
    opening (inr e) _ = rw (parse_write, e) (skipped PairFits max_pairs b'[' input)
    opening (inl e) (inr e') =
        rw (parse_write, e, e')
          (Listed-le PairFits max_pairs input first.1 _ (length-expect-le b'[' input)
            (skipped PairFits max_pairs b'(' first.1))
    opening (inl e) (inl e') =
        rw (parse_write, e, e')
          (Ensures-le PairFits max_pairs input second.1 _
            (omega (arith, length-expect-le b'[' input, length-expect-le b'(' first.1))
            (write_pairs-Listed max_pairs max_pairs [] second.1 (omega arith) tt))

abbrev pub KeyFits : ℕ → Bytes → Type 0
KeyFits max_size key = length key < max_size

store_key-Listed :
    (max_size left max : ℕ) (stored : List Bytes)
    (loop : List Bytes → Bytes → Run (List Bytes × Bytes)) (input : Bytes)
    (r : Ended × Bytes × Bytes)
    → length stored + suc left ≡ max
    → All (KeyFits max_size) stored
    → Loop (KeyFits max_size) left max loop
    → Short max_size input r
    → Ensures (Listed (KeyFits max_size) max input) (store_key left stored loop r)
unfolding store_key Loop
store_key-Listed max_size left max stored loop input (ended, key, rest) e fit next (k, le) =
    by ended
  where
    now : List Bytes
    now = stored ++ (until_nul key ∷ [])

    full : length now + left ≡ max
    full = omega (arith, length-concat stored (until_nul key))

    all_fit : All (KeyFits max_size) now
    all_fit = All-snoc (KeyFits max_size) stored _ fit (omega (arith, length-until_nul-le key))

    by :
        (ended : Ended)
        → Ensures
            (Listed (KeyFits max_size) max input)
            (store_key left stored loop (ended, key, rest))
    by failed = Listed-nil (KeyFits max_size) max input rest le
    by closing = Listed-nil (KeyFits max_size) max input rest le
    by comma =
        Ensures-le (KeyFits max_size) max input rest (loop now rest) le (next now rest full all_fit)
    by bracket =
        Listed-le (KeyFits max_size) max input rest _ le
          (closing-Listed (KeyFits max_size) max left now rest full all_fit)

list_keys-Listed :
    (max_size left max : ℕ) (stored : List Bytes) (input : Bytes)
    → length stored + left ≡ max
    → All (KeyFits max_size) stored
    → Ensures (Listed (KeyFits max_size) max input) (list_keys max_size left stored input)
unfolding list_keys Loop
list_keys-Listed max_size zero max stored input e fit =
    Listed-nil (KeyFits max_size) max input input (omega arith)
list_keys-Listed max_size (suc left) max stored input e fit =
    Ensures-bind (Short max_size input) (Listed (KeyFits max_size) max input)
      (read_string max_size input) _ (read_string-Short max_size input)
      (λ r p.
        store_key-Listed max_size left max stored (list_keys max_size left) input r e fit
          (λ items rest e' fit'. list_keys-Listed max_size left max items rest e' fit') p)

-- On any input `parse_read_delete` either faults or returns fewer keys than the limit (none, on an
-- error), every one of which fits the key buffer of the size given with its terminator, and it
-- never leaves more input than there was.
pub parse_read_delete-Listed :
    (max_keys max_size : ℕ) (input : Bytes)
    → Ensures (Listed (KeyFits max_size) max_keys input) (parse_read_delete max_keys max_size input)
unfolding parse_read_delete
parse_read_delete-Listed max_keys max_size input = elim (Bool-cases (expect b'[' input).0) [
  | inr e ↦ rw (parse_read_delete, e) (skipped (KeyFits max_size) max_keys b'[' input)
  | inl e ↦
      rw (parse_read_delete, e)
        (Ensures-le (KeyFits max_size) max_keys input (expect b'[' input).1 _
          (length-expect-le b'[' input)
          (list_keys-Listed max_size max_keys max_keys [] (expect b'[' input).1 (omega arith) tt))
]
