-- ===== src/Parser/Reads.antt =====
-- What a call of the readers of src/server/parser.c returns, and how much input it leaves.
use so_proj.Base.{
  ℕ, suc, ◌+◌, ◌≤◌, ◌<◌, ◌≡◌, refl, ap, ◌⊎◌, inl, inr, ◌||◌, List, [], ◌∷◌, ◌++◌, arith, ◌==◌,
  if◌then◌else◌, Bool-cases, length, length-append, Bytes, Option, none, some, until_nul, Run, ok,
  fault, Ensures, Ensures-bind, All,
}
use so_proj.Scan.Words.{delimiter, Scanned, read_string-Scanned}
use so_proj.Scan.{Ended, comma, closing, read_string, cleanup}
use so_proj.Parser.Commands.{length-cleanup-le}
use so_proj.Parser.{
  max_string_size, parse_pair, ends_list, after_pair, copied, expect, value_read, key_read,
}

abbrev pub Short : ℕ → Bytes → Ended × Bytes × Bytes → Type 0
Short room input (ended, text, rest) = (length text < room) × (length rest ≤ length input)

pub read_string-Short :
    (room : ℕ) (input : Bytes) → Ensures (Short room input) (read_string room input)
read_string-Short room input = from (read_string room input) (read_string-Scanned room input)
  where
    from : (r : Run (Ended × Bytes × Bytes)) → Scanned room input r → Ensures (Short room input) r
    from (fault f) s = tt
    from (ok (ended, text, rest)) (lt, _, inl split) =
        (lt, omega (arith, ap length split, length-append text (delimiter ended ∷ rest)))
    from (ok (ended, text, rest)) (lt, _, inr (_, _, none_left)) = (lt, rw none_left (omega arith))

pub length-until_nul-le : (text : Bytes) → length (until_nul text) ≤ length text
unfolding until_nul
length-until_nul-le [] = omega arith
length-until_nul-le (c ∷ cs) = ground (arith, length-until_nul-le cs)

-- Both strings of the pair fit with their terminators.
abbrev pub PairFits : Bytes × Bytes → Type 0
PairFits (key, value) = (length key < max_string_size) × (length value < max_string_size)

abbrev pub PairRead : Bytes → Option (Bytes × Bytes) × Bytes → Type 0
PairRead input (none, rest) = length rest ≤ length input
PairRead input (some p, rest) = PairFits p × (length rest ≤ length input)

value_read-PairRead :
    (input key : Bytes) (r : Ended × Bytes × Bytes)
    → length key < max_string_size
    → Short max_string_size input r
    → PairRead input (value_read key r)
value_read-PairRead input key (closing, value, rest) k (v, le) = ((k, v), le)
value_read-PairRead input key (_, value, rest) k (v, le) = omega (arith, length-cleanup-le rest)

PairRead-le :
    (input rest : Bytes) (r : Option (Bytes × Bytes) × Bytes)
    → length rest ≤ length input
    → PairRead rest r
    → PairRead input r
PairRead-le input rest (none, left) le p = omega arith
PairRead-le input rest (some p, left) le (fits, more) = (fits, omega arith)

key_read-PairRead :
    (input : Bytes) (r : Ended × Bytes × Bytes)
    → Short max_string_size input r
    → Ensures (PairRead input) (key_read r)
key_read-PairRead input (comma, key, rest) (k, le) =
    Ensures-bind (Short max_string_size rest) (PairRead input) (read_string max_string_size rest) _
      (read_string-Short max_string_size rest)
      (λ r s. PairRead-le input rest (value_read key r) le (value_read-PairRead rest key r k s))
key_read-PairRead input (_, key, rest) (k, le) = omega (arith, length-cleanup-le rest)

pub parse_pair-PairRead : (input : Bytes) → Ensures (PairRead input) (parse_pair input)
unfolding parse_pair
parse_pair-PairRead input =
    Ensures-bind (Short max_string_size input) (PairRead input) (read_string max_string_size input)
      _ (read_string-Short max_string_size input) (key_read-PairRead input)

pub length-after_pair-le : (input : Bytes) → length (after_pair input).1 ≤ length input
unfolding after_pair
length-after_pair-le [] = omega arith
length-after_pair-le (ch ∷ input) = ground arith

pub length-expect-le : (wanted : ℕ) (input : Bytes) → length (expect wanted input).1 ≤ length input
unfolding expect
length-expect-le wanted [] = omega arith
length-expect-le wanted (ch ∷ input) = omega arith

-- A list parser's result: fewer items than the limit, each of which fits.
pub record Listed {A : Type 0} (Fits : A → Type 0) (max : ℕ) (input : Bytes) (r : List A × Bytes)
    : Type 0 where
  pub few : (r.0 ≡ []) ⊎ (length r.0 < max)
  pub fit : All Fits r.0
  pub rest : length r.1 ≤ length input

module _ {A : Type 0} (Fits : A → Type 0) where
  pub Listed-nil :
      (max : ℕ) (input rest : Bytes)
      → length rest ≤ length input
      → Listed Fits max input ([], cleanup rest)
  Listed-nil max input rest le = record {
    few = inl refl;
    fit = tt;
    rest = omega (arith, length-cleanup-le rest);
  }

  pub Listed-le :
      (max : ℕ) (input rest : Bytes) (r : List A × Bytes)
      → length rest ≤ length input
      → Listed Fits max rest r
      → Listed Fits max input r
  Listed-le max input rest r le l = record {
    few = l.few;
    fit = l.fit;
    rest = omega (arith, l.rest);
  }

  ends_list-Listed :
      (max : ℕ) (items : List A) (input : Bytes)
      → length items < max
      → All Fits items
      → Listed Fits max input (ends_list items input)
  unfolding ends_list
  ends_list-Listed max items [] lt fit = record { few = inl refl; fit = tt; rest = omega arith }
  ends_list-Listed max items (ch ∷ input) lt fit = elim (Bool-cases (ch == b'\n' || ch == 0)) [
    | inl e ↦ rw e (record { few = inr lt; fit = fit; rest = omega arith })
    | inr ne ↦ rw ne (Listed-nil max (ch ∷ input) input (omega arith))
  ]

  -- The check for the limit, after the last item.
  pub closing-Listed :
      (max left : ℕ) (items : List A) (input : Bytes)
      → length items + left ≡ max
      → All Fits items
      → Listed Fits max input (if left == 0 then ([], cleanup input) else ends_list items input)
  closing-Listed max left items input e fit = elim (Bool-cases (left == 0)) [
    | inl z ↦ rw z (Listed-nil max input input (omega arith))
    | inr nz ↦ rw nz (ends_list-Listed max items input (ground arith) fit)
  ]

pub copied-PairFits : (p : Bytes × Bytes) → PairFits p → PairFits (copied p)
copied-PairFits (key, value) (k, v) =
    (omega (arith, length-until_nul-le key), omega (arith, length-until_nul-le value))

unfoldable pub Loop :
    {A : Type 0} → (A → Type 0) → ℕ → ℕ → (List A → Bytes → Run (List A × Bytes)) → Type 0
Loop {A} Fits left max loop =
    (items : List A) (input : Bytes)
    → length items + left ≡ max
    → All Fits items
    → Ensures (Listed Fits max input) (loop items input)

pub Ensures-le :
    {A : Type 0} (Fits : A → Type 0) (max : ℕ) (input rest : Bytes) (r : Run (List A × Bytes))
    → length rest ≤ length input
    → Ensures (Listed Fits max rest) r
    → Ensures (Listed Fits max input) r
Ensures-le Fits max input rest (ok r) le p = Listed-le Fits max input rest r le p
Ensures-le Fits max input rest (fault f) le p = tt

pub length-concat :
    {A : Type 0} (items : List A) (a : A) → length (items ++ a ∷ []) ≡ suc (length items)
length-concat items a = omega (arith, length-append items (a ∷ []))

pub skipped :
    {A : Type 0} (Fits : A → Type 0) (max wanted : ℕ) (input : Bytes)
    → Listed Fits max input ([], cleanup (expect wanted input).1)
skipped Fits max wanted input =
    Listed-nil Fits max input (expect wanted input).1 (length-expect-le wanted input)
