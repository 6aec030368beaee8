-- ===== src/Scan/Words.antt =====
-- What `read_string` accepts, and where it stores its terminator.
use so_proj.Base.{
  ℕ, zero, suc, ◌<◌, ◌≡◌, refl, ap, ◌⊎◌, inl, inr, Bool, false, ◌||◌, [], ◌∷◌, ◌++◌, arith, ◌==◌,
  Bool-cases, length, Bytes, Run, ok, fault, bad_index, ◌>>=◌, until_nul,
}
use so_proj.Scan.{Ended, failed, comma, closing, bracket, read_string}

-- The byte that ends a string with each result.
abbrev pub delimiter : Ended → ℕ
delimiter failed = b' '
delimiter comma = b','
delimiter closing = b')'
delimiter bracket = b']'

abbrev pub is_delimiter : ℕ → Bool
is_delimiter c = c == b' ' || c == b',' || c == b')' || c == b']'

abbrev pub HasNoDelimiter : Bytes → Type 0
HasNoDelimiter [] = Unit
HasNoDelimiter (c ∷ cs) = (is_delimiter c ≡ false) × HasNoDelimiter cs

-- A C string.
abbrev pub HasNoNul : Bytes → Type 0
HasNoNul [] = Unit
HasNoNul (c ∷ cs) = ((c == 0) ≡ false) × HasNoNul cs

-- What the format can carry as a key or a value, in a buffer of `max` bytes.
pub record IsWord (max : ℕ) (word : Bytes) : Type 0 where
  pub plain : HasNoDelimiter word
  pub no_nul : HasNoNul word
  pub fits : length word < max

pub until_nul-eq : (word : Bytes) → HasNoNul word → until_nul word ≡ word
unfolding until_nul
until_nul-eq [] h = refl
until_nul-eq (c ∷ cs) (h, t) = rw (h, until_nul-eq cs t)

-- A string that its delimiter ends within the room is read whole, up to and with the delimiter.
pub read_string-append :
    (word : Bytes) (room : ℕ) (ended : Ended) (rest : Bytes)
    → HasNoDelimiter word
    → length word < room
    → read_string room (word ++ (delimiter ended ∷ rest)) ≡ ok (ended, word, rest)
unfolding read_string
read_string-append word zero ended rest h lt = absurd (omega arith)
read_string-append [] (suc room) failed rest h lt = refl
read_string-append [] (suc room) comma rest h lt = refl
read_string-append [] (suc room) closing rest h lt = refl
read_string-append [] (suc room) bracket rest h lt = refl
read_string-append (c ∷ cs) (suc room) ended rest (h, t) lt =
    ground (arith, read_string-append cs room ended rest t)

abbrev pub Scanned : ℕ → Bytes → Run (Ended × Bytes × Bytes) → Type 0
Scanned room input (fault f) =
    (word tail : Bytes) × (input ≡ word ++ tail)
    × (length word ≡ room)
    × HasNoDelimiter word
    × (f ≡ bad_index)
Scanned room input (ok (ended, text, rest)) =
    (length text < room)
    × HasNoDelimiter text
    × ((input ≡ text ++ (delimiter ended ∷ rest))
        ⊎ ((ended ≡ failed) × (input ≡ text) × (rest ≡ [])))

abbrev push_byte : ℕ → Run (Ended × Bytes × Bytes) → Run (Ended × Bytes × Bytes)
push_byte c r = r >>= λ (ended, text, rest). ok (ended, c ∷ text, rest)

Scanned-push_byte :
    (room c : ℕ) (cs : Bytes) (r : Run (Ended × Bytes × Bytes))
    → is_delimiter c ≡ false
    → Scanned room cs r
    → Scanned (suc room) (c ∷ cs) (push_byte c r)
Scanned-push_byte room c cs (fault f) h (word, tail, split, full, plain, e) =
    (c ∷ word, tail, ap (◌∷◌ c) split, ap suc full, (h, plain), e)
Scanned-push_byte room c cs (ok (ended, text, rest)) h (lt, plain, inl split) =
    (omega arith, (h, plain), inl (ap (◌∷◌ c) split))
Scanned-push_byte room c cs (ok (ended, text, rest)) h (lt, plain, inr (e, split, none_left)) =
    (omega arith, (h, plain), inr (e, ap (◌∷◌ c) split, none_left))

ended_at :
    (room c : ℕ) (ended : Ended) (cs : Bytes)
    → c ≡ delimiter ended
    → Scanned (suc room) (c ∷ cs) (ok (ended, [], cs))
ended_at room c ended cs e = (omega arith, tt, inl (ap (λ (b : ℕ). b ∷ cs) e))

-- `read_string` stores a terminator outside its buffer exactly where the input begins with as many
-- bytes that are no delimiter as the buffer has; otherwise it returns, the string fits with its
-- terminator, and string and delimiter are what it took from the input, or the input had no
-- delimiter and is used up.
pub read_string-Scanned : (room : ℕ) (input : Bytes) → Scanned room input (read_string room input)
unfolding read_string
read_string-Scanned zero input = ([], input, refl, refl, tt, refl)
read_string-Scanned (suc room) [] = (omega arith, tt, inr (refl, refl, refl))
read_string-Scanned (suc room) (c ∷ cs) = elim (Bool-cases (c == b' ')) [
  | inl sp ↦ rw sp (ended_at room c failed cs (ground arith))
  | inr nsp ↦ rw nsp (elim (Bool-cases (c == b',')) [
    | inl co ↦ rw co (ended_at room c comma cs (ground arith))
    | inr nco ↦ rw nco (elim (Bool-cases (c == b')')) [
      | inl cl ↦ rw cl (ended_at room c closing cs (ground arith))
      | inr ncl ↦ rw ncl (elim (Bool-cases (c == b']')) [
        | inl br ↦ rw br (ended_at room c bracket cs (ground arith))
        | inr nbr ↦ rw nbr (
            Scanned-push_byte room c cs (read_string room cs) (ground arith)
              (read_string-Scanned room cs))
      ])
    ])
  ])
]
