-- ===== src/Scan/Numbers.antt =====
-- `read_uint` reads back what `write_uint` writes.
use native.Mathlib.Nat.{pow-suc}
use so_proj.Base.{
  ℕ, zero, suc, ◌+◌, ◌-◌, ◌*◌, ◌/◌, ◌%◌, ◌^◌, ◌≤◌, ◌<◌, ◌≡◌, refl, ap, inl, inr, true, false, [],
  ◌∷◌, ◌++◌, arith, ◌==◌, ltb, if◌then◌else◌, Bool-cases, length, Bytes, ok, ◌>>=◌, none, some,
}
use so_proj.Operations.Files.{digits_onto, write_uint}
use so_proj.Scan.{is_digit, read_digits, strtoul, uint_max, read_uint}

abbrev pub AllDigits : Bytes → Type 0
AllDigits [] = Unit
AllDigits (c ∷ cs) = (is_digit c ≡ true) × AllDigits cs

read_digits-append :
    (digits : Bytes) (room c : ℕ) (rest : Bytes)
    → AllDigits digits
    → length digits < room
    → is_digit c ≡ false
    → read_digits room (digits ++ (c ∷ rest)) ≡ ok (digits, c, rest)
unfolding read_digits
read_digits-append digits zero c rest h lt stop = absurd (omega arith)
read_digits-append [] (suc room) c rest h lt stop = rw stop
read_digits-append (d ∷ ds) (suc room) c rest (h, t) lt stop =
    rw (h, read_digits-append ds room c rest t (omega arith) stop)

tenth-lt : (n k : ℕ) → n < 10 ^ suc k → n / 10 < 10 ^ k
tenth-lt n k h = let e = pow-suc 10 k in omega arith

digit_value : (n : ℕ) → n / 10 * 10 + (b'0' + n % 10 - b'0') ≡ n
digit_value n = omega arith

strtoul-digits_onto :
    (fuel n : ℕ) (buffer : Bytes)
    → n < 10 ^ fuel
    → strtoul 0 (digits_onto fuel n buffer) ≡ strtoul n buffer
unfolding digits_onto strtoul
strtoul-digits_onto zero n buffer h = let e : n ≡ 0 = omega arith in rw e
strtoul-digits_onto (suc fuel) n buffer h = elim (Bool-cases (n == 0)) [
  | inl e ↦ let z : n ≡ 0 = ground arith in rw z
  | inr ne ↦
      rw (ne, strtoul-digits_onto fuel (n / 10) ((b'0' + n % 10) ∷ buffer) (tenth-lt n fuel h))
        (ap (λ (m : ℕ). strtoul m buffer) (digit_value n))
]

digits_onto-AllDigits :
    (fuel n : ℕ) (buffer : Bytes) → AllDigits buffer → AllDigits (digits_onto fuel n buffer)
unfolding digits_onto
digits_onto-AllDigits zero n buffer h = h
digits_onto-AllDigits (suc fuel) n buffer h = elim (Bool-cases (n == 0)) [
  | inl e ↦ rw e h
  | inr ne ↦ rw ne (digits_onto-AllDigits fuel (n / 10) _ (ground arith, h))
]

length-digits_onto-le :
    (k fuel n : ℕ) (buffer : Bytes)
    → n < 10 ^ k
    → length (digits_onto fuel n buffer) ≤ k + length buffer
unfolding digits_onto
length-digits_onto-le k zero n buffer h = omega arith
length-digits_onto-le zero (suc fuel) n buffer h = let z : n ≡ 0 = omega arith in rw z (omega arith)
length-digits_onto-le (suc k) (suc fuel) n buffer h = elim (Bool-cases (n == 0)) [
  | inl e ↦ rw e (omega arith)
  | inr ne ↦ rw ne (
      omega
        (arith, length-digits_onto-le k fuel (n / 10) ((b'0' + n % 10) ∷ buffer) (tenth-lt n k h)))
]

-- What `write_uint` writes.
record Decimal (n : ℕ) (digits : Bytes) : Type 0 where
  value : strtoul 0 digits ≡ n
  all_digits : AllDigits digits
  short : length digits < 16

write_uint-Decimal : (n : ℕ) → n < 10 ^ 15 → Decimal n (write_uint n)
unfolding write_uint strtoul
write_uint-Decimal n h = elim (Bool-cases (n == 0)) [
  | inl e ↦ rw e (record { value = ground arith; all_digits = (refl, tt); short = omega arith })
  | inr ne ↦ rw ne (record {
    value = strtoul-digits_onto 20 n [] (omega arith);
    all_digits = digits_onto-AllDigits 20 n [] tt;
    short = omega (arith, length-digits_onto-le 15 20 n [] h);
  })
]

-- A number of at most fifteen digits, written in decimal and followed by a byte that is no digit,
-- is read back as that number, with that byte and the rest of the input; one beyond UINT_MAX is
-- refused.
pub read_uint-write_uint :
    (n c : ℕ) (rest : Bytes)
    → n < 10 ^ 15
    → is_digit c ≡ false
    → read_uint (write_uint n ++ (c ∷ rest)) ≡ ok (if ltb uint_max n then none else some n, c, rest)
unfolding read_uint
read_uint-write_uint n c rest h stop =
    let d = write_uint-Decimal n h in
    rw (read_digits-append (write_uint n) 16 c rest d.all_digits d.short stop, ◌>>=◌, d.value)
