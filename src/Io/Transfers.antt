-- ===== src/Io/Transfers.antt =====
-- What arrives by `read_all` and `write_all` of src/common/io.c, however the kernel cuts it.
use so_proj.Base.{
  ℕ, zero, suc, ◌+◌, ◌-◌, ◌≤◌, ◌<◌, ◌≡◌, ◌≢◌, ◌⊎◌, inl, inr, subst, leb, if◌then◌else◌, refl, sym,
  ap, ◌∙◌, Bool, true, false, List, [], ◌∷◌, ◌++◌, Option, none, some, append_assoc, append-nil,
  arith, min, length, length-append, length-take, length-drop, Bool-cases, take, drop, take-append,
  drop-append, Bytes, ℤ, pos, negsuc,
}
use so_proj.Io.{
  Answer, moves, interrupted, failed, Reading, read_loop, was_interrupted, read_all, write_all,
}

-- The interruptions and the failures among the answers.
unfoldable pub interruptions : List Answer → ℕ
interruptions [] = 0
interruptions (moves _ ∷ answers) = interruptions answers
interruptions (interrupted ∷ answers) = suc (interruptions answers)
interruptions (failed ∷ answers) = interruptions answers

abbrev pub HasNoFailure : List Answer → Type 0
HasNoFailure [] = Unit
HasNoFailure (failed ∷ _) = ⊥
HasNoFailure (_ ∷ answers) = HasNoFailure answers

-- A `write_all` that has returned: all the bytes with 1, the first of them with -1.
abbrev pub SentOf : Bytes → Option (ℤ × Bytes) → Type 0
SentOf whole none = Unit
SentOf whole (some (code, sent)) =
    (tail : Bytes) × (whole ≡ sent ++ tail)
    × (((code ≡ pos 1) × (tail ≡ [])) ⊎ ((code ≡ negsuc 0) × (tail ≢ [])))

take-drop : (n : ℕ) (xs : Bytes) → take n xs ++ drop n xs ≡ xs
take-drop zero xs = refl
take-drop (suc n) [] = refl
take-drop (suc n) (x ∷ xs) = ap (◌∷◌ x) (take-drop n xs)

cut :
    (c most : ℕ) (bytes before : Bytes)
    → (before ++ (c ∷ take most bytes)) ++ drop most bytes ≡ before ++ (c ∷ bytes)
cut c most bytes before =
    append_assoc before (c ∷ take most bytes) (drop most bytes)
    ∙ ap (λ (cs : Bytes). before ++ (c ∷ cs)) (take-drop most bytes)

write_all-SentOf :
    (answers : List Answer) (bytes before : Bytes)
    → SentOf (before ++ bytes) (write_all answers bytes before)
unfolding write_all
write_all-SentOf answers [] before = ([], refl, inl (refl, refl))
write_all-SentOf [] (c ∷ bytes) before = tt
write_all-SentOf (failed ∷ answers) (c ∷ bytes) before = (c ∷ bytes, refl, inr (refl, λ e. cc))
write_all-SentOf (interrupted ∷ answers) (c ∷ bytes) before =
    write_all-SentOf answers (c ∷ bytes) before
write_all-SentOf (moves most ∷ answers) (c ∷ bytes) before =
    subst
      (λ (whole : Bytes).
        SentOf whole (write_all answers (drop most bytes) (before ++ (c ∷ take most bytes))))
      (cut c most bytes before)
      (write_all-SentOf answers (drop most bytes) (before ++ (c ∷ take most bytes)))

-- Without a failure, as many answers as there are bytes and interruptions are enough.
write_all-whole :
    (answers : List Answer) (bytes before : Bytes)
    → HasNoFailure answers
    → length bytes + interruptions answers ≤ length answers
    → write_all answers bytes before ≡ some (pos 1, before ++ bytes)
unfolding write_all interruptions
write_all-whole answers [] before fine le = rw (append-nil before)
write_all-whole [] (c ∷ bytes) before fine le = absurd (omega arith)
write_all-whole (failed ∷ answers) (c ∷ bytes) before fine le = absurd fine
write_all-whole (interrupted ∷ answers) (c ∷ bytes) before fine le =
    write_all-whole answers (c ∷ bytes) before fine (omega arith)
write_all-whole (moves most ∷ answers) (c ∷ bytes) before fine le =
    write_all-whole answers (drop most bytes) (before ++ (c ∷ take most bytes)) fine
      (omega (arith, length-drop most bytes))
    ∙ ap (λ (sent : Bytes). some (pos 1, sent)) (cut c most bytes before)

take-cut :
    (n m : ℕ) (xs : Bytes)
    → n ≤ m
    → take n xs ++ take (m - length (take n xs)) (drop n xs) ≡ take m xs
take-cut zero m xs le = let whole : m - 0 ≡ m = omega arith in rw whole
take-cut (suc n) zero xs le = absurd (omega arith)
take-cut (suc n) (suc m) [] le = let whole : suc m - 0 ≡ suc m = omega arith in rw whole
take-cut (suc n) (suc m) (x ∷ xs) le =
    let step : suc m - suc (length (take n xs)) ≡ m - length (take n xs) = omega arith in
    rw step (ap (◌∷◌ x) (take-cut n m xs (omega arith)))

drop-cut : (n m : ℕ) (xs : Bytes) → n ≤ m → drop (m - length (take n xs)) (drop n xs) ≡ drop m xs
drop-cut zero m xs le = let whole : m - 0 ≡ m = omega arith in rw whole
drop-cut (suc n) zero xs le = absurd (omega arith)
drop-cut (suc n) (suc m) [] le = let whole : suc m - 0 ≡ suc m = omega arith in rw whole
drop-cut (suc n) (suc m) (x ∷ xs) le =
    let step : suc m - suc (length (take n xs)) ≡ m - length (take n xs) = omega arith in
    rw step (drop-cut n m xs (omega arith))

-- What `read_all` leaves of an input that no failure cuts: as many of the bytes as asked for, and
-- 1 just if there are so many.
abbrev pub Whole : ℕ → Bytes → Bytes → Option Bool → Reading → Type 0
Whole left before input intr r =
    (r.code ≡ (if leb left (length input) then pos 1 else pos 0))
    × (r.buffer ≡ before ++ take left input)
    × (r.intr ≡ intr)
    × (r.rest ≡ drop left input)

-- An interruption does not end a transfer if there is no `intr` to tell it by.
abbrev pub IsQuiet : Option Bool → List Answer → Type 0
IsQuiet none answers = Unit
IsQuiet (some _) answers = interruptions answers ≡ 0

still-IsQuiet :
    (intr : Option Bool) (most : ℕ) (answers : List Answer)
    → IsQuiet intr (moves most ∷ answers)
    → IsQuiet intr answers
unfolding interruptions
still-IsQuiet none most answers quiet = tt
still-IsQuiet (some _) most answers quiet = quiet

read_loop-Whole :
    (intr : Option Bool) (answers : List Answer) (left : ℕ) (before input : Bytes)
    → HasNoFailure answers
    → IsQuiet intr answers
    → left + interruptions answers < length answers
    → (r : Reading) × (read_loop answers left before intr input ≡ some r)
      × Whole left before input intr r
unfolding read_loop interruptions
read_loop-Whole intr answers zero before input fine quiet le = (
  record { code = pos 1; buffer = before; intr = intr; answers = answers; rest = input },
  refl,
  (ground arith, sym (append-nil before), refl, refl),
)
read_loop-Whole intr [] (suc left) before input fine quiet le = absurd (omega arith)
read_loop-Whole intr (failed ∷ answers) (suc left) before input fine quiet le = absurd fine
read_loop-Whole none (interrupted ∷ answers) (suc left) before input fine quiet le =
    read_loop-Whole none answers (suc left) before input fine tt (omega arith)
read_loop-Whole (some _) (interrupted ∷ answers) (suc left) before input fine quiet le =
    absurd (omega arith)
read_loop-Whole intr (moves most ∷ answers) (suc left) before [] fine quiet le = (
  record { code = pos 0; buffer = before; intr = intr; answers = answers; rest = [] },
  refl,
  (ground arith, sym (append-nil before), refl, refl),
)
read_loop-Whole intr (moves most ∷ answers) (suc left) before (c ∷ input) fine quiet le =
    let n = min left most in
    let chunk = take n input in
    let same_code : (if leb (left - length chunk) (length (drop n input)) then pos 1 else pos 0)
        ≡ (if leb (suc left) (suc (length input)) then pos 1 else pos 0) =
      ground (arith, length-drop n input, length-take n input) in
    let (r, ran, (code, buffer, intr', rest)) =
      read_loop-Whole intr answers (left - length chunk) (before ++ (c ∷ chunk)) (drop n input) fine
        (still-IsQuiet intr most answers quiet) (omega arith) in
    (
      r,
      ran,
      (
        code ∙ same_code,
        buffer
            ∙ append_assoc before (c ∷ chunk) (take (left - length chunk) (drop n input))
            ∙ ap (λ (cs : Bytes). before ++ (c ∷ cs)) (take-cut n left input (omega arith)),
        intr',
        rest ∙ drop-cut n left input (omega arith),
      ),
    )

-- Whatever `write` answers, `write_all` returns 1 just when all its bytes are in the pipe and -1
-- just when a first part of them is, and without a failure it does return 1, after at most as many
-- answers as there are bytes and interruptions.
pub write_all-Sent :
    (answers : List Answer) (bytes : Bytes)
    → SentOf bytes (write_all answers bytes [])
      × (HasNoFailure answers
          → length bytes + interruptions answers ≤ length answers
          → write_all answers bytes [] ≡ some (pos 1, bytes))
write_all-Sent answers bytes = (write_all-SentOf answers bytes [], write_all-whole answers bytes [])

-- Without a failure, and with one answer more than there are bytes asked for and interruptions,
-- `read_all` returns however the answers cut the input. It takes the first `size` bytes and
-- returns 1; an input that ends before gives 0 and all its bytes. With a pointer `intr` to 0, this
-- holds if nothing interrupts the call.
pub read_all-Whole :
    (answers : List Answer) (size : ℕ) (intr : Option Bool) (input : Bytes)
    → was_interrupted intr ≡ false
    → HasNoFailure answers
    → IsQuiet intr answers
    → size + interruptions answers < length answers
    → (r : Reading) × (read_all answers size intr input ≡ some r) × Whole size [] input intr r
unfolding read_all
read_all-Whole answers size intr input clear fine quiet enough =
    rw clear (read_loop-Whole intr answers size [] input fine quiet enough)

all_sent : {message sent : Bytes} → SentOf message (some (pos 1, sent)) → sent ≡ message
all_sent (tail, split, inl (_, empty)) = sym (split ∙ rw empty (append-nil _))
all_sent (tail, split, inr (broken, _)) = cc

-- Whether `read` is interrupted before it has moved a byte, and `intr` tells of it.
abbrev pub cut_first : Option Bool → List Answer → Bool
cut_first (some _) (interrupted ∷ _) = true
cut_first (some _) (moves _ ∷ _) = false
cut_first (some _) (failed ∷ _) = false
cut_first (some _) [] = false
cut_first none _ = false

-- Two calls that return the same number and take the same bytes.
abbrev Alike : Reading → Option Reading → Type 0
Alike r run =
    (r' : Reading) × (run ≡ some r')
    × (r'.code ≡ r.code)
    × (r'.buffer ≡ r.buffer)
    × (r'.rest ≡ r.rest)

-- Behind the first byte, `intr` is told of interruptions, and nothing else comes of them.
read_loop-Alike :
    (answers : List Answer) (left : ℕ) (c : ℕ) (before : Bytes) (intr : Bool) (input : Bytes)
    (r : Reading)
    → read_loop answers left (c ∷ before) none input ≡ some r
    → Alike r (read_loop answers left (c ∷ before) (some intr) input)
unfolding read_loop
read_loop-Alike answers zero c before intr input r e = (_, refl, cc, cc, cc)
read_loop-Alike [] (suc left) c before intr input r e = absurd cc
read_loop-Alike (failed ∷ answers) (suc left) c before intr input r e = (_, refl, cc, cc, cc)
read_loop-Alike (interrupted ∷ answers) (suc left) c before intr input r e =
    read_loop-Alike answers (suc left) c before true input r e
read_loop-Alike (moves most ∷ answers) (suc left) c before intr [] r e = (_, refl, cc, cc, cc)
read_loop-Alike (moves most ∷ answers) (suc left) c before intr (d ∷ input) r e =
    let chunk = take (min left most) input in
    read_loop-Alike answers (left - length chunk) c (before ++ (d ∷ chunk)) intr
      (drop (min left most) input) r e

read_all-Alike :
    (answers : List Answer) (size c : ℕ) (input : Bytes) (intr : Option Bool) (r : Reading)
    → was_interrupted intr ≡ false
    → cut_first intr answers ≡ false
    → read_all answers size none (c ∷ input) ≡ some r
    → Alike r (read_all answers size intr (c ∷ input))
unfolding read_all read_loop
read_all-Alike answers size c input none r clear uncut e = (r, e, refl, refl, refl)
read_all-Alike answers size c input (some true) r clear uncut e = absurd cc
read_all-Alike answers zero c input (some false) r clear uncut e = (_, refl, cc, cc, cc)
read_all-Alike [] (suc left) c input (some false) r clear uncut e = absurd cc
read_all-Alike (failed ∷ answers) (suc left) c input (some false) r clear uncut e =
    (_, refl, cc, cc, cc)
read_all-Alike (interrupted ∷ answers) (suc left) c input (some false) r clear uncut e = absurd cc
read_all-Alike (moves most ∷ answers) (suc left) c input (some false) r clear uncut e =
    let chunk = take (min left most) input in
    read_loop-Alike answers (left - length chunk) c chunk false (drop (min left most) input) r e

-- What `read_all` makes of a message at the head of the pipe: it takes it, or, interrupted before
-- its first byte, it returns -1 with `*intr` set and leaves it.
abbrev pub Delivered : Bool → Bytes → Bytes → Reading → Type 0
Delivered false message behind r = (r.code ≡ pos 1) × (r.buffer ≡ message) × (r.rest ≡ behind)
Delivered true message behind r =
    (r.code ≡ negsuc 0) × (r.intr ≡ some true) × (r.buffer ≡ []) × (r.rest ≡ message ++ behind)

read_all-cut :
    (answers : List Answer) (size : ℕ) (intr : Option Bool) (message behind : Bytes)
    → was_interrupted intr ≡ false
    → cut_first intr answers ≡ true
    → (r : Reading) × (read_all answers (suc size) intr (message ++ behind) ≡ some r)
      × Delivered true message behind r
unfolding read_all read_loop
read_all-cut answers size none message behind clear cut = absurd cc
read_all-cut answers size (some true) message behind clear cut = absurd cc
read_all-cut [] size (some false) message behind clear cut = absurd cc
read_all-cut (moves _ ∷ answers) size (some false) message behind clear cut = absurd cc
read_all-cut (failed ∷ answers) size (some false) message behind clear cut = absurd cc
read_all-cut (interrupted ∷ answers) size (some false) message behind clear cut =
    (_, refl, (refl, refl, refl, refl))

read_all-Delivered :
    (reads : List Answer) (c : ℕ) (message behind : Bytes) (intr : Option Bool)
    → was_interrupted intr ≡ false
    → HasNoFailure reads
    → length (c ∷ message) + interruptions reads < length reads
    → cut_first intr reads ≡ false
    → (r : Reading) × (read_all reads (length (c ∷ message)) intr ((c ∷ message) ++ behind)
        ≡ some r)
      × Delivered false (c ∷ message) behind r
read_all-Delivered reads c message behind intr clear fine enough uncut =
    let whole = c ∷ message in
    let (r, ran, (code, buffer, _, rest)) =
      read_all-Whole reads (length whole) none (whole ++ behind) refl fine tt enough in
    let there : leb (length whole) (length (whole ++ behind)) ≡ true =
      ground (arith, length-append whole behind) in
    let (r', ran', code', buffer', rest') =
      read_all-Alike reads (length whole) c (message ++ behind) intr r clear uncut ran in
    (
      r',
      ran',
      (
        code' ∙ rw there at code,
        buffer' ∙ buffer ∙ take-append whole behind,
        rest' ∙ rest ∙ drop-append whole behind,
      ),
    )

-- A message of at least one byte that `write_all` has put whole into a pipe is what `read_all`
-- takes out of it, and the bytes behind it stay for the next reader, if no `read` fails and there
-- are more answers than bytes and interruptions. This holds with a pointer `intr` to 0 and without
-- one, and however the two transfers are cut, but for one case: an interruption before the first
-- byte makes the `read_all` with a pointer return -1 and set it, and the whole message stays.
pub write_all-read_all :
    (writes reads : List Answer) (message behind sent : Bytes) (intr : Option Bool)
    → write_all writes message [] ≡ some (pos 1, sent)
    → 0 < length message
    → was_interrupted intr ≡ false
    → HasNoFailure reads
    → length message + interruptions reads < length reads
    → (r : Reading) × (read_all reads (length message) intr (sent ++ behind) ≡ some r)
      × Delivered (cut_first intr reads) message behind r
write_all-read_all writes reads [] behind sent intr wrote some_byte clear fine enough =
    absurd (omega arith)
write_all-read_all writes reads (c ∷ message) behind sent intr wrote some_byte clear fine enough =
    let whole : sent ≡ c ∷ message =
      all_sent (subst (SentOf (c ∷ message)) wrote (write_all-SentOf writes (c ∷ message) [])) in
    elim (Bool-cases (cut_first intr reads)) [
      | inl cut ↦
          rw (whole, cut) (read_all-cut reads (length message) intr (c ∷ message) behind clear cut)
      | inr uncut ↦
          rw (whole, uncut) (read_all-Delivered reads c message behind intr clear fine enough uncut)
    ]
