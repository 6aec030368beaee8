-- ===== src/Session/Frames.antt =====
-- What a client prints for a notification: src/server/client.c to src/client/api.c.
use so_proj.Base.{
  ℕ, zero, suc, ◌+◌, ◌-◌, ◌≤◌, ◌≡◌, refl, ap, ◌∙◌, false, [], ◌∷◌, ◌++◌, Option, some, none, map,
  append_assoc, arith, ◌==◌, length, get_or, take, replicate, length-append, length-take,
  take-eq_of_le, get_or-replicate, length-replicate, Bytes, codes, until_nul,
}
use so_proj.Scan.Words.{HasNoNul}
use so_proj.Coperations.{max_string_size}
use so_proj.Session.{max_write_size, max_write_size_response, notice_text, notification}
use so_proj.Api.{blank, cut_blanks, print_notification}

pub until_nul-padded :
    (text : Bytes) (k : ℕ) → HasNoNul text → until_nul (text ++ replicate k 0) ≡ text
unfolding until_nul
until_nul-padded [] zero h = refl
until_nul-padded [] (suc k) h = refl
until_nul-padded (c ∷ text) k (e, h) = rw (e, until_nul-padded text k h)

map-blank :
    (text : Bytes) (k : ℕ)
    → HasNoNul text
    → map blank (text ++ replicate k 0) ≡ text ++ replicate k b' '
map-blank [] zero h = refl
map-blank [] (suc k) h = ap (λ (cs : Bytes). b' ' ∷ cs) (map-blank [] k h)
map-blank (c ∷ text) k (e, h) = rw (e, map-blank text k h)

get_or-append : (t ys : Bytes) (i j a : ℕ) → j ≡ length t + i → get_or (t ++ ys) j a ≡ get_or ys i a
get_or-append [] ys i j a e = let same : j ≡ i = omega arith in rw same
get_or-append (c ∷ t) ys i j a e =
    let same : j ≡ suc (length t + i) = omega arith in
    rw (same, get_or-append t ys i (length t + i) a refl)

take-head : (t ys : Bytes) (c : ℕ) → take (suc (length t)) (t ++ c ∷ ys) ≡ t ++ c ∷ []
take-head [] ys c = refl
take-head (b ∷ t) ys c = ap (λ (cs : Bytes). b ∷ cs) (take-head t ys c)

cut_blanks-blanks :
    (t : Bytes) (c k n : ℕ)
    → (c == b' ') ≡ false
    → cut_blanks (t ++ c ∷ replicate n b' ') (k + suc (length t)) ≡ t ++ c ∷ []
unfolding cut_blanks
cut_blanks-blanks t c zero n ne =
    let at_end : 0 + suc (length t) ≡ suc (length t) = omega arith in
    let read = get_or-append t (c ∷ replicate n b' ') 0 (length t) b' ' (omega arith) in
    rw (at_end, read, ne, take-head)
cut_blanks-blanks t c (suc k) n ne =
    let place : suc k + suc (length t) ≡ suc (k + suc (length t)) = omega arith in
    let read =
      get_or-append t (c ∷ replicate n b' ') (suc k) (k + suc (length t)) b' ' (omega arith) in
    rw (place, read, get_or-replicate {A = ℕ} n k b' ', cut_blanks-blanks t c k n ne)

-- A text of no zero byte and no blank at its end, padded with zeros, is printed as it was.
print_notification-padded :
    (t : Bytes) (c k n : ℕ)
    → HasNoNul (t ++ c ∷ [])
    → (c == b' ') ≡ false
    → n ≡ k + suc (length t)
    → print_notification ((t ++ c ∷ []) ++ replicate k 0) n ≡ (t ++ c ∷ []) ++ codes "\n"
unfolding print_notification
print_notification-padded t c k n plain ne e =
    let whole : length ((t ++ c ∷ []) ++ replicate k 0) ≡ n =
      rw (length-append, length-append, length-replicate {A = ℕ} k 0) (omega arith) in
    let left : n - length (t ++ c ∷ []) ≡ k = rw length-append (omega arith) in
    rw (
      take-eq_of_le n ((t ++ c ∷ []) ++ replicate k 0) (omega arith),
      until_nul-padded (t ++ c ∷ []) k plain,
      left,
      map-blank (t ++ c ∷ []) k plain,
      append_assoc,
      e,
      cut_blanks-blanks t c k k ne,
    )

take-HasNoNul : (n : ℕ) (text : Bytes) → HasNoNul text → HasNoNul (take n text)
take-HasNoNul zero text h = tt
take-HasNoNul (suc n) [] h = tt
take-HasNoNul (suc n) (c ∷ text) (e, h) = (e, take-HasNoNul n text h)

append-HasNoNul : (a b : Bytes) → HasNoNul a → HasNoNul b → HasNoNul (a ++ b)
append-HasNoNul [] b h g = g
append-HasNoNul (c ∷ a) b (e, h) g = (e, append-HasNoNul a b h g)

abbrev pub ValueHasNoNul : Option Bytes → Type 0
ValueHasNoNul none = Unit
ValueHasNoNul (some value) = HasNoNul value

-- The text of a notification without its last byte.
opened_text : Bytes → Option Bytes → Bytes
opened_text key (some value) =
    b'(' ∷ (take max_string_size key ++ (b',' ∷ take max_write_size value))
opened_text key none = b'(' ∷ (take max_string_size key ++ codes ",DELETED")

record Opened (key : Bytes) (value : Option Bytes) : Type 0 where
  text : notice_text key value ≡ opened_text key value ++ b')' ∷ []
  plain : HasNoNul (opened_text key value ++ b')' ∷ [])
  short : length (opened_text key value) ≤ 298

opened :
    (key : Bytes) (value : Option Bytes) → HasNoNul key → ValueHasNoNul value → Opened key value
unfolding opened_text
opened key (some value) hk hv = record {
  text = rw append_assoc;
  plain =
      append-HasNoNul (opened_text key (some value)) (b')' ∷ [])
        (
          refl,
          append-HasNoNul (take max_string_size key) (b',' ∷ take max_write_size value)
              (take-HasNoNul max_string_size key hk) (refl, take-HasNoNul max_write_size value hv),
        )
        (refl, tt);
  short = rw (length-append, length-take, length-take) (omega arith);
}
opened key none hk hv = record {
  text = rw append_assoc;
  plain =
      append-HasNoNul (opened_text key none) (b')' ∷ [])
        (
          refl,
          append-HasNoNul (take max_string_size key) (codes ",DELETED")
              (take-HasNoNul max_string_size key hk)
              (refl, (refl, (refl, (refl, (refl, (refl, (refl, (refl, tt)))))))),
        )
        (refl, tt);
  short = rw (length-append, length-take) (omega arith);
}

replicate-snoc :
    (k : ℕ) → let zeros : Bytes = replicate k 0 in zeros ++ 0 ∷ [] ≡ replicate (suc k) 0
replicate-snoc zero = refl
replicate-snoc (suc k) = ap (◌∷◌ 0) (replicate-snoc k)

-- A notification has 300 bytes. A client prints the array that holds it, with the zero behind it,
-- as the text in brackets of the key's first 40 bytes and either the value's first 256 bytes or
-- `DELETED`, with a line feed.
pub notification-print_notification :
    (key : Bytes) (value : Option Bytes)
    → HasNoNul key
    → ValueHasNoNul value
    → (length (notification key value) ≡ max_write_size_response - 1)
      × (print_notification (notification key value ++ 0 ∷ []) max_write_size_response
          ≡ notice_text key value ++ codes "\n")
unfolding notification
notification-print_notification key value hk hv =
    let o = opened key value hk hv in
    let t = opened_text key value in
    let size : length (t ++ b')' ∷ []) ≡ length t + 1 = length-append t (b')' ∷ []) in
    let short = o.short in
    let whole : take 300 (t ++ b')' ∷ []) ≡ t ++ b')' ∷ [] = take-eq_of_le 300 _ (omega arith) in
    let k = 300 - length (t ++ b')' ∷ []) in
    let padded : ((t ++ b')' ∷ []) ++ replicate k 0) ++ 0 ∷ []
        ≡ (t ++ b')' ∷ []) ++ replicate (suc k) 0 =
      append_assoc (t ++ b')' ∷ []) (replicate k 0) (0 ∷ [])
      ∙ ap (λ (cs : Bytes). (t ++ b')' ∷ []) ++ cs) (replicate-snoc k) in
    rw (o.text, whole)
      (
        rw (length-append, length-replicate {A = ℕ}, size) (omega arith),
        rw padded
            (print_notification-padded t b')' (suc k) 301 o.plain refl (rw size (omega arith))),
      )
