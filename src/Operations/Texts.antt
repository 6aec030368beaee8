-- ===== src/Operations/Texts.antt =====
-- `trim_trailing_whitespace` and `delay_to_timespec` of src/server/operations.c.
use native.Mathlib.Decide.{ℕ_discrete}
use so_proj.Base.{
  ◌^◌, ◌≤◌, ◌<◌, ◌≡◌, refl, ◌⊎◌, inl, inr, true, false, arith, Bool-cases, ℕ, zero, suc, ◌+◌, ◌-◌,
  ◌*◌, ◌/◌, ◌%◌, Bool, ◌||◌, ◌==◌, if◌then◌else◌, length, get_or, take, Bytes,
}

-- `isspace` in the C locale
pub isspace : ℕ → Bool
isspace c = c == b' ' || c == b'\t' || c == b'\n' || c == 11 || c == 12 || c == b'\r'

-- The index at which the loop leaves `end`.
pub last_kept : Bytes → ℕ → ℕ
last_kept str zero = zero
last_kept str (suc end) = if isspace (get_or str (suc end) 0) then last_kept str end else suc end

unfoldable pub trim_trailing_whitespace : Bytes → Bytes
unfolding isspace last_kept
trim_trailing_whitespace str = take (last_kept str (length str - 1) + 1) str

pub record Timespec : Type 0 where
  pub tv_sec : ℕ
  pub tv_nsec : ℕ

pub delay_to_timespec : ℕ → Timespec
delay_to_timespec delay_ms = record {
  tv_sec = delay_ms / 1000;
  tv_nsec = delay_ms % 1000 * 1000000;
}

last_kept-le : (str : Bytes) (end : ℕ) → last_kept str end ≤ end
unfolding last_kept
last_kept-le str zero = omega arith
last_kept-le str (suc end) = ground (arith, last_kept-le str end)

last_kept-isspace :
    (str : Bytes) (end i : ℕ) → last_kept str end < i → i ≤ end → isspace (get_or str i 0) ≡ true
unfolding last_kept
last_kept-isspace str zero i lt le = absurd (omega arith)
last_kept-isspace str (suc end) i lt le = elim (Bool-cases (isspace (get_or str (suc end) 0))) [
  | inl blank ↦ elim (ℕ_discrete i (suc end)) [
    | yes e ↦ rw e blank
    | no ne ↦ last_kept-isspace str end i (rw (last_kept, blank) at lt) (omega arith)
  ]
  | inr kept ↦ absurd (omega (arith, rw (last_kept, kept) at lt))
]

last_kept-stop :
    (str : Bytes) (end : ℕ)
    → (last_kept str end ≡ 0) ⊎ (isspace (get_or str (last_kept str end) 0) ≡ false)
unfolding last_kept
last_kept-stop str zero = inl refl
last_kept-stop str (suc end) = ground (arith, last_kept-stop str end)

-- `trim_trailing_whitespace` cuts a string to its first `k` bytes: all that it cuts off is white
-- space, and the last byte that it keeps is none, unless it is the first of the string.
pub trim_trailing_whitespace_lem :
    (str : Bytes)
    → (k : ℕ) × (trim_trailing_whitespace str ≡ take k str)
      × ((i : ℕ) → k ≤ i → i < length str → isspace (get_or str i 0) ≡ true)
      × ((k ≡ 1) ⊎ (isspace (get_or str (k - 1) 0) ≡ false))
unfolding trim_trailing_whitespace
trim_trailing_whitespace_lem str =
    let end = length str - 1 in
    let kept = last_kept str end in
    (
      kept + 1,
      refl,
      λ i le lt. last_kept-isspace str end i (omega arith) (omega arith),
      elim (last_kept-stop str end) [
        | inl first ↦ inl (omega arith)
        | inr stop ↦ inr (let e : kept + 1 - 1 ≡ kept = omega arith in rw e stop)
      ],
    )

-- The timespec stands for the delay exactly, with its nanoseconds below a second and within an
-- `unsigned int`.
delay_to_timespec_lem :
    (delay_ms : ℕ)
    → let t = delay_to_timespec delay_ms in
      (t.tv_sec * 10 ^ 9 + t.tv_nsec ≡ delay_ms * 10 ^ 6) × (t.tv_nsec < 10 ^ 9)
unfolding delay_to_timespec
delay_to_timespec_lem delay_ms = (omega arith, omega arith)
