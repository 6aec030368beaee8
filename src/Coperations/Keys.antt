-- ===== src/Coperations/Keys.antt =====
-- The list of keys of one client (src/server/coperations.c).
use native.Mathlib.Decide.{ℕ_discrete}
use so_proj.Base.{
  ltb, ◌==◌, ◌&&◌, ℕ, zero, suc, ◌+◌, ◌-◌, ◌≤◌, ◌<◌, ◌≡◌, ◌≢◌, refl, inl, inr, false, List, [], ◌∷◌,
  Option, none, some, arith, leb, if◌then◌else◌, Bool-cases, length, get_or, set, get_or-set_self,
  get_or-set_ne, length-set, take-eq_of_le, Bytes, equal, equal_iff, equal_refl, pos,
}
use so_proj.Coperations.{
  max_number_sub, max_string_size, subscribe_key_index_list, shift_keys,
  remove_key_from_subscribed_list, slot_text,
}

-- What a search result means.
abbrev pub Indexed : Bytes → List Bytes → Option ℕ → Type 0
Indexed key keys none = (i : ℕ) → i < length keys → get_or keys i [] ≢ key
Indexed key keys (some i) = (i < length keys) × (get_or keys i [] ≡ key)

absent_cons :
    (key k : Bytes) (keys : List Bytes)
    → equal k key ≡ false
    → Indexed key keys none
    → Indexed key (k ∷ keys) none
absent_cons key k keys ne absent zero lt e = cc (rw (e, equal_refl) at ne)
absent_cons key k keys ne absent (suc i) lt e = absent i (omega arith) e

Indexed-cons :
    (key k : Bytes) (keys : List Bytes) (o : Option ℕ)
    → equal k key ≡ false
    → Indexed key keys o
    → Indexed key (k ∷ keys) (elim o [ none ↦ none | some i ↦ some (suc i) ])
Indexed-cons key k keys none ne absent = absent_cons key k keys ne absent
Indexed-cons key k keys (some i) ne (lt, e) = (omega arith, e)

-- `subscribe_key_index_list` gives an index at which the slot has the key, and -1 just when no slot
-- has it.
pub subscribe_key_index_list-Indexed :
    (key : Bytes) (keys : List Bytes) → Indexed key keys (subscribe_key_index_list key keys)
unfolding subscribe_key_index_list
subscribe_key_index_list-Indexed key [] = λ i lt e. absurd (omega arith)
subscribe_key_index_list-Indexed key (k ∷ keys) = elim (Bool-cases (equal k key)) [
  | inl e ↦ rw e (omega arith, (equal_iff k key).0 e)
  | inr ne ↦ rw ne (
      Indexed-cons key k keys (subscribe_key_index_list key keys) ne
        (subscribe_key_index_list-Indexed key keys))
]

-- A removal that finds the key behind all slots in use but the last returns 0 and changes no slot,
-- so that the list still has the key.
pub remove_stale :
    (key : Bytes) (keys : List Bytes) (i n : ℕ)
    → subscribe_key_index_list key keys ≡ some i
    → n ≤ suc i
    → remove_key_from_subscribed_list key keys (pos n) ≡ (keys, 0)
unfolding remove_key_from_subscribed_list
remove_stale key keys i n e le =
    let no_rounds : n - 1 - i ≡ 0 = omega arith in
    rw (remove_key_from_subscribed_list, e, no_rounds)

-- Every slot holds a string that fits it.
abbrev pub SlotsFit : List Bytes → Type 0
SlotsFit keys = (i : ℕ) → length (get_or keys i []) ≤ max_string_size

set-SlotsFit :
    (keys : List Bytes) (j : ℕ) (text : Bytes)
    → j < length keys
    → length text ≤ max_string_size
    → SlotsFit keys
    → SlotsFit (set keys j text)
set-SlotsFit keys j text lt short fit i = elim (ℕ_discrete j i) [
  | yes e ↦ rw (← e, get_or-set_self keys j text [] lt) short
  | no ne ↦ rw (get_or-set_ne keys j i text [] ne) (fit i)
]

-- Slot `m` after the slots from `j` on, `left` of them, have taken the text of the next one.
shifted : ℕ → ℕ → List Bytes → ℕ → Bytes
shifted left j keys m =
    if leb j m && ltb m (j + left) then get_or keys (m + 1) [] else get_or keys m []

get_or-set :
    (keys : List Bytes) (j m : ℕ) (text : Bytes)
    → j < length keys
    → get_or (set keys j text) m [] ≡ (if j == m then text else get_or keys m [])
get_or-set keys j m text lt = elim (ℕ_discrete j m) [
  | yes e ↦ rw (← e, get_or-set_self keys j text [] lt) (ground arith)
  | no ne ↦ rw (get_or-set_ne keys j m text [] ne) (ground arith)
]

shift_keys-shifted :
    (left j : ℕ) (keys : List Bytes) (m : ℕ)
    → j + left < length keys
    → SlotsFit keys
    → get_or (shift_keys left j keys) m [] ≡ shifted left j keys m
unfolding shift_keys shifted
shift_keys-shifted zero j keys m lt fit = ground arith
shift_keys-shifted (suc left) j keys m lt fit =
    let text = slot_text (get_or keys (j + 1) []) in
    let whole : text ≡ get_or keys (j + 1) [] = take-eq_of_le max_string_size _ (fit (j + 1)) in
    let short : length text ≤ max_string_size = rw whole (fit (j + 1)) in
    let keys' = set keys j text in
    let in_range : j < length keys = omega arith in
    ground (
      arith,
      shift_keys-shifted left (j + 1) keys' m (omega (arith, length-set keys j text))
          (set-SlotsFit keys j text in_range short fit),
      whole,
      get_or-set keys j m text in_range,
      get_or-set keys j (m + 1) text in_range,
    )

-- With at most ten keys in use, a removal that finds the key at some slot in use returns 0 and
-- moves each of the keys in use behind it one slot down; all other slots, that of the last key
-- among them, stay as they are.
pub remove_key_from_subscribed_list-shift :
    (key : Bytes) (keys : List Bytes) (i n : ℕ)
    → length keys ≡ max_number_sub
    → SlotsFit keys
    → subscribe_key_index_list key keys ≡ some i
    → i < n
    → n ≤ max_number_sub
    → let r = remove_key_from_subscribed_list key keys (pos n) in
      (r.1 ≡ 0)
      × ((m : ℕ)
          → get_or r.0 m []
            ≡ (if leb i m && ltb m (n - 1) then get_or keys (m + 1) [] else get_or keys m []))
unfolding remove_key_from_subscribed_list shifted
remove_key_from_subscribed_list-shift key keys i n wide fit e lt le =
    rw (remove_key_from_subscribed_list, e)
      (
        refl,
        λ m.
            let range : i + (n - 1 - i) ≡ n - 1 = omega arith in
            rw (shift_keys-shifted (n - 1 - i) i keys m (omega arith) fit, shifted, range),
      )
