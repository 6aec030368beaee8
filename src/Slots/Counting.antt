-- ===== src/Slots/Counting.antt =====
-- How the loops over `clients_data` in src/server/client.c change how many slots have a session.
use so_proj.Base.{
  replicate, replicate, ℕ, zero, suc, ◌+◌, ◌<◌, ◌≡◌, ◌⊎◌, inl, inr, refl, ap, Bool, true, false,
  ◌&&◌, not, List, [], ◌∷◌, none, some, arith, Bool-cases, length, get_or, set, All, ℤ, at_least,
}
use so_proj.Coperations.{max_number_sub}
use so_proj.Slots.{Slot, empty_slot, occupied, occupy, force_all, release_all}

abbrev pub one : Bool → ℕ
one true = 1
one false = 0

-- The slots with a session.
pub busy : List Slot → ℕ
busy [] = 0
busy (slot ∷ slots) = one slot.client_data.active + busy slots

abbrev pub AtMostTen : Slot → Type 0
AtMostTen slot = at_least (suc max_number_sub) slot.client_data.num_keys ≡ false

pub busy-replicate : (n : ℕ) → busy (replicate n empty_slot) ≡ 0
unfolding busy
busy-replicate zero = refl
busy-replicate (suc n) = omega (arith, busy-replicate n)

pub busy-set :
    (slots : List Slot) (i : ℕ) (x : Slot)
    → i < length slots
    → busy (set slots i x) + one (get_or slots i empty_slot).client_data.active
      ≡ busy slots + one x.client_data.active
unfolding busy
busy-set [] i x lt = absurd (omega arith)
busy-set (slot ∷ slots) zero x lt = omega arith
busy-set (slot ∷ slots) (suc i) x lt = omega (arith, busy-set slots i x (omega arith))

pub All-set :
    (slots : List Slot) (i : ℕ) (x : Slot)
    → All AtMostTen slots
    → AtMostTen x
    → All AtMostTen (set slots i x)
All-set [] i x all new = tt
All-set (slot ∷ slots) zero x (_, all) new = (new, all)
All-set (slot ∷ slots) (suc i) x (old, all) new = (old, All-set slots i x all new)

pub All-get :
    (slots : List Slot) (i : ℕ) → All AtMostTen slots → AtMostTen (get_or slots i empty_slot)
All-get [] i all = refl
All-get (slot ∷ slots) zero (this, _) = this
All-get (slot ∷ slots) (suc i) (_, all) = All-get slots i all

-- What keeps the number of sessions and the counts of keys.
pub record Same (slots slots' : List Slot) : Type 0 where
  pub width : length slots' ≡ length slots
  pub sessions : busy slots' ≡ busy slots
  pub few : All AtMostTen slots → All AtMostTen slots'

pub force_all-Same : (slots : List Slot) → Same slots (force_all slots).0
unfolding force_all busy
force_all-Same [] = record { width = refl; sessions = refl; few = λ all. all }
force_all-Same (slot ∷ slots) =
    let rest = force_all-Same slots in
    elim (Bool-cases slot.client_data.active) [
      | inl e ↦ rw e (record {
        width = ap suc rest.width;
        sessions = let kept = rest.sessions in rw kept;
        few = λ (this, all). (this, rest.few all);
      })
      | inr e ↦ rw e (record {
        width = ap suc rest.width;
        sessions = let kept = rest.sessions in rw kept;
        few = λ (this, all). (this, rest.few all);
      })
    ]

pub release_all-Same : (slots : List Slot) → Same slots (release_all slots).0
unfolding release_all busy
release_all-Same [] = record { width = refl; sessions = refl; few = λ all. all }
release_all-Same (slot ∷ slots) =
    let rest = release_all-Same slots in
    elim (Bool-cases (slot.force_disconnect && not slot.client_data.active)) [
      | inl e ↦ rw e (record {
        width = ap suc rest.width;
        sessions = ap (λ (n : ℕ). one slot.client_data.active + n) rest.sessions;
        few = λ (this, all). (this, rest.few all);
      })
      | inr e ↦ rw e (record {
        width = ap suc rest.width;
        sessions = ap (λ (n : ℕ). one slot.client_data.active + n) rest.sessions;
        few = λ (this, all). (this, rest.few all);
      })
    ]

-- The search fails just if every slot has a session.
pub record Occupied (slots slots' : List Slot) : Type 0 where
  pub width : length slots' ≡ length slots
  pub sessions : busy slots' ≡ suc (busy slots)
  pub few : All AtMostTen slots → All AtMostTen slots'

pub occupy-Occupied :
    (slots : List Slot) (a b c : ℤ)
    → ((occupy slots a b c ≡ none) × (busy slots ≡ length slots))
      ⊎ ((slots' : List Slot) × (occupy slots a b c ≡ some slots') × Occupied slots slots')
unfolding occupy busy
occupy-Occupied [] a b c = inl (refl, refl)
occupy-Occupied (slot ∷ slots) a b c = elim (Bool-cases slot.client_data.active) [
  | inr free ↦ inr (
    occupied slot a b c ∷ slots,
    rw free,
    record { width = refl; sessions = rw free (omega arith); few = λ all. all },
  )
  | inl taken ↦ elim (occupy-Occupied slots a b c) [
    | inl (e, full) ↦ inl (rw (taken, e), rw taken (omega arith))
    | inr (slots', e, o) ↦ inr (
      slot ∷ slots',
      simp (taken, e),
      record {
        width = ap suc o.width;
        sessions = let more = o.sessions in omega arith;
        few = λ (this, all). (this, o.few all);
      },
    )
  ]
]
