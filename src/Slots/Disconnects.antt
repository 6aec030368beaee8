-- ===== src/Slots/Disconnects.antt =====
-- `disconnect_all_clients` of src/server/client.c with the threads of the sessions beside it.
use so_proj.Base.{
  ℕ, zero, suc, ◌+◌, ◌-◌, ◌≤◌, ◌<◌, ◌≡◌, refl, true, false, ◌&&◌, List, [], ◌∷◌, arith, length,
  get_or, set, All,
}
use so_proj.Slots.Counting.{one}
use so_proj.Slots.{
  Slot, Server, Step, empty_slot, force_all, release_all, connect, serve, leave, refuse, force,
  release, job,
}

-- The slots that are told to end.
unfoldable pub forced : List Slot → ℕ
forced [] = 0
forced (slot ∷ slots) = one slot.force_disconnect + forced slots

-- A step of a thread of a session, or of a job.
abbrev pub IsThread : {s s' : Server} → Step s s' → Type 0
IsThread (connect _ _ _ _ _ _) = ⊥
IsThread (serve _ _ _ _ _ _ _) = Unit
IsThread (leave _ _ _ _ _ _ _ _ _ _) = Unit
IsThread (refuse _ _ _ _ _ _ _) = Unit
IsThread (force _) = ⊥
IsThread (release _) = ⊥
IsThread (job _ _ _) = Unit

-- The call from the state `s`: the state, and `waiting_disconnects`. The first loop, and then
-- the rounds of the second while the count is above 0, with steps of the threads between them.
pub data Disconnects (s : Server) : Server → ℕ → Type 0 where
  tells :
      Disconnects s
        (record s { clients_data = (force_all s.clients_data).0 })
        (force_all s.clients_data).1
  meanwhile :
      {t u : Server} {n : ℕ}
      → Disconnects s t n
      → (step : Step t u) → IsThread step
      → Disconnects s u n
  looks :
      {t : Server} {n : ℕ}
      → Disconnects s t n
      → 0 < n
      → Disconnects s
          (record t { clients_data = (release_all t.clients_data).0 })
          (n - (release_all t.clients_data).1)

forced-set :
    (slots : List Slot) (i : ℕ) (x : Slot)
    → i < length slots
    → x.force_disconnect ≡ (get_or slots i empty_slot).force_disconnect
    → forced (set slots i x) ≡ forced slots
unfolding forced
forced-set [] i x lt same = absurd (omega arith)
forced-set (slot ∷ slots) zero x lt same = rw same refl
forced-set (slot ∷ slots) (suc i) x lt same = omega (arith, forced-set slots i x (omega arith) same)

forced-force_all :
    (slots : List Slot) → forced slots ≡ 0 → forced (force_all slots).0 ≡ (force_all slots).1
unfolding forced force_all
forced-force_all [] none_forced = refl
forced-force_all (slot ∷ slots) none_forced = ground (arith, forced-force_all slots (omega arith))

forced-release_all :
    (slots : List Slot) → forced (release_all slots).0 + (release_all slots).1 ≡ forced slots
unfolding forced release_all
forced-release_all [] = refl
forced-release_all (slot ∷ slots) = ground (arith, forced-release_all slots)

-- A slot that is told to end and whose session has not ended yet.
abbrev pub Lingers : Slot → Type 0
Lingers slot = (slot.force_disconnect && slot.client_data.active) ≡ true

abbrev pub HasEnded : Slot → Type 0
HasEnded slot = (slot.force_disconnect && slot.client_data.active) ≡ false

release_all-ended : (slots : List Slot) → All HasEnded slots → (release_all slots).1 ≡ forced slots
unfolding forced release_all
release_all-ended [] all = refl
release_all-ended (slot ∷ slots) (ended, all) = ground (arith, release_all-ended slots all)

release_all-Lingers :
    (slots : List Slot) (i : ℕ)
    → Lingers (get_or slots i empty_slot)
    → (release_all slots).1 < forced slots
unfolding forced release_all
release_all-Lingers [] i on = absurd cc
release_all-Lingers (slot ∷ slots) zero on = ground (arith, forced-release_all slots)
release_all-Lingers (slot ∷ slots) (suc i) on = ground (arith, release_all-Lingers slots i on)

thread-forced :
    {s s' : Server} (step : Step s s')
    → IsThread step
    → forced s'.clients_data ≡ forced s.clients_data
thread-forced {s} (serve i input t lt active ran e) is =
    rw e (forced-set s.clients_data i _ lt refl)
thread-forced {s} (leave i input fail t t' lt active ran parts e) is =
    rw e (forced-set s.clients_data i _ lt refl)
thread-forced {s} (refuse i input t lt active parts e) is =
    rw e (forced-set s.clients_data i _ lt refl)
thread-forced (job table sent e) is = rw e refl
thread-forced (connect _ _ _ _ _ _) is = absurd is
thread-forced (force _) is = absurd is
thread-forced (release _) is = absurd is

Disconnects-forced :
    {s t : Server} {n : ℕ}
    → forced s.clients_data ≡ 0
    → Disconnects s t n
    → forced t.clients_data ≡ n
Disconnects-forced {s} none_forced tells = forced-force_all s.clients_data none_forced
Disconnects-forced none_forced (meanwhile before step is) =
    rw (thread-forced step is) (Disconnects-forced none_forced before)
Disconnects-forced none_forced (looks {t} before lt) =
    omega (arith, Disconnects-forced none_forced before, forced-release_all t.clients_data)

-- What the second loop of `disconnect_all_clients` finds in the slots, when it counts `n`.
pub record Awaits (slots : List Slot) (n : ℕ) : Type 0 where
  pub counted : forced slots ≡ n
  pub enough : (release_all slots).1 ≤ n
  pub all_ended : All HasEnded slots → (release_all slots).1 ≡ n
  pub lingers : (i : ℕ) → Lingers (get_or slots i empty_slot) → (release_all slots).1 < n

-- If no session was told to end before a call of `disconnect_all_clients`, then at each point of
-- its second loop, whatever the threads have done since, `waiting_disconnects` is the number of
-- slots that are told to end. A round does not count below 0. It counts to 0, which ends the call,
-- if the sessions of all these slots have ended; as long as one of them has not, it stays above 0.
pub Disconnects-Awaits :
    (s t : Server) (n : ℕ) → forced s.clients_data ≡ 0 → Disconnects s t n → Awaits t.clients_data n
Disconnects-Awaits s t n none_forced run =
    let counted = Disconnects-forced none_forced run in
    let slots = t.clients_data in
    record {
      counted = counted;
      enough = omega (arith, counted, forced-release_all slots);
      all_ended = λ all. omega (arith, counted, release_all-ended slots all);
      lingers = λ i on. omega (arith, counted, release_all-Lingers slots i on);
    }
