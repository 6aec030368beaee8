-- ===== src/Slots/Invariant.antt =====
-- What holds of the sessions of src/server/client.c in every state that the server can reach.
use so_proj.Base.{
  ℕ, suc, ◌+◌, ◌<◌, ◌≡◌, inl, inr, refl, sym, ap, ◌∙◌, subst, true, false, ◌||◌, List, Option, none,
  some, arith, ◌==◌, Bool-cases, length, length-set, All, Bytes, Ensures-ok, ℤ, pos, at_least,
}
use so_proj.Operations.{register_write_callback, register_delete_callback}
use so_proj.Coperations.{max_session_count, max_number_sub}
use so_proj.Coperations.Tables.{IsSubscriptions, create_int_hash_table-empty}
use so_proj.Session.{ClientData, register_callbacks}
use so_proj.Session.Bounds.{IsSession, Freed}
use so_proj.Threads.{Thread, round, part}
use so_proj.Threads.Rounds.{RoundFits, round-RoundFits, Over, part-Over}
use so_proj.Slots.{
  init_slots, Slot, Server, all_start, start_client_threads, is_invalid, activate_client, thread_of,
  put, slot_at, Step, Reach,
}
use so_proj.Slots.Counting.{
  one, busy, busy-replicate, AtMostTen, busy-set, All-set, All-get, Same, force_all-Same,
  release_all-Same, occupy-Occupied,
}

-- There are eight slots, of which those without a session are counted by the semaphore; no client
-- counts more than ten keys; the table of the subscriptions is well formed.
pub record IsServer (s : Server) : Type 0 where
  pub width : length s.clients_data ≡ max_session_count
  pub balance : s.store.world.client_sem + busy s.clients_data ≡ max_session_count
  pub few : All AtMostTen s.clients_data
  pub table : IsSubscriptions s.store.world.subscribed_keys

-- The call of `activate_client` for valid descriptors: it waits just while all eight slots have a
-- session; else it starts one and returns 0.
abbrev pub Activated : Server → Option (Server × ℤ) → Type 0
Activated s none = busy s.clients_data ≡ max_session_count
Activated s (some (s', returned)) =
    (returned ≡ pos 0) × IsServer s' × (busy s'.clients_data ≡ suc (busy s.clients_data))

abbrev pub AreValid : ℤ → ℤ → ℤ → Type 0
AreValid a b c = (is_invalid a || (is_invalid b || is_invalid c)) ≡ false

pub activate_client-Activated :
    (s : Server) (a b c : ℤ) → AreValid a b c → IsServer s → Activated s (activate_client s a b c)
unfolding activate_client
activate_client-Activated s a b c valid h =
    let balance = h.balance in
    let width = h.width in
    elim (Bool-cases (s.store.world.client_sem == 0)) [
      | inl full ↦ rw full (ground arith)
      | inr room ↦ elim (occupy-Occupied s.clients_data a b c) [
        | inl (_, all_busy) ↦ absurd (ground arith)
        | inr (slots', e, o) ↦
            rw (room, e, valid)
              (
                refl,
                record {
                  width = o.width ∙ width;
                  balance = let more = o.sessions in ground arith;
                  few = o.few h.few;
                  table = h.table;
                },
                o.sessions,
              )
      ]
    ]

slot-IsSession :
    (s : Server) (i : ℕ)
    → IsServer s
    → (slot_at s i).client_data.active ≡ true
    → IsSession s.store.world.client_sem s.store.world (slot_at s i).client_data
slot-IsSession s i h on = record {
  table = h.table;
  active = on;
  free = refl;
  few = All-get s.clients_data i h.few;
}

abbrev FreedOf : ℕ → Option Thread → Type 0
FreedOf sem none = ⊥
FreedOf sem (some t) = Freed sem (t.store.world, t.client_data)

over : {sem : ℕ} {t : Thread} → Over sem (some t) → Freed sem (t.store.world, t.client_data)
over {sem} (t', e, freed) = subst (λ (o : Option Thread). FreedOf sem o) (sym e) freed

same :
    (s : Server) (slots : List Slot)
    → IsServer s
    → Same s.clients_data slots
    → IsServer (record s { clients_data = slots })
same s slots h kept =
    let sessions = kept.sessions in
    let balance = h.balance in
    record {
      width = kept.width ∙ h.width;
      balance = omega arith;
      few = kept.few h.few;
      table = h.table;
    }

-- A thread leaves its slot as `t` has it.
put-IsServer :
    (s : Server) (i : ℕ) (t : Thread)
    → IsServer s
    → i < length s.clients_data
    → (slot_at s i).client_data.active ≡ true
    → t.store.world.client_sem + one t.client_data.active ≡ suc s.store.world.client_sem
    → AtMostTen (record { client_data = t.client_data; force_disconnect = false })
    → IsSubscriptions t.store.world.subscribed_keys
    → IsServer (put s i (slot_at s i) t)
put-IsServer s i t h lt on balance few table =
    let slot = slot_at s i in
    let new = record slot { client_data = t.client_data } in
    let before = h.balance in
    let busy_now = busy-set s.clients_data i new lt in
    let was : one slot.client_data.active ≡ 1 = ap one on in
    record {
      width = length-set s.clients_data i new ∙ h.width;
      balance = omega arith;
      few = All-set s.clients_data i new h.few few;
      table = table;
    }

serve-IsServer :
    (s : Server) (i : ℕ) (input : Bytes) (t : Thread)
    → IsServer s
    → i < length s.clients_data
    → (slot_at s i).client_data.active ≡ true
    → RoundFits s.store.world.client_sem input (none, t)
    → IsServer (put s i (slot_at s i) t)
serve-IsServer s i input t h lt on (kept, _) =
    let free = kept.free in
    let active = ap one kept.active in put-IsServer s i t h lt on (omega arith) kept.few kept.table

Freed-IsServer :
    (s : Server) (i : ℕ) (t : Thread)
    → IsServer s
    → i < length s.clients_data
    → (slot_at s i).client_data.active ≡ true
    → Freed s.store.world.client_sem (t.store.world, t.client_data)
    → IsServer (put s i (slot_at s i) t)
Freed-IsServer s i t h lt on (table, free, slot) =
    let inactive = ap (λ (c : ClientData). one c.active) slot in
    put-IsServer s i t h lt on (omega arith)
      (ap (λ (c : ClientData). at_least (suc max_number_sub) c.num_keys) slot) table

pub Step-IsServer : {s s' : Server} → Step s s' → IsServer s → IsServer s'
Step-IsServer {s} {s'} (Step.connect a b c returned valid ran) h =
    (subst (Activated s) ran (activate_client-Activated s a b c valid h)).1
Step-IsServer {s} (Step.serve i input t lt on ran e) h =
    let slot = slot_at s i in
    let fits =
      Ensures-ok (RoundFits s.store.world.client_sem input)
        (round slot.force_disconnect (thread_of s slot input) input)
        (round-RoundFits s.store.world.client_sem (thread_of s slot input) (slot-IsSession s i h on)
          slot.force_disconnect input)
        ran in
    subst IsServer (sym e) (serve-IsServer s i input t h lt on fits)
Step-IsServer {s} (Step.leave i input fail t t' lt on ran parted e) h =
    let slot = slot_at s i in
    let fits =
      Ensures-ok (RoundFits s.store.world.client_sem input)
        (round slot.force_disconnect (thread_of s slot input) input)
        (round-RoundFits s.store.world.client_sem (thread_of s slot input) (slot-IsSession s i h on)
          slot.force_disconnect input)
        ran in
    subst IsServer (sym e) (
      Freed-IsServer s i t' h lt on (
        over
          (Ensures-ok _ (part fail t) (part-Over s.store.world.client_sem fail t fits.0) parted)))
Step-IsServer {s} (Step.refuse i input t lt on parted e) h =
    let slot = slot_at s i in
    subst IsServer (sym e) (
      Freed-IsServer s i t h lt on (
        over (
          Ensures-ok _ (part false (thread_of s slot input))
            (part-Over s.store.world.client_sem false (thread_of s slot input)
              (slot-IsSession s i h on))
            parted)))
Step-IsServer {s} (Step.force e) h =
    subst IsServer (sym e) (same s _ h (force_all-Same s.clients_data))
Step-IsServer {s} (Step.release e) h =
    subst IsServer (sym e) (same s _ h (release_all-Same s.clients_data))
Step-IsServer {s} (Step.job table sent e) h =
    subst IsServer (sym e)
      (record { width = h.width; balance = h.balance; few = h.few; table = h.table })

Reach-IsServer : {s t : Server} → IsServer s → Reach s t → IsServer t
Reach-IsServer h Reach.here = h
Reach-IsServer h (Reach.next r st) = Step-IsServer st (Reach-IsServer h r)

pub start_client_threads-IsServer :
    (s : Server) (found : ℕ → List ℤ)
    → ((i : ℕ) → length (found i) ≡ max_session_count)
    → IsServer (start_client_threads s true true all_start found).0
unfolding start_client_threads init_slots register_callbacks register_write_callback
    register_delete_callback
start_client_threads-IsServer s found wide = record {
  width = refl;
  balance = ap (λ (n : ℕ). max_session_count + n) (busy-replicate max_session_count);
  few = (refl, (refl, (refl, (refl, (refl, (refl, (refl, (refl, tt))))))));
  table = (create_int_hash_table-empty found wide).0;
}

-- In every state that the server can reach from its start, by connections, requests, ends of
-- sessions, signals and jobs in any order, there are eight slots, those without a session are as
-- many as the semaphore counts, no client counts more than ten keys, and the table of the
-- subscriptions is well formed.
Reach-start_client_threads :
    (s t : Server) (found : ℕ → List ℤ)
    → ((i : ℕ) → length (found i) ≡ max_session_count)
    → Reach (start_client_threads s true true all_start found).0 t
    → IsServer t
Reach-start_client_threads s t found wide =
    Reach-IsServer (start_client_threads-IsServer s found wide)

-- So a connection with valid descriptors never finds the slots full: in every reachable state
-- `activate_client` either waits, and then all eight slots have a session, or returns 0 with one
-- session more.
pub activate_client_finds :
    (s t : Server) (found : ℕ → List ℤ) (a b c : ℤ)
    → ((i : ℕ) → length (found i) ≡ max_session_count)
    → Reach (start_client_threads s true true all_start found).0 t
    → AreValid a b c
    → Activated t (activate_client t a b c)
activate_client_finds s t found a b c wide r valid =
    activate_client-Activated t a b c valid (Reach-start_client_threads s t found wide r)
