-- ===== src/Slots.antt =====
-- The eight slots of src/server/client.c: how sessions start, are told to end, and end.
-- A slot's mutex and `listc_mutex` make each function here one step, but for the wait of
-- `disconnect_all_clients` between its two loops, in which the threads go on.
pub mod Counting
pub mod Invariant
pub mod Disconnects
use so_proj.Base.{
  ℕ, zero, suc, ◌+◌, ◌-◌, ◌<◌, ◌≡◌, Bool, true, false, ◌||◌, ◌&&◌, not, List, [], ◌∷◌, Option, none,
  some, if◌then◌else◌, length, get_or, set, replicate, Bytes, Run, ok, ◌==◌, ℤ, pos, negsuc,
  int_equal,
}
use so_proj.Kvs.{HashTable}
use so_proj.Operations.{Store}
use so_proj.Coperations.{max_session_count, IntHashTable, create_int_hash_table}
use so_proj.Session.{World, ClientData, free_slot, register_callbacks}
use so_proj.Threads.{Thread, round, part}

pub record Slot : Type 0 where
  pub client_data : ClientData
  pub force_disconnect : Bool

abbrev pub empty_slot : Slot
empty_slot = record { client_data = free_slot; force_disconnect = false }

-- The store with its world, and `clients_data`.
pub record Server : Type 0 where
  pub store : Store World
  pub clients_data : List Slot

-- The slots that the loop of `start_client_threads` comes to from the `i`th on, with `left` to go,
-- and the number returned. `starts` tells of each slot whether its mutex, its condition variable and
-- its thread can be made; the first that cannot ends the loop.
unfoldable pub init_slots : (ℕ → Bool) → ℕ → ℕ → List Slot × ℕ
init_slots starts i zero = ([], 0)
init_slots starts i (suc left) =
    let (slots, failed) = init_slots starts (i + 1) left in
    if starts i then (empty_slot ∷ slots, failed) else (empty_slot ∷ [], 1)

abbrev pub all_start : ℕ → Bool
all_start _ = true

-- `found` is what `malloc` finds in the new table. The flags tell whether `sem_init` and the
-- allocation of the table succeed.
unfoldable pub start_client_threads : Server → Bool → Bool → (ℕ → Bool) → (ℕ → List ℤ) → Server × ℕ
start_client_threads s sem_made allocated starts found =
    let w = s.store.world in
    let counted = record w { client_sem = max_session_count } in
    let ready = record w {
      client_sem = max_session_count;
      subscribed_keys = create_int_hash_table found;
    } in
    let store = s.store in
    let (slots, failed) = init_slots starts 0 max_session_count in
    if sem_made
    then (if allocated
        then (
          record {
            store = register_callbacks (record store { world = ready });
            clients_data = slots;
          },
          failed,
        )
        else (record s { store = record store { world = counted } }, 1))
    else (s, 1)

abbrev pub occupied : Slot → ℤ → ℤ → ℤ → Slot
occupied slot request_fd response_fd notification_fd =
    let c = slot.client_data in
    record slot {
      client_data = record c {
        request_fd = request_fd;
        response_fd = response_fd;
        notification_fd = notification_fd;
        active = true;
      };
    }

-- The search for a slot that is free: the slots afterwards, or `none` for -1.
unfoldable pub occupy : List Slot → ℤ → ℤ → ℤ → Option (List Slot)
occupy [] request_fd response_fd notification_fd = none
occupy (slot ∷ slots) request_fd response_fd notification_fd =
    if slot.client_data.active
    then elim (occupy slots request_fd response_fd notification_fd) [
      | none ↦ none
      | some slots' ↦ some (slot ∷ slots')
    ]
    else some (occupied slot request_fd response_fd notification_fd ∷ slots)

abbrev pub is_invalid : ℤ → Bool
is_invalid fd = int_equal fd (negsuc 0)

-- The call waits while the semaphore stands at 0: the result is `none`. A free slot is looked for
-- before the descriptors are.
unfoldable pub activate_client : Server → ℤ → ℤ → ℤ → Option (Server × ℤ)
unfolding occupy
activate_client s request_fd response_fd notification_fd =
    let w = s.store.world in
    let store = s.store in
    let waited = record store { world = record w { client_sem = w.client_sem - 1 } } in
    if w.client_sem == 0
    then none
    else elim (occupy s.clients_data request_fd response_fd notification_fd) [
      | none ↦ some (record s { store = waited }, negsuc 0)
      | some slots ↦ some (
          if is_invalid request_fd || (is_invalid response_fd || is_invalid notification_fd)
          then (record s { store = waited }, pos 1)
          else (record { store = waited; clients_data = slots }, pos 0))
    ]

-- The two loops of `disconnect_all_clients`, the second in one round: with the slots come how many
-- are told to end, and how many have.
unfoldable pub force_all : List Slot → List Slot × ℕ
force_all [] = ([], 0)
force_all (slot ∷ slots) =
    let (slots', waiting) = force_all slots in
    if slot.client_data.active
    then (record slot { force_disconnect = true } ∷ slots', suc waiting)
    else (slot ∷ slots', waiting)

unfoldable pub release_all : List Slot → List Slot × ℕ
release_all [] = ([], 0)
release_all (slot ∷ slots) =
    let (slots', ended) = release_all slots in
    if slot.force_disconnect && not slot.client_data.active
    then (record slot { force_disconnect = false } ∷ slots', suc ended)
    else (slot ∷ slots', ended)

-- The thread of a slot, with what its client has written.
abbrev pub thread_of : Server → Slot → Bytes → Thread
thread_of s slot input = record { store = s.store; client_data = slot.client_data; input = input }

abbrev pub put : Server → ℕ → Slot → Thread → Server
put s i slot t = record {
  store = t.store;
  clients_data = set s.clients_data i (record slot { client_data = t.client_data });
}

abbrev pub slot_at : Server → ℕ → Slot
slot_at s i = get_or s.clients_data i empty_slot

-- One step of the server: a client connects, a thread serves a request or comes to the end of its
-- session (a response to the connection that cannot be sent ends it, too), SIGUSR1 tells the
-- sessions to end, its handler sees which have, or a job changes the table of the store and sends
-- notifications.
pub data Step (s s' : Server) : Type 0 where
  connect :
      (request_fd response_fd notification_fd : ℤ) (returned : ℤ)
      → (is_invalid request_fd || (is_invalid response_fd || is_invalid notification_fd)) ≡ false
      → activate_client s request_fd response_fd notification_fd ≡ some (s', returned)
      → Step s s'
  serve :
      (i : ℕ) (input : Bytes) (t : Thread)
      → i < length s.clients_data
      → (slot_at s i).client_data.active ≡ true
      → round (slot_at s i).force_disconnect (thread_of s (slot_at s i) input) input ≡ ok (none, t)
      → s' ≡ put s i (slot_at s i) t
      → Step s s'
  leave :
      (i : ℕ) (input : Bytes) (fail : Bool) (t t' : Thread)
      → i < length s.clients_data
      → (slot_at s i).client_data.active ≡ true
      → round (slot_at s i).force_disconnect (thread_of s (slot_at s i) input) input
        ≡ ok (some fail, t)
      → part fail t ≡ ok (some t')
      → s' ≡ put s i (slot_at s i) t'
      → Step s s'
  refuse :
      (i : ℕ) (input : Bytes) (t : Thread)
      → i < length s.clients_data
      → (slot_at s i).client_data.active ≡ true
      → part false (thread_of s (slot_at s i) input) ≡ ok (some t)
      → s' ≡ put s i (slot_at s i) t
      → Step s s'
  force : s' ≡ record s { clients_data = (force_all s.clients_data).0 } → Step s s'
  release : s' ≡ record s { clients_data = (release_all s.clients_data).0 } → Step s s'
  job :
      (table : Option HashTable) (sent : List (ℤ × Bytes))
      → s' ≡ (
          let store = s.store in
          let w = s.store.world in
          record s { store = record store { kvs_table = table; world = record w { sent = sent } } })
      → Step s s'

pub data Reach (s : Server) : Server → Type 0 where
  here : Reach s s
  next : {t u : Server} → Reach s t → Step t u → Reach s u
