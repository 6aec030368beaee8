-- ===== src/Session/Bounds.antt =====
-- What holds of a session of src/server/client.c between two requests, and where its list of keys
-- is left.
use so_proj.Base.{
  ℕ, zero, suc, ◌≤◌, ◌≡◌, inl, inr, refl, ◌∙◌, Bool, true, false, List, arith, ◌==◌, Bool-cases,
  Bytes, Run, ok, fault, ◌>>=◌, Ensures, Returns, Ensures-bind, ℤ, pos, negsuc, increment,
  decrement, at_least,
}
use so_proj.Operations.{Store, kvs_key_exists}
use so_proj.Coperations.{
  max_number_sub, add_key_to_subscribed_list, remove_key_from_subscribed_list,
}
use so_proj.Coperations.Tables.{IsSubscriptions, add_key-get_fds}
use so_proj.Session.{
  World, ClientData, rounds, free_slot, disconnect_client, write_all, enlist, unlist, try_subscribe,
  client_subscribe_key, client_unsubscribe_key,
}
use so_proj.Session.Departures.{remove_key-Releases, disconnect_client-Departed}
use so_proj.Session.Subscriptions.{write_all-messages}

-- What holds of a running session between two requests: the table of the subscriptions is well formed,
-- at most ten keys are counted, and the semaphore stands at `sem`.
pub record IsSession (sem : ℕ) (w : World) (c : ClientData) : Type 0 where
  pub table : IsSubscriptions w.subscribed_keys
  pub active : c.active ≡ true
  pub free : w.client_sem ≡ sem
  pub few : at_least (suc max_number_sub) c.num_keys ≡ false

increment_few :
    (z : ℤ)
    → at_least max_number_sub z ≡ false
    → at_least (suc max_number_sub) (increment z) ≡ false
increment_few (pos n) h = ground arith
increment_few (negsuc zero) h = refl
increment_few (negsuc (suc n)) h = refl

decrement_few :
    (z : ℤ)
    → at_least (suc max_number_sub) z ≡ false
    → at_least (suc max_number_sub) (decrement z) ≡ false
decrement_few (pos zero) h = refl
decrement_few (pos (suc n)) h = ground arith
decrement_few (negsuc n) h = refl

-- The outcome of a request, before the answer.
abbrev Kept : ℕ → World × ClientData × Bool → Type 0
Kept sem (w, c, fail) = IsSession sem w c

enlist-Kept :
    (sem : ℕ) (w : World) (c : ClientData) (key : Bytes) (added : List Bytes × ℕ)
    → IsSession sem w c
    → at_least max_number_sub c.num_keys ≡ false
    → Kept sem (enlist w c key added)
enlist-Kept sem w c key (keys', zero) h free = record {
  table = (add_key-get_fds w.subscribed_keys key c.notification_fd h.table).0;
  active = h.active;
  free = h.free;
  few = increment_few c.num_keys free;
}
enlist-Kept sem w c key (keys', suc _) h free = h

unlist-Kept :
    (sem : ℕ) (w : World) (c : ClientData) (key : Bytes) (removed : List Bytes × ℕ)
    → IsSession sem w c
    → Kept sem (unlist w c key removed)
unlist-Kept sem w c key (keys', zero) h = record {
  table = (remove_key-Releases w.subscribed_keys key c.notification_fd h.table).table;
  active = h.active;
  free = h.free;
  few = decrement_few c.num_keys h.few;
}
unlist-Kept sem w c key (keys', suc _) h = h

pub write_all-IsSession :
    (sem : ℕ) (w : World) (c : ClientData) (fd : ℤ) (bytes : Bytes)
    → IsSession sem w c
    → IsSession sem (write_all w fd bytes).0 c
write_all-IsSession sem w c fd bytes h =
    rw (write_all-messages w fd bytes)
      (record { table = h.table; active = h.active; free = h.free; few = h.few })

added-Kept :
    (sem : ℕ) (w : World) (c : ClientData) (key : Bytes) (r : Run (List Bytes × ℕ))
    → IsSession sem w c
    → at_least max_number_sub c.num_keys ≡ false
    → Ensures (Kept sem) (r >>= λ added. ok (enlist w c key added))
added-Kept sem w c key (ok added) h free = enlist-Kept sem w c key added h free
added-Kept sem w c key (fault _) h free = tt

exists-Kept :
    (sem : ℕ) (s : Store World) (c : ClientData) (key : Bytes) (r : Run ℕ)
    → kvs_key_exists s key ≡ r
    → IsSession sem s.world c
    → Ensures (Kept sem) (try_subscribe s c key)
unfolding try_subscribe
exists-Kept sem s c key (fault _) e h = rw e tt
exists-Kept sem s c key (ok (suc n)) e h =
    let no : (suc n == 0) ≡ false = ground arith in rw (e, ◌>>=◌, no) h
exists-Kept sem s c key (ok zero) e h = elim (Bool-cases (at_least max_number_sub c.num_keys)) [
  | inl full ↦ rw (e, ◌>>=◌, full) h
  | inr free ↦
      rw (e, ◌>>=◌, free)
        (added-Kept sem s.world c key (add_key_to_subscribed_list key c.keys c.num_keys) h free)
]

-- Every subscription request that returns keeps the session well formed.
pub client_subscribe_key-IsSession :
    (sem : ℕ) (s : Store World) (c : ClientData) (key : Bytes)
    → IsSession sem s.world c
    → Ensures
        (λ (r : Store World × ClientData). IsSession sem r.0.world r.1)
        (client_subscribe_key s c key)
unfolding client_subscribe_key
client_subscribe_key-IsSession sem s c key h =
    Ensures-bind (Kept sem) _ (try_subscribe s c key) _
      (exists-Kept sem s c key (kvs_key_exists s key) refl h)
      λ (w, c', fail) kept. write_all-IsSession sem w c' c.response_fd _ kept

-- So does every other one.
pub client_unsubscribe_key-IsSession :
    (sem : ℕ) (w : World) (c : ClientData) (key : Bytes)
    → IsSession sem w c
    → let r = client_unsubscribe_key w c key in IsSession sem r.0 r.1
unfolding client_unsubscribe_key
client_unsubscribe_key-IsSession sem w c key h =
    let removed = remove_key_from_subscribed_list key c.keys c.num_keys in
    let after = unlist w c key removed in
    write_all-IsSession sem after.0 after.1 c.response_fd _ (unlist-Kept sem w c key removed h)

rounds-le : (z : ℤ) → at_least (suc max_number_sub) z ≡ false → rounds z ≤ max_number_sub
rounds-le (pos n) h = ground arith
rounds-le (negsuc n) h = omega arith

-- The end of a session leaves a free slot, one more free session and a well-formed table.
abbrev pub Freed : ℕ → World × ClientData → Type 0
Freed sem r = IsSubscriptions r.0.subscribed_keys × (r.0.client_sem ≡ suc sem) × (r.1 ≡ free_slot)

pub disconnect_client-Freed :
    (sem : ℕ) (w : World) (c : ClientData) (cdisconnected : Bool)
    → IsSession sem w c
    → Returns (disconnect_client w c cdisconnected) (Freed sem)
disconnect_client-Freed sem w c cdisconnected h =
    let (r, ran, d) =
      disconnect_client-Departed w c cdisconnected h.table (rounds-le c.num_keys h.few) in
    let free = h.free in (r, ran, (d.releases.table, d.free ∙ omega arith, d.slot))
