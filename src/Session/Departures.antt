-- ===== src/Session/Departures.antt =====
-- What the end of a subscription or of a session in src/server/client.c leaves of the others.
use so_proj.Base.{
  ℕ, zero, suc, ◌+◌, ◌≤◌, ◌<◌, ◌≡◌, ◌≢◌, ◌⊎◌, refl, ap, ◌∙◌, inl, inr, Bool, true, false, List, [],
  arith, leb, Bool-cases, get_or, Bytes, Returns, ℤ, int_equal_iff,
}
use so_proj.Coperations.{max_number_sub, IntHashTable, remove_key, get_fds}
use so_proj.Coperations.Nodes.{count}
use so_proj.Coperations.Tables.{IsSubscriptions, remove_key-get_fds}
use so_proj.Session.{
  World, ClientData, write_all, respond, rounds, free_slot, rounds, forget_keys, disconnect_client,
}

-- `new` is a table that differs from `old` at most in the occurrences of `fd`, of which it has no more.
pub record Releases (fd : ℤ) (old new : IntHashTable) : Type 0 where
  pub table : IsSubscriptions new
  pub others : (w : ℤ) (q : Bytes) → w ≢ fd → count w (get_fds new q) ≡ count w (get_fds old q)
  pub own : (q : Bytes) → count fd (get_fds new q) ≤ count fd (get_fds old q)

none_or_some : (n : ℕ) → (n ≡ 0) ⊎ (0 < n)
none_or_some n = ground arith

pub remove_key-Releases :
    (ht : IntHashTable) (key : Bytes) (fd : ℤ)
    → IsSubscriptions ht
    → Releases fd ht (remove_key ht key fd).0
remove_key-Releases ht key fd t =
    let (table, removes, keeps) = remove_key-get_fds ht key fd t in
    elim (none_or_some (count fd (get_fds ht key))) [
      | inl absent ↦ record {
        table = table;
        others = λ w q ne. ap (count w) ((keeps absent).1 q);
        own = λ q. rw ((keeps absent).1 q) (omega arith);
      }
      | inr here ↦ record {
        table = table;
        others = λ w q ne. let same = (removes here).1 q w in ground (arith, int_equal_iff fd w);
        own = λ q. let same = (removes here).1 q fd in ground arith;
      }
    ]

Releases-trans :
    (fd : ℤ) (a b c : IntHashTable) → Releases fd a b → Releases fd b c → Releases fd a c
Releases-trans fd a b c ab bc = record {
  table = bc.table;
  others = λ w q ne. bc.others w q ne ∙ ab.others w q ne;
  own = λ q. let one = ab.own q in let two = bc.own q in omega arith;
}

forget_keys-Releases :
    (left i : ℕ) (ht : IntHashTable) (keys : List Bytes) (fd : ℤ)
    → IsSubscriptions ht
    → i + left ≤ max_number_sub
    → Returns (forget_keys left i ht keys fd) (Releases fd ht)
unfolding forget_keys
forget_keys-Releases zero i ht keys fd t le =
    (ht, refl, record { table = t; others = λ w q ne. refl; own = λ q. omega arith })
forget_keys-Releases (suc left) i ht keys fd t le =
    let in_range : leb max_number_sub i ≡ false = ground arith in
    let first = remove_key-Releases ht (get_or keys i []) fd t in
    let (ht', ran, then_) =
      forget_keys-Releases left (i + 1) (remove_key ht (get_or keys i []) fd).0 keys fd first.table
        (omega arith) in
    (ht', rw (in_range, ran), Releases-trans fd ht _ ht' first then_)

respond-shared :
    (w : World) (c : ClientData) (cdisconnected : Bool)
    → ((respond w c cdisconnected).subscribed_keys ≡ w.subscribed_keys)
      × ((respond w c cdisconnected).client_sem ≡ w.client_sem)
unfolding respond write_all
respond-shared w c true = (refl, refl)
respond-shared w c false = elim (Bool-cases (w.accepts c.response_fd)) [
  | inl e ↦ rw e (refl, refl)
  | inr ne ↦ rw ne (refl, refl)
]

-- What the end of a session leaves: a free slot, one more count of the semaphore.
pub record Departed (w : World) (c : ClientData) (r : World × ClientData) : Type 0 where
  pub releases : Releases c.notification_fd w.subscribed_keys r.0.subscribed_keys
  pub free : r.0.client_sem ≡ w.client_sem + 1
  pub slot : r.1 ≡ free_slot

-- With at most ten keys counted, `disconnect_client` returns: the client's slot is free and the
-- semaphore counts one more free session. No other descriptor gains or loses a subscription to any
-- key, not even to one whose hash a key of the client's has, and the client's own gains none.
pub disconnect_client-Departed :
    (w : World) (client_data : ClientData) (cdisconnected : Bool)
    → IsSubscriptions w.subscribed_keys
    → rounds client_data.num_keys ≤ max_number_sub
    → Returns (disconnect_client w client_data cdisconnected) (Departed w client_data)
unfolding disconnect_client
disconnect_client-Departed w client_data cdisconnected t le =
    let w1 = respond w client_data cdisconnected in
    let (kept, sem) = respond-shared w client_data cdisconnected in
    let (ht', ran, released) =
      forget_keys-Releases (rounds client_data.num_keys) 0 w.subscribed_keys client_data.keys
        client_data.notification_fd t (omega arith) in
    (
      (record w1 { subscribed_keys = ht'; client_sem = w1.client_sem + 1 }, free_slot),
      rw (kept, ran),
      record { releases = released; free = rw sem; slot = refl },
    )
