-- ===== src/Threads/Rounds.antt =====
-- `client_thread` of src/server/client.c comes to the end of a session, and frees its slot.
use so_proj.Base.{
  ℕ, zero, suc, ◌+◌, ◌<◌, ◌≡◌, ◌⊎◌, inl, inr, refl, Bool, true, false, [], ◌∷◌, Option, none, some,
  arith, ◌==◌, ◌||◌, leb, Bool-cases, length, length-drop, take, drop, Bytes, codes, until_nul, ok,
  Ensures, Ensures-bind,
}
use so_proj.Operations.{Store}
use so_proj.Coperations.{max_string_size}
use so_proj.Session.{World, ClientData, write_all, client_subscribe_key}
use so_proj.Session.Bounds.{
  IsSession, write_all-IsSession, client_subscribe_key-IsSession, client_unsubscribe_key-IsSession,
  Freed, disconnect_client-Freed,
}
use so_proj.Threads.{
  Thread, Round, subscribe_round, unsubscribe_round, key_round, op_round, round, loop, part,
  loop_ends, client_thread,
}

abbrev pub IsThread : ℕ → Thread → Type 0
IsThread sem t = IsSession sem t.store.world t.client_data

-- A round ends the session or leaves less input than it found; the session stays well formed.
abbrev pub RoundFits : ℕ → Bytes → Round → Type 0
RoundFits sem input r =
    IsThread sem r.1
    × (((fail : Bool) × (r.0 ≡ some fail)) ⊎ ((r.0 ≡ none) × (length r.1.input < length input)))

module _ (sem : ℕ) (t : Thread) (h : IsThread sem t) where
  subscribe_round-RoundFits :
      (key rest input : Bytes)
      → length rest < length input
      → Ensures (RoundFits sem input) (subscribe_round t key rest)
  subscribe_round-RoundFits key rest input lt =
      Ensures-bind (λ (r : Store World × ClientData). IsSession sem r.0.world r.1) _
        (client_subscribe_key t.store t.client_data key) _
        (client_subscribe_key-IsSession sem t.store t.client_data key h)
        λ r kept. (kept, inr (refl, lt))

  unsubscribe_round-RoundFits :
      (key rest input : Bytes)
      → length rest < length input
      → Ensures (RoundFits sem input) (unsubscribe_round t key rest)
  unsubscribe_round-RoundFits key rest input lt =
      (client_unsubscribe_key-IsSession sem t.store.world t.client_data key h, inr (refl, lt))

  key_round-RoundFits :
      (op c : ℕ) (input : Bytes) → Ensures (RoundFits sem (c ∷ input)) (key_round t op input)
  unfolding key_round
  key_round-RoundFits op c input =
      let shorter : length (drop max_string_size input) < suc (length input) =
        omega (arith, length-drop max_string_size input) in
      let key = until_nul (take max_string_size input) in
      elim (Bool-cases (leb max_string_size (length input))) [
        | inr gone ↦ rw gone (h, inl (true, refl))
        | inl whole ↦ elim (Bool-cases (op == b'3')) [
          | inl three ↦
              rw (whole, three)
                (subscribe_round-RoundFits key (drop max_string_size input) (c ∷ input) shorter)
          | inr other ↦
              rw (whole, other)
                (unsubscribe_round-RoundFits key (drop max_string_size input) (c ∷ input) shorter)
        ]
      ]

  pub round-RoundFits :
      (forced : Bool) (input : Bytes) → Ensures (RoundFits sem input) (round forced t input)
  unfolding round op_round
  round-RoundFits true input = (h, inl (true, refl))
  round-RoundFits false [] = (h, inl (true, refl))
  round-RoundFits false (op ∷ input) = elim (Bool-cases (op == b'2')) [
    | inl two ↦ rw two (h, inl (false, refl))
    | inr other ↦ elim (Bool-cases (op == b'3' || op == b'4')) [
      | inl keyed ↦ rw (other, keyed) (key_round-RoundFits op op input)
      | inr junk ↦ rw (other, junk) (h, inr (refl, omega arith))
    ]
  ]

-- The loop ends, with a well-formed session.
Looped : ℕ → Option (Bool × Thread) → Type 0
Looped sem r = (fail : Bool) × (t : Thread) × (r ≡ some (fail, t)) × IsThread sem t

next_round :
    (sem fuel : ℕ) (forces : ℕ → Bool) (k : ℕ) (input : Bytes) (r : Round)
    → RoundFits sem input r
    → (length r.1.input < length input → Ensures (Looped sem) (loop fuel forces (k + 1) r.1))
    → Ensures
        (Looped sem)
        (elim r.0 [ none ↦ loop fuel forces (k + 1) r.1 | some fail ↦ ok (some (fail, r.1)) ])
unfolding Looped
next_round sem fuel forces k input (ended, t) (h, inl (fail, e)) more = rw e (fail, t, refl, h)
next_round sem fuel forces k input (ended, t) (h, inr (e, lt)) more = rw e (more lt)

loop-Looped :
    (sem fuel : ℕ) (forces : ℕ → Bool) (k : ℕ) (t : Thread)
    → IsThread sem t
    → length t.input < fuel
    → Ensures (Looped sem) (loop fuel forces k t)
unfolding loop
loop-Looped sem zero forces k t h lt = absurd (omega arith)
loop-Looped sem (suc fuel) forces k t h lt =
    Ensures-bind (RoundFits sem t.input) _ (round (forces k) t t.input) _
      (round-RoundFits sem t h (forces k) t.input)
      λ r fits.
        next_round sem fuel forces k t.input r fits
          λ shorter. loop-Looped sem fuel forces (k + 1) r.1 fits.0 (omega arith)

-- The session is over: the slot is free, and the semaphore counts one more free session.
abbrev pub Over : ℕ → Option Thread → Type 0
Over sem r = (t : Thread) × (r ≡ some t) × Freed sem (t.store.world, t.client_data)

pub part-Over :
    (sem : ℕ) (fail : Bool) (t : Thread) → IsThread sem t → Ensures (Over sem) (part fail t)
part-Over sem fail t h =
    let (r, ran, freed) = disconnect_client-Freed sem t.store.world t.client_data fail h in
    rw ran (_, refl, freed)

loop_ends-Over :
    (sem : ℕ) (r : Option (Bool × Thread)) → Looped sem r → Ensures (Over sem) (loop_ends r)
unfolding Looped
loop_ends-Over sem r (fail, t, e, h) = rw e (part-Over sem fail t h)

-- With more fuel than its input has bytes, the thread of a well-formed session comes to the end of
-- it, whatever the client sends and whenever it is told to disconnect, unless a round faults: the
-- slot is free, the semaphore counts one more free session, and the table of the subscriptions is
-- well formed.
pub client_thread-Over :
    (sem fuel : ℕ) (forces : ℕ → Bool) (t : Thread)
    → IsThread sem t
    → length t.input < fuel
    → Ensures (Over sem) (client_thread fuel forces t)
unfolding client_thread
client_thread-Over sem fuel forces t h lt =
    let (w, sent) = write_all t.store.world t.client_data.response_fd (codes "10") in
    let s = t.store in
    let t' : Thread = record t { store = record s { world = w } } in
    let h' =
      write_all-IsSession sem t.store.world t.client_data t.client_data.response_fd (codes "10")
        h in
    elim (Bool-cases (forces 0)) [
      | inl now ↦ rw now (part-Over sem true t h)
      | inr later ↦ elim (Bool-cases sent) [
        | inl e ↦
            rw (later, e)
              (Ensures-bind (Looped sem) _ (loop fuel forces 1 t') _
                (loop-Looped sem fuel forces 1 t' h' lt) (loop_ends-Over sem))
        | inr ne ↦ rw (later, ne) (part-Over sem false t' h')
      ]
    ]
