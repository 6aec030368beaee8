-- ===== src/Listener/Waits.antt =====
-- How `kvs_disconnect` and the thread of `kvs_notifications`, both of src/client/api.c, wait for one
-- another. A step is what one of them does under `disconnect_mutex`, or the return of `read_all`;
-- an event is what comes from outside: what the server does to the pipe, a signal, or an error. A
-- notification comes through the pipe in one piece.
use so_proj.Base.{ℕ, zero, suc, ◌≡◌, ◌⊎◌, inl, inr, refl, Bool, true, false, Bool-cases}

-- Where the caller of `kvs_disconnect` stands: before the call, in its wait for `thread_finished`,
-- or behind the wait, when it writes to the server.
pub data Caller : Type 0 where
  before waiting told : Caller

-- Where the thread stands: at the head of its loop, in `read_all`, or at its end.
pub data Thread : Type 0 where
  checking reading gone : Thread

-- The two flags, the variable `intr` of the thread, the notifications in the pipe, and whether the
-- server has closed it.
pub record Client : Type 0 where
  pub disconnect : Bool
  pub thread_finished : Bool
  pub intr : Bool
  pub pending : ℕ
  pub closed : Bool
  pub caller : Caller
  pub thread : Thread

-- A step of the client. With `intr` set, `read_all` returns -1 whatever is in the pipe, and the
-- thread looks at `disconnect` again.
pub data Step (s s' : Client) : Type 0 where
  start :
      s.caller ≡ before
      → s.disconnect ≡ false
      → s' ≡ record s { disconnect = true; caller = waiting }
      → Step s s'
  tell : s.caller ≡ waiting → s.thread_finished ≡ true → s' ≡ record s { caller = told } → Step s s'
  go_on :
      s.thread ≡ checking → s.disconnect ≡ false → s' ≡ record s { thread = reading } → Step s s'
  stop :
      s.thread ≡ checking
      → s.disconnect ≡ true
      → s' ≡ record s { thread_finished = true; thread = gone }
      → Step s s'
  print :
      (n : ℕ)
      → s.thread ≡ reading
      → s.intr ≡ false
      → s.pending ≡ suc n
      → s' ≡ record s { pending = n; thread = checking }
      → Step s s'
  end :
      s.thread ≡ reading
      → s.intr ≡ false
      → s.pending ≡ zero
      → s.closed ≡ true
      → s' ≡ record s { disconnect = true; thread_finished = true; thread = gone }
      → Step s s'
  give_up :
      s.thread ≡ reading
      → s.intr ≡ true
      → s.disconnect ≡ true
      → s' ≡ record s { thread_finished = true; thread = gone }
      → Step s s'
  print_again :
      s.thread ≡ reading
      → s.intr ≡ true
      → s.disconnect ≡ false
      → s' ≡ record s { thread = checking }
      → Step s s'

-- The server sends a notification or closes the pipe; a signal interrupts the read; or it fails.
pub data Event (s s' : Client) : Type 0 where
  sends : s.closed ≡ false → s' ≡ record s { pending = suc s.pending } → Event s s'
  closes : s.closed ≡ false → s' ≡ record s { closed = true } → Event s s'
  interrupts : s.thread ≡ reading → s' ≡ record s { intr = true } → Event s s'
  fails : s.thread ≡ reading → s.intr ≡ false → s' ≡ record s { thread = checking } → Event s s'

pub data Run : Client → Client → Type 0 where
  here : {s : Client} → Run s s
  next : {s t u : Client} → Step s t → Run t u → Run s u

-- What can happen to a client from the state `s` on.
pub data Reach (s : Client) : Client → Type 0 where
  at_start : Reach s s
  step : {t u : Client} → Reach s t → Step t u → Reach s u
  event : {t u : Client} → Reach s t → Event t u → Reach s u

-- A client that is connected and in whose pipe there are `n` notifications.
abbrev pub connected : ℕ → Client
connected n = record {
  disconnect = false;
  thread_finished = false;
  intr = false;
  pending = n;
  closed = false;
  caller = before;
  thread = checking;
}

-- The thread waits in `read_all` for an open and empty pipe.
pub record IsBlocked (s : Client) : Type 0 where
  pub reads : s.thread ≡ reading
  pub quiet : s.intr ≡ false
  pub empty : s.pending ≡ zero
  pub is_open : s.closed ≡ false

-- The steps of the client alone bring its caller to the message to the server.
abbrev pub Comes : Client → Type 0
Comes s = (u : Client) × Run s u × (u.caller ≡ told)

-- What holds in every state that a client can come to.
record IsClient (s : Client) : Type 0 where
  asked : s.caller ≡ waiting → s.disconnect ≡ true
  ended : s.thread ≡ gone → s.thread_finished ≡ true
  over : s.thread_finished ≡ true → s.thread ≡ gone

Step-IsClient : {s s' : Client} → IsClient s → Step s s' → IsClient s'
Step-IsClient h (start c d e) = rw e (record { asked = λ w. refl; ended = h.ended; over = h.over })
Step-IsClient h (tell c d e) = rw e (record { asked = λ w. cc; ended = h.ended; over = h.over })
Step-IsClient h (go_on c d e) =
    rw e (record { asked = h.asked; ended = λ g. cc; over = λ f. let g = h.over f in cc })
Step-IsClient h (stop c d e) =
    rw e (record { asked = h.asked; ended = λ g. refl; over = λ f. refl })
Step-IsClient h (print n c d p e) =
    rw e (record { asked = h.asked; ended = λ g. cc; over = λ f. let g = h.over f in cc })
Step-IsClient h (end c d p f e) =
    rw e (record { asked = λ w. refl; ended = λ g. refl; over = λ f. refl })
Step-IsClient h (give_up c d p e) =
    rw e (record { asked = h.asked; ended = λ g. refl; over = λ f. refl })
Step-IsClient h (print_again c d p e) =
    rw e (record { asked = h.asked; ended = λ g. cc; over = λ f. let g = h.over f in cc })

Event-IsClient : {s s' : Client} → IsClient s → Event s s' → IsClient s'
Event-IsClient h (sends c e) = rw e (record { asked = h.asked; ended = h.ended; over = h.over })
Event-IsClient h (closes c e) = rw e (record { asked = h.asked; ended = h.ended; over = h.over })
Event-IsClient h (interrupts c e) =
    rw e (record { asked = h.asked; ended = h.ended; over = h.over })
Event-IsClient h (fails c i e) =
    rw e (record { asked = h.asked; ended = λ g. cc; over = λ f. let g = h.over f in cc })

Reach-IsClient : {s t : Client} → IsClient s → Reach s t → IsClient t
Reach-IsClient h at_start = h
Reach-IsClient h (step past s) = Step-IsClient (Reach-IsClient h past) s
Reach-IsClient h (event past e) = Event-IsClient (Reach-IsClient h past) e

-- Once the thread has ended, the caller goes on; at the head of its loop, the thread ends.
finished_Comes : (s : Client) → s.caller ≡ waiting → s.thread_finished ≡ true → Comes s
finished_Comes s w f = (_, next (tell w f refl) here, refl)

checking_Comes :
    (s : Client) → s.caller ≡ waiting → s.disconnect ≡ true → s.thread ≡ checking → Comes s
checking_Comes s w d c = (_, next (stop c d refl) (next (tell w refl refl) here), refl)

Thread-cases : (t : Thread) → (t ≡ checking) ⊎ (t ≡ reading) ⊎ (t ≡ gone)
Thread-cases checking = inl refl
Thread-cases reading = inr (inl refl)
Thread-cases gone = inr (inr refl)

ℕ-cases : (n : ℕ) → (n ≡ zero) ⊎ ((k : ℕ) × (n ≡ suc k))
ℕ-cases zero = inl refl
ℕ-cases (suc n) = inr (n, refl)

reading_Comes :
    (s : Client)
    → s.caller ≡ waiting
    → s.disconnect ≡ true
    → s.thread ≡ reading
    → IsBlocked s ⊎ Comes s
reading_Comes s w d r = elim (Bool-cases s.intr) [
  | inl i ↦ inr (_, next (give_up r i d refl) (next (tell w refl refl) here), refl)
  | inr i ↦ elim (ℕ-cases s.pending) [
    | inr (n, p) ↦ inr (
      _,
      next (print n r i p refl) (next (stop refl d refl) (next (tell w refl refl) here)),
      refl,
    )
    | inl p ↦ elim (Bool-cases s.closed) [
      | inl c ↦ inr (_, next (end r i p c refl) (next (tell w refl refl) here), refl)
      | inr c ↦ inl (record { reads = r; quiet = i; empty = p; is_open = c })
    ]
  ]
]

waiting_Comes : (s : Client) → IsClient s → s.caller ≡ waiting → IsBlocked s ⊎ Comes s
waiting_Comes s h w = elim (Thread-cases s.thread) [
  | inl c ↦ inr (checking_Comes s w (h.asked w) c)
  | inr (inl r) ↦ reading_Comes s w (h.asked w) r
  | inr (inr g) ↦ inr (finished_Comes s w (h.ended g))
]

connected-IsClient : (n : ℕ) → IsClient (connected n)
connected-IsClient n = record { asked = λ w. cc; ended = λ g. cc; over = λ f. cc }

-- A wait that only something from outside ends, and anything does.
pub record Hangs (s : Client) : Type 0 where
  pub blocked : IsBlocked s
  pub still : (u : Client) → Step s u → ⊥
  pub freed : (u : Client) → Event s u → Comes u

blocked-Step : {s u : Client} → IsClient s → IsBlocked s → s.caller ≡ waiting → Step s u → ⊥
blocked-Step h b w (start c d e) = cc
blocked-Step h b w (tell c f e) = let r = b.reads in let g = h.over f in cc
blocked-Step h b w (go_on c d e) = let r = b.reads in cc
blocked-Step h b w (stop c d e) = let r = b.reads in cc
blocked-Step h b w (print n c i p e) = let none_left = b.empty in cc
blocked-Step h b w (end c i p f e) = let open_still = b.is_open in cc
blocked-Step h b w (give_up c i d e) = let quiet = b.quiet in cc
blocked-Step h b w (print_again c i d e) = let quiet = b.quiet in cc

blocked-Event : {s u : Client} → IsClient s → IsBlocked s → s.caller ≡ waiting → Event s u → Comes u
blocked-Event {s} h b w (sends c e) =
    rw e
      (elim (waiting_Comes (record s { pending = suc s.pending }) (Event-IsClient h (sends c refl))
        w) [ inl again ↦ let some_left = again.empty in absurd cc | inr comes ↦ comes ])
blocked-Event {s} h b w (closes c e) =
    rw e (elim (waiting_Comes (record s { closed = true }) (Event-IsClient h (closes c refl)) w) [
      | inl again ↦ let is_closed = again.is_open in absurd cc
      | inr comes ↦ comes
    ])
blocked-Event {s} h b w (interrupts c e) =
    rw e (elim (waiting_Comes (record s { intr = true }) (Event-IsClient h (interrupts c refl)) w) [
      | inl again ↦ let told_of = again.quiet in absurd cc
      | inr comes ↦ comes
    ])
blocked-Event {s} h b w (fails c i e) =
    rw e (checking_Comes (record s { thread = checking }) w (h.asked w) refl)

-- A state in which the caller waits, and so does the thread.
abbrev pub stuck : Client
stuck = record {
  disconnect = true;
  thread_finished = false;
  intr = false;
  pending = zero;
  closed = false;
  caller = waiting;
  thread = reading;
}

runs_dry : (n : ℕ) → Run (connected n) stuck
runs_dry zero = next (go_on refl refl refl) (next (start refl refl refl) here)
runs_dry (suc n) = next (go_on refl refl refl) (next (print n refl refl refl refl) (runs_dry n))

-- In every state that a client can come to with its caller in the wait of `kvs_disconnect`, whatever
-- the server and the kernel have done, one of two things holds. Either steps of the client alone can
-- bring it to the message to the server; or its thread waits for an open and empty pipe, and then the
-- client takes no step, so that the server is not told, until the server sends or closes, a signal
-- interrupts the read, or it fails, and behind any of these its steps can bring it to the message.
-- The second does happen, however many notifications the client has got.
pub kvs_disconnect_waits :
    (n : ℕ) (s : Client)
    → Reach (connected n) s
    → s.caller ≡ waiting
    → (Comes s ⊎ Hangs s) × Run (connected n) stuck
kvs_disconnect_waits n s reach w =
    let h = Reach-IsClient (connected-IsClient n) reach in
    elim (waiting_Comes s h w) [
      | inr comes ↦ (inl comes, runs_dry n)
      | inl b ↦ (
        inr (record {
          blocked = b;
          still = λ u st. blocked-Step h b w st;
          freed = λ u ev. blocked-Event h b w ev;
        }),
        runs_dry n,
      )
    ]
