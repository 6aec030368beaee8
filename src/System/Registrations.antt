-- ===== src/System/Registrations.antt =====
-- A round of `handle_fifo` in src/server/main.c keeps the sessions and the semaphore in agreement,
-- and leaves all of the store but its world.
use so_proj.Base.{
  ◌≡◌, refl, sym, subst, true, false, Bool, Option, none, some, ◌||◌, ◌==◌, Bool-cases,
  Option-cases, inl, inr, Bytes, ℤ,
}
use so_proj.Fifo.{Paths, refuse, activated, connect, fifo_round, parse_registration}
use so_proj.Session.Worlds.{OwnWorld}
use so_proj.Session.{write_all}
use so_proj.Slots.Invariant.{IsServer, activate_client-Activated, Activated}
use so_proj.Slots.{Server, is_invalid, activate_client, occupy}

abbrev ActivateOwn : Server → Option (Server × ℤ) → Type 0
ActivateOwn s none = Unit
ActivateOwn s (some (s', _)) = OwnWorld s.store s'.store

activate_client-Own : (s : Server) (a b c : ℤ) → ActivateOwn s (activate_client s a b c)
unfolding activate_client
activate_client-Own s a b c = elim (Bool-cases (s.store.world.client_sem == 0)) [
  | inl full ↦ rw full tt
  | inr room ↦ elim (Option-cases (occupy s.clients_data a b c)) [
    | inl none_free ↦ rw (room, none_free) (_, refl)
    | inr (slots, free) ↦ elim (Bool-cases (is_invalid a || (is_invalid b || is_invalid c))) [
      | inl invalid ↦ rw (room, free, invalid) (_, refl)
      | inr valid ↦ rw (room, free, valid) (_, refl)
    ]
  ]
]

abbrev Kept : Server → Server → Type 0
Kept s s' = IsServer s' × OwnWorld s.store s'.store

abbrev pub RoundKept : Server → Option Server → Type 0
RoundKept s none = Unit
RoundKept s (some s') = Kept s s'

refuse-Kept : (s : Server) (fd : ℤ) → IsServer s → Kept s (refuse s fd)
unfolding write_all
refuse-Kept s fd h = elim (Bool-cases (s.store.world.accepts fd)) [
  | inl takes ↦
      rw takes
        (record { width = h.width; balance = h.balance; few = h.few; table = h.table }, (_, refl))
  | inr fails ↦
      rw fails
        (record { width = h.width; balance = h.balance; few = h.few; table = h.table }, (_, refl))
]

activated-Kept :
    (s : Server) (response_fd : ℤ) (r : Server × ℤ)
    → Activated s (some r)
    → OwnWorld s.store r.0.store
    → Kept s (activated response_fd r)
activated-Kept s response_fd (s', returned) (zero_returned, h, _) own =
    subst (λ (n : ℤ). Kept s (activated response_fd (s', n))) (sym zero_returned) (h, own)

connect-Kept :
    (s : Server) (opens : Bytes → ℤ) (p : Paths) → IsServer s → RoundKept s (connect s opens p)
unfolding connect
connect-Kept s opens p h =
    let request_fd = opens p.request in
    let response_fd = opens p.response in
    let notification_fd = opens p.notification in
    elim (Bool-cases (is_invalid response_fd)) [
      | inl bad ↦ rw bad (h, (_, refl))
      | inr good ↦ elim (Bool-cases (is_invalid request_fd)) [
        | inl bad ↦ rw (good, bad) (refuse-Kept s response_fd h)
        | inr good' ↦ elim (Bool-cases (is_invalid notification_fd)) [
          | inl bad ↦ rw (good, good', bad) (refuse-Kept s response_fd h)
          | inr good'' ↦
              let valid : (is_invalid request_fd
                    || (is_invalid response_fd || is_invalid notification_fd))
                  ≡ false =
                rw (good, good', good'') refl in
              let a = activate_client-Activated s request_fd response_fd notification_fd valid h in
              let own = activate_client-Own s request_fd response_fd notification_fd in
              elim (Option-cases (activate_client s request_fd response_fd notification_fd)) [
                | inl waits ↦ rw (good, good', good'', waits) tt
                | inr (r, ran) ↦
                    rw (good, good', good'', ran)
                      (activated-Kept s response_fd r (subst (Activated s) ran a)
                        (subst (ActivateOwn s) ran own))
              ]
        ]
      ]
    ]

pub fifo_round-RoundKept :
    (s : Server) (opens : Bytes → ℤ) (eintr : Bool) (buffer : Bytes)
    → IsServer s
    → RoundKept s (fifo_round s opens eintr buffer)
unfolding fifo_round
fifo_round-RoundKept s opens true buffer h = (h, (_, refl))
fifo_round-RoundKept s opens false buffer h = elim (Option-cases (parse_registration buffer)) [
  | inl other ↦ rw other (h, (_, refl))
  | inr (p, parsed) ↦ rw parsed (connect-Kept s opens p h)
]
