-- ===== src/Threads/Worlds.antt =====
-- The rounds of `client_thread` of src/server/client.c, too, act on the store through its world.
use so_proj.Base.{
  ℕ, inl, inr, refl, Bool, true, false, ◌||◌, [], ◌∷◌, Option, none, some, Bool-cases, ◌==◌, leb,
  length, Bytes, Ensures, Ensures-any, Ensures-bind,
}
use so_proj.Operations.{Store}
use so_proj.Coperations.{max_string_size}
use so_proj.Session.{World, ClientData, client_subscribe_key, disconnect_client}
use so_proj.Session.Worlds.{OwnWorld, client_subscribe_key-OwnWorld}
use so_proj.Threads.{Thread, Round, subscribe_round, key_round, op_round, round, part}

abbrev pub RoundOwn : Thread → Round → Type 0
RoundOwn t r = OwnWorld t.store r.1.store

abbrev pub PartOwn : Thread → Option Thread → Type 0
PartOwn t none = Unit
PartOwn t (some t') = OwnWorld t.store t'.store

same_world : (s : Store World) → OwnWorld s s
same_world s = (s.world, refl)

subscribe_round-Own :
    (t : Thread) (key rest : Bytes) → Ensures (RoundOwn t) (subscribe_round t key rest)
subscribe_round-Own t key rest =
    Ensures-bind (λ (r : Store World × ClientData). OwnWorld t.store r.0) (RoundOwn t)
      (client_subscribe_key t.store t.client_data key) _
      (client_subscribe_key-OwnWorld t.store t.client_data key) λ r own. own

key_round-Own : (t : Thread) (op : ℕ) (input : Bytes) → Ensures (RoundOwn t) (key_round t op input)
unfolding key_round
key_round-Own t op input = elim (Bool-cases (leb max_string_size (length input))) [
  | inr short ↦ rw short (same_world t.store)
  | inl long ↦ elim (Bool-cases (op == b'3')) [
    | inl subscribes ↦ rw (long, subscribes) (subscribe_round-Own t _ _)
    | inr unsubscribes ↦ rw (long, unsubscribes) (_, refl)
  ]
]

op_round-Own : (t : Thread) (op : ℕ) (input : Bytes) → Ensures (RoundOwn t) (op_round t op input)
unfolding op_round
op_round-Own t op input = elim (Bool-cases (op == b'2')) [
  | inl leaves ↦ rw leaves (same_world t.store)
  | inr stays ↦ elim (Bool-cases (op == b'3' || op == b'4')) [
    | inl asks ↦ rw (stays, asks) (key_round-Own t op input)
    | inr other ↦ rw (stays, other) (same_world t.store)
  ]
]

pub round-Own :
    (force : Bool) (t : Thread) (input : Bytes) → Ensures (RoundOwn t) (round force t input)
unfolding round
round-Own true t input = same_world t.store
round-Own false t [] = same_world t.store
round-Own false t (op ∷ input) = op_round-Own t op input

pub part-Own : (fail : Bool) (t : Thread) → Ensures (PartOwn t) (part fail t)
part-Own fail t =
    Ensures-any (PartOwn t) (disconnect_client t.store.world t.client_data fail) _ λ r. (_, refl)
