-- ===== src/Session/Subscriptions.antt =====
-- `client_subscribe_key` and `client_unsubscribe_key` of src/server/client.c.
use so_proj.Base.{
  ℕ, zero, suc, ◌≤◌, ◌<◌, ◌≡◌, ◌⊎◌, refl, ap, ◌∙◌, inl, inr, true, false, List, [], ◌∷◌, ◌++◌, none,
  some, append-nil, Option-cases, arith, ◌==◌, leb, if◌then◌else◌, Bool-cases, length, set, Bytes,
  codes, ok, Returns, ◌>>=◌, ℤ, pos, increment, at_least,
}
use so_proj.Kvs.{HashTable}
use so_proj.Kvs.Mapping.{view, HasSlot}
use so_proj.Operations.{Store, kvs_key_exists}
use so_proj.Operations.Shows.{kvs_key_exists-view}
use so_proj.Coperations.{
  max_number_sub, max_session_count, slot_text, chash, add_key, get_fds, subscribe_key_index_list,
  add_key_to_subscribed_list, remove_key_from_subscribed_list,
}
use so_proj.Coperations.Tables.{IsSubscriptions, add_key-get_fds}
use so_proj.Session.{
  World, ClientData, write_all, answer, unlist, try_subscribe, client_subscribe_key,
  client_unsubscribe_key,
}
use so_proj.Session.Notices.{messages}
use so_proj.Session.Departures.{Releases, remove_key-Releases}

pub write_all-messages :
    (w : World) (fd : ℤ) (bytes : Bytes)
    → (write_all w fd bytes).0 ≡ record w { sent = w.sent ++ messages w.accepts bytes (fd ∷ []) }
unfolding write_all messages
write_all-messages w fd bytes = elim (Bool-cases (w.accepts fd)) [
  | inl e ↦ rw e
  | inr ne ↦ rw (ne, append-nil w.sent)
]

-- A refusal leaves the session and the subscriptions as they were, and answers with the text.
abbrev pub Refused : Store World → ClientData → Bytes → Store World × ClientData → Type 0
Refused s c text r =
    let w = s.world in
    r ≡ (
      record s {
        world = record w { sent = w.sent ++ messages w.accepts text (c.response_fd ∷ []) };
      },
      c,
    )

module _ (s : Store World) (ht : HashTable) (c : ClientData) (key : Bytes) (n : ℕ)
    (e : s.kvs_table ≡ some ht) (slot : HasSlot key) (counted : c.num_keys ≡ pos n) where
  missing : view ht key ≡ none → kvs_key_exists s key ≡ ok 1
  missing off =
      let (r, ran, answered) = kvs_key_exists-view s ht key e slot in
      elim answered [ inl (_, on) ↦ absurd (on off) | inr (one, _) ↦ ran ∙ ap ok one ]

  present : {v : Bytes} → view ht key ≡ some v → kvs_key_exists s key ≡ ok 0
  present on =
      let (r, ran, answered) = kvs_key_exists-view s ht key e slot in
      elim answered [ inl (nought, _) ↦ ran ∙ ap ok nought | inr (_, off) ↦ cc ]

  room : at_least max_number_sub c.num_keys ≡ leb max_number_sub n
  room = ap (at_least max_number_sub) counted

  listed :
      (i : ℕ)
      → subscribe_key_index_list key c.keys ≡ some i
      → add_key_to_subscribed_list key c.keys c.num_keys ≡ ok (c.keys, 1)
  unfolding add_key_to_subscribed_list
  listed i found = rw (add_key_to_subscribed_list, found)

  unlisted :
      leb max_number_sub n ≡ false
      → subscribe_key_index_list key c.keys ≡ none
      → add_key_to_subscribed_list key c.keys c.num_keys ≡ ok (set c.keys n (slot_text key), 0)
  unfolding add_key_to_subscribed_list
  unlisted free absent = rw (add_key_to_subscribed_list, absent, counted, free)

  abbrev pub Refusal : Type 0
  Refusal =
      (view ht key ≡ none)
      ⊎ (max_number_sub ≤ n)
      ⊎ ((i : ℕ) × (subscribe_key_index_list key c.keys ≡ some i))

  try_subscribe-refused : Refusal → try_subscribe s c key ≡ ok (s.world, c, true)
  unfolding try_subscribe
  try_subscribe-refused why = elim (Option-cases (view ht key)) [
    | inl off ↦ rw (missing off)
    | inr (v, on) ↦ elim (Bool-cases (leb max_number_sub n)) [
      | inl full ↦ rw (present on, ◌>>=◌, room, full)
      | inr free ↦ elim why [
        | inl off ↦ cc
        | inr (inl full) ↦ absurd (ground arith)
        | inr (inr (i, found)) ↦ rw (present on, ◌>>=◌, room, free, listed i found)
      ]
    ]
  ]

  -- For a key that has a slot, and a client whose count of keys is not below 0, `client_subscribe_key`
  -- answers `30` and changes nothing else, if the key has no value, or if the client has ten keys or
  -- more already, or if its list has the key.
  pub client_subscribe_key-Refused :
      Refusal → Returns (client_subscribe_key s c key) (Refused s c (codes "30"))
  unfolding client_subscribe_key
  client_subscribe_key-Refused why =
      let w = s.world in
      let told = record w {
        sent = w.sent ++ messages w.accepts (codes "30") (c.response_fd ∷ []);
      } in
      ((record s { world = told }, c), rw (try_subscribe-refused why, write_all-messages), refl)

  try_subscribe-enlisted :
      {v : Bytes}
      → view ht key ≡ some v
      → n < max_number_sub
      → subscribe_key_index_list key c.keys ≡ none
      → try_subscribe s c key
        ≡ ok (
          record s.world {
            subscribed_keys = (add_key s.world.subscribed_keys key c.notification_fd).0;
          },
          record c { keys = set c.keys n (slot_text key); num_keys = increment c.num_keys },
          false,
        )
  unfolding try_subscribe
  try_subscribe-enlisted on lt absent =
      let free : leb max_number_sub n ≡ false = ground arith in
      rw (present on, ◌>>=◌, room, free, unlisted free absent)

  -- What a subscription that is let through does: the key stands in the first free slot, and the
  -- client's pipe is behind the others of the keys that have its hash, while these are fewer
  -- than 8.
  pub record Joined (r : Store World × ClientData) : Type 0 where
    pub session : r.1 ≡ record c { keys = set c.keys n (slot_text key); num_keys = pos (suc n) }
    pub table : IsSubscriptions r.0.world.subscribed_keys
    pub answered :
        r.0.world.sent ≡ s.world.sent ++ messages s.world.accepts (codes "31") (c.response_fd ∷ [])
    pub joins :
        length (get_fds s.world.subscribed_keys key) < max_session_count
        → (q : Bytes)
        → get_fds r.0.world.subscribed_keys q ≡ (
            if chash key == chash q
            then get_fds s.world.subscribed_keys q ++ c.notification_fd ∷ []
            else get_fds s.world.subscribed_keys q)
    pub full :
        max_session_count ≤ length (get_fds s.world.subscribed_keys key)
        → (q : Bytes) → get_fds r.0.world.subscribed_keys q ≡ get_fds s.world.subscribed_keys q

  -- `client_subscribe_key` of a key that has a slot and a value, by a client with fewer than ten keys,
  -- and not below 0, whose list does not have the key, answers `31`, puts the key in the first free
  -- slot and counts it. While fewer than 8 pipes are subscribed to keys of the same hash, the
  -- client's is put behind them; with 8 of them the answer is the same and no pipe is subscribed.
  pub client_subscribe_key-Joined :
      {v : Bytes}
      → IsSubscriptions s.world.subscribed_keys
      → view ht key ≡ some v
      → n < max_number_sub
      → subscribe_key_index_list key c.keys ≡ none
      → Returns (client_subscribe_key s c key) Joined
  unfolding client_subscribe_key
  client_subscribe_key-Joined t on lt absent =
      let w = s.world in
      let (table, free, taken) = add_key-get_fds w.subscribed_keys key c.notification_fd t in
      (
        (
          record s {
            world = record w {
              subscribed_keys = (add_key w.subscribed_keys key c.notification_fd).0;
              sent = w.sent ++ messages w.accepts (codes "31") (c.response_fd ∷ []);
            };
          },
          record c { keys = set c.keys n (slot_text key); num_keys = increment c.num_keys },
        ),
        rw (try_subscribe-enlisted on lt absent, write_all-messages),
        record {
          session = rw counted;
          table = table;
          answered = refl;
          joins = λ lt. (free lt).1;
          full = λ le. (taken le).1;
        },
      )

unlist-Releases :
    (w : World) (c : ClientData) (key : Bytes) (removed : List Bytes × ℕ)
    → IsSubscriptions w.subscribed_keys
    → Releases c.notification_fd w.subscribed_keys (unlist w c key removed).0.subscribed_keys
unlist-Releases w c key (keys', zero) t =
    remove_key-Releases w.subscribed_keys key c.notification_fd t
unlist-Releases w c key (keys', suc _) t = record {
  table = t;
  others = λ v q ne. refl;
  own = λ q. omega arith;
}

-- Whatever `client_unsubscribe_key` answers, no other descriptor gains or loses a subscription to
-- any key, not even to one of the same hash, and the client's own descriptor gains none.
client_unsubscribe_key-Releases :
    (w : World) (c : ClientData) (key : Bytes)
    → IsSubscriptions w.subscribed_keys
    → Releases c.notification_fd w.subscribed_keys
        (client_unsubscribe_key w c key).0.subscribed_keys
unfolding client_unsubscribe_key
client_unsubscribe_key-Releases w c key t =
    let removed = remove_key_from_subscribed_list key c.keys c.num_keys in
    let after = unlist w c key removed in
    rw (write_all-messages after.0 c.response_fd (answer after.2 (codes "41") (codes "40")))
      (unlist-Releases w c key removed t)
