-- ===== src/Session/Notices.antt =====
-- The notifications of src/server/client.c: who receives what, in which order.
use so_proj.Base.{
  ◌≡◌, refl, ap, ◌∙◌, inl, inr, Bool, List, [], ◌∷◌, ◌++◌, Option, some, append_assoc, append-nil,
  if◌then◌else◌, Bool-cases, Bytes, Returns, ℤ,
}
use so_proj.Kvs.{HashTable}
use so_proj.Kvs.Mapping.{view, IsTable}
use so_proj.Coperations.{get_fds}
use so_proj.Operations.{Store, register_write_callback, register_delete_callback, kvs_write}
use so_proj.Operations.Writes.{Changes, AllHaveSlots, dict_changes, deliver, kvs_write-Written}
use so_proj.Session.{
  World, write_all, notification, notify_loop, notify_clients, register_callbacks,
}

abbrev pub Messages : Type 0
Messages = List (ℤ × Bytes)

-- One message for each descriptor that accepts it, in order.
unfoldable pub messages : (ℤ → Bool) → Bytes → List ℤ → Messages
messages accepts bytes [] = []
messages accepts bytes (fd ∷ fds) =
    let rest = messages accepts bytes fds in if accepts fd then (fd, bytes) ∷ rest else rest

notify_loop-messages :
    (w : World) (key : Bytes) (value : Option Bytes) (fds : List ℤ)
    → notify_loop w key value fds
      ≡ record w { sent = w.sent ++ messages w.accepts (notification key value) fds }
unfolding notify_loop messages write_all
notify_loop-messages w key value [] = rw (append-nil w.sent)
notify_loop-messages w key value (fd ∷ fds) = elim (Bool-cases (w.accepts fd)) [
  | inl e ↦ rw (
    e,
    notify_loop-messages (record w { sent = w.sent ++ (fd, notification key value) ∷ [] }) key value
        fds,
    append_assoc,
  )
  | inr ne ↦ rw (ne, notify_loop-messages w key value fds)
]

-- `notify_clients` sends the one message for the key and the value to each descriptor that stands in
-- the table under the hash of the key and takes it, in the order of the table, and changes nothing
-- else.
pub notify_clients-messages :
    (key : Bytes) (value : Option Bytes) (w : World)
    → notify_clients key value w ≡ record w {
      sent = w.sent ++ messages w.accepts (notification key value) (get_fds w.subscribed_keys key);
    }
unfolding notify_clients
notify_clients-messages key value w =
    notify_loop-messages w key value (get_fds w.subscribed_keys key)

-- The messages for a sequence of changes.
unfoldable pub notices : World → Changes → Messages
notices w [] = []
notices w ((key, value) ∷ changes) =
    messages w.accepts (notification key value) (get_fds w.subscribed_keys key) ++ notices w changes

notices-sent :
    (w : World) (sent' : Messages) (changes : Changes)
    → notices (record w { sent = sent' }) changes ≡ notices w changes
unfolding notices
notices-sent w sent' [] = refl
notices-sent w sent' ((key, value) ∷ changes) = rw (notices-sent w sent' changes)

deliver-notices :
    (w : World) (changes : Changes)
    → deliver (some notify_clients) w changes ≡ record w { sent = w.sent ++ notices w changes }
unfolding deliver notices
deliver-notices w [] = rw (append-nil w.sent)
deliver-notices w ((key, value) ∷ changes) = rw (
  notify_clients-messages key value w,
  deliver-notices
      (record w {
        sent =
            w.sent ++ messages w.accepts (notification key value) (get_fds w.subscribed_keys key);
      })
      changes,
  notices-sent,
  append_assoc,
)

-- After `register_callbacks`, a `kvs_write` of keys that have slots to a well-formed table succeeds,
-- and the messages that it adds to those sent are just the notifications of the pairs that gave their
-- key another value, in the order of the pairs, each for the descriptors that stand in the table of
-- the subscriptions under the hash of its key and take it: those of clients that subscribed to
-- another key of that hash too, and not that of a client that found the node full. Nothing else of
-- the sessions changes.
pub kvs_write-notices :
    (s : Store World) (ht : HashTable) (pairs : List (Bytes × Bytes))
    → s.kvs_table ≡ some ht
    → IsTable ht
    → AllHaveSlots pairs
    → let w = s.world in
      Returns (kvs_write (register_callbacks s) pairs) (λ r.
        (r.1 ≡ 0)
        × (r.0.world ≡ record w { sent = w.sent ++ notices w (dict_changes (view ht) pairs) }))
unfolding register_callbacks register_write_callback register_delete_callback
kvs_write-notices s ht pairs e t slots =
    let (r, ran, (returned, (ht', same, _, _))) =
      kvs_write-Written (register_callbacks s) ht pairs e t slots in
    (
      r,
      ran,
      (
        returned,
        ap (λ (s : Store World). s.world) same
            ∙ deliver-notices s.world (dict_changes (view ht) pairs),
      ),
    )
