-- ===== src/Session/Stale.antt =====
-- What the removal of the last key of a client leaves behind (src/server/client.c and
-- src/server/coperations.c).
use so_proj.Base.{
  ℕ, ◌≡◌, inl, inr, refl, ap, ◌∙◌, false, [], ◌∷◌, ◌++◌, none, some, arith, Bytes, codes, ok, fault,
  bad_index, Returns, ◌>>=◌, pos, negsuc, decrement, at_least,
}
use so_proj.Kvs.{HashTable}
use so_proj.Kvs.Mapping.{view, HasSlot}
use so_proj.Operations.{Store, kvs_key_exists}
use so_proj.Operations.Shows.{kvs_key_exists-view}
use so_proj.Coperations.{
  max_number_sub, remove_key, subscribe_key_index_list, add_key_to_subscribed_list,
  remove_key_from_subscribed_list,
}
use so_proj.Coperations.Keys.{remove_stale}
use so_proj.Session.{World, ClientData, try_subscribe, client_subscribe_key, client_unsubscribe_key}
use so_proj.Session.Notices.{messages}
use so_proj.Session.Subscriptions.{Refused, write_all-messages, client_subscribe_key-Refused}

-- An unsubscription that finds its key and moves no slot.
abbrev left_behind : World → ClientData → Bytes → World × ClientData
left_behind w c key = (
  record w {
    subscribed_keys = (remove_key w.subscribed_keys key c.notification_fd).0;
    sent = w.sent ++ messages w.accepts (codes "40") (c.response_fd ∷ []);
  },
  record c { num_keys = decrement c.num_keys },
)

unsubscribe_stale :
    (w : World) (c : ClientData) (key : Bytes)
    → remove_key_from_subscribed_list key c.keys c.num_keys ≡ (c.keys, 0)
    → client_unsubscribe_key w c key ≡ left_behind w c key
unfolding client_unsubscribe_key
unsubscribe_stale w c key e =
    let w' = record w {
      subscribed_keys = (remove_key w.subscribed_keys key c.notification_fd).0;
    } in
    rw (client_unsubscribe_key, e, write_all-messages w' c.response_fd (codes "40")) refl

subscribe_outside :
    (s : Store World) (ht : HashTable) (c : ClientData) (key v : Bytes) (n : ℕ)
    → s.kvs_table ≡ some ht
    → HasSlot key
    → view ht key ≡ some v
    → c.num_keys ≡ negsuc n
    → subscribe_key_index_list key c.keys ≡ none
    → client_subscribe_key s c key ≡ fault bad_index
unfolding client_subscribe_key try_subscribe add_key_to_subscribed_list
subscribe_outside s ht c key v n e slot on below absent =
    let (r, ran, answered) = kvs_key_exists-view s ht key e slot in
    let there : kvs_key_exists s key ≡ ok 0 = elim answered [
      | inl (zero_, _) ↦ ran ∙ ap ok zero_
      | inr (_, off) ↦ cc
    ] in
    let free : at_least max_number_sub c.num_keys ≡ false = ap (at_least max_number_sub) below in
    let outside : add_key_to_subscribed_list key c.keys c.num_keys ≡ fault bad_index =
      rw (add_key_to_subscribed_list, absent, below) in
    rw (there, ◌>>=◌, free, outside)

-- What comes of two unsubscriptions of the only key, `r` and `r'`, in the store `s` of the client `c`.
pub record Stale (s : Store World) (c : ClientData) (key other : Bytes) (r r' : World × ClientData)
    : Type 0 where
  pub answered :
      r.0.sent ≡ s.world.sent ++ messages s.world.accepts (codes "40") (c.response_fd ∷ [])
  pub counted : r.1.num_keys ≡ pos 0
  pub refused :
      Returns
        (client_subscribe_key (record s { world = r.0 }) r.1 key)
        (Refused (record s { world = r.0 }) r.1 (codes "30"))
  pub answered_again :
      r'.0.sent ≡ r.0.sent ++ messages s.world.accepts (codes "40") (c.response_fd ∷ [])
  pub counted_again : r'.1.num_keys ≡ negsuc 0
  pub outside : client_subscribe_key (record s { world = r'.0 }) r'.1 other ≡ fault bad_index

-- A client with one key, which has a slot and stands in the first place of its list, unsubscribes it,
-- and the answer is that this succeeded; it then has no key, but a subscription to the same key is
-- refused. A second unsubscription of the key is answered as a success too, and leaves the count at
-- -1. A subscription to another key that has a slot and a value and is not in the list makes the
-- server then write in front of the array of keys.
pub unsubscribe_twice :
    (s : Store World) (ht : HashTable) (c : ClientData) (key other v : Bytes)
    → s.kvs_table ≡ some ht
    → c.num_keys ≡ pos 1
    → subscribe_key_index_list key c.keys ≡ some 0
    → HasSlot key
    → HasSlot other
    → view ht other ≡ some v
    → subscribe_key_index_list other c.keys ≡ none
    → let r = client_unsubscribe_key s.world c key in
      Stale s c key other r (client_unsubscribe_key r.0 r.1 key)
unsubscribe_twice s ht c key other v e one_key found slot slot' on absent =
    let (w1, c1) = left_behind s.world c key in
    let none_left : c1.num_keys ≡ pos 0 = ap decrement one_key in
    let (w2, c2) = left_behind w1 c1 key in
    let below : c2.num_keys ≡ negsuc 0 = ap decrement none_left in
    let first : client_unsubscribe_key s.world c key ≡ (w1, c1) = unsubscribe_stale s.world c key (
      ap (remove_key_from_subscribed_list key c.keys) one_key
      ∙ remove_stale key c.keys 0 1 found (omega arith)) in
    let second : client_unsubscribe_key w1 c1 key ≡ (w2, c2) = unsubscribe_stale w1 c1 key (
      ap (remove_key_from_subscribed_list key c.keys) none_left
      ∙ remove_stale key c.keys 0 0 found (omega arith)) in
    rw (first, second)
      (record {
        answered = refl;
        counted = none_left;
        refused =
            client_subscribe_key-Refused (record s { world = w1 }) ht c1 key 0 e slot none_left
              (inr (inr (0, found)));
        answered_again = refl;
        counted_again = below;
        outside =
            subscribe_outside (record s { world = w2 }) ht c2 other v 0 e slot' on below absent;
      })
