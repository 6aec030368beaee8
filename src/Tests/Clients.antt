-- ===== src/Tests/Clients.antt =====
-- The subscriptions and the sessions of src/server/coperations.c and src/server/client.c, and a job
-- of src/server/main.c, at small inputs.
use so_proj.Base.{
  ◌++◌, ◌≡◌, refl, inl, true, false, [], ◌∷◌, none, some, arith, length, replicate, equal, Bytes,
  codes, Returns, Ensures, pos,
}
use so_proj.Kvs.{find, hash}
use so_proj.Kvs.Mapping.{view, HasSlot}
use so_proj.Operations.{Store, kvs_write}
use so_proj.Operations.Writes.{dict_changes}
use so_proj.Coperations.{
  IntHashTable, chash, create_int_hash_table, add_value, add_key, remove_key, get_fds,
  subscribe_key_index_list,
}
use so_proj.Coperations.Nodes.{count}
use so_proj.Coperations.Tables.{
  IsSubscriptions, add_key-get_fds, remove_key-get_fds, create_int_hash_table-empty,
}
use so_proj.Session.{
  World, ClientData, register_callbacks, notification, client_subscribe_key, client_unsubscribe_key,
  disconnect_client,
}
use so_proj.Session.Notices.{notices, kvs_write-notices}
use so_proj.Session.Frames.{notification-print_notification}
use so_proj.Session.Departures.{Departed, disconnect_client-Departed}
use so_proj.Session.Stale.{Stale, unsubscribe_twice}
use so_proj.Session.Subscriptions.{
  Refused, Joined, client_subscribe_key-Refused, client_subscribe_key-Joined,
}
use so_proj.Tests.Stores.{sample, sample-IsTable, ab-HasSlot, zero-HasSlot, new_pairs}
use so_proj.Api.{print_notification}
use so_proj.Jobs.{Settings, Job, run_job}
use so_proj.Jobs.Ends.{run_job-Ended}

abbrev no_subscriptions : IntHashTable
no_subscriptions = record { nodes = λ _. record { values = replicate 8 (pos 0); count = 0 } }

no_subscriptions-IsSubscriptions : IsSubscriptions no_subscriptions
unfolding create_int_hash_table
no_subscriptions-IsSubscriptions =
    (create_int_hash_table-empty (λ _. replicate 8 (pos 0)) (λ _. refl)).0

abbrev pub one_subscription : IntHashTable
one_subscription = (add_key no_subscriptions (codes "a") (pos 5)).0

pub one_subscription-IsSubscriptions : IsSubscriptions one_subscription
one_subscription-IsSubscriptions =
    (add_key-get_fds no_subscriptions (codes "a") (pos 5) no_subscriptions-IsSubscriptions).0

add_key-get_fds_example : (add_key no_subscriptions (codes "a") (pos 5)).1 ≡ 0
unfolding get_fds
add_key-get_fds_example =
    ((add_key-get_fds no_subscriptions (codes "a") (pos 5) no_subscriptions-IsSubscriptions).1
      (omega arith)).0

one_fd : count (pos 5) (get_fds one_subscription (codes "a")) ≡ 1
unfolding add_key add_value get_fds count chash
one_fd = refl

remove_key-get_fds_example : (remove_key one_subscription (codes "a") (pos 5)).1 ≡ 0
remove_key-get_fds_example =
    ((remove_key-get_fds one_subscription (codes "a") (pos 5) one_subscription-IsSubscriptions).1
      (rw one_fd (omega arith))).0

abbrev pub world : World
world = record {
  subscribed_keys = one_subscription;
  accepts = λ _. true;
  closes = λ _. true;
  sent = [];
  client_sem = 7;
}

abbrev pub client : ClientData
client = record {
  request_fd = pos 3;
  response_fd = pos 4;
  notification_fd = pos 5;
  num_keys = pos 1;
  active = true;
  keys = codes "a" ∷ replicate 9 [];
}

abbrev pub served : Store World
served = record {
  kvs_table = some sample;
  write_callback = none;
  delete_callback = none;
  world = world;
}

kvs_write-notices_example : Returns (kvs_write (register_callbacks served) new_pairs) (λ r.
    (r.1 ≡ 0)
    × (r.0.world ≡ record world { sent = notices world (dict_changes (view sample) new_pairs) }))
kvs_write-notices_example =
    kvs_write-notices served sample new_pairs refl sample-IsTable
      (ab-HasSlot, (ab-HasSlot, (zero-HasSlot, tt)))

notification-print_notification_example :
    (length (notification (codes "a") (some (codes "xy"))) ≡ 300)
    × (print_notification (notification (codes "a") (some (codes "xy")) ++ 0 ∷ []) 301
        ≡ codes "(a,xy)\n")
notification-print_notification_example =
    notification-print_notification (codes "a") (some (codes "xy")) (refl, tt) (refl, (refl, tt))

a_listed : subscribe_key_index_list (codes "a") client.keys ≡ some 0
unfolding subscribe_key_index_list equal
a_listed = refl

pub ab_unlisted : subscribe_key_index_list (codes "ab") client.keys ≡ none
unfolding subscribe_key_index_list equal
ab_unlisted = refl

zero_has_none : view sample (codes "0") ≡ none
unfolding view hash find equal
zero_has_none = refl

pub ab_has_value : view sample (codes "ab") ≡ some (codes "x")
unfolding view hash find equal
ab_has_value = refl

a-HasSlot : HasSlot (codes "a")
unfolding hash
a-HasSlot = (0, refl)

unsubscribe_twice_example :
    let r = client_unsubscribe_key served.world client (codes "a") in
    Stale served client (codes "a") (codes "ab") r (client_unsubscribe_key r.0 r.1 (codes "a"))
unsubscribe_twice_example =
    unsubscribe_twice served sample client (codes "a") (codes "ab") (codes "x") refl refl a_listed
      a-HasSlot ab-HasSlot ab_has_value ab_unlisted

client_subscribe_key-Refused_example :
    Returns (client_subscribe_key served client (codes "0")) (Refused served client (codes "30"))
client_subscribe_key-Refused_example =
    client_subscribe_key-Refused served sample client (codes "0") 1 refl zero-HasSlot refl
      (inl zero_has_none)

client_subscribe_key-Joined_example :
    Returns
      (client_subscribe_key served client (codes "ab"))
      (Joined served sample client (codes "ab") 1 refl ab-HasSlot refl)
client_subscribe_key-Joined_example =
    client_subscribe_key-Joined served sample client (codes "ab") 1 refl ab-HasSlot refl
      one_subscription-IsSubscriptions ab_has_value (omega arith) ab_unlisted

disconnect_client-Departed_example :
    Returns (disconnect_client world client false) (Departed world client)
disconnect_client-Departed_example =
    disconnect_client-Departed world client false one_subscription-IsSubscriptions (omega arith)

abbrev settings : Settings
settings = record { jobs_directory = codes "jobs"; max_backups = 1; forks = λ _. true }

abbrev job : Job World
job = record {
  store = served;
  out = [];
  backups = [];
  active_backups = 0;
  file_backups = 0;
  filename = codes "one.job";
}

abbrev job_text : Bytes
job_text = codes "WRITE [(0,z)]\nREAD [0,ab]\nWAIT 1x\nBACKUP\nSHOW\n"

run_job-Ended_example :
    Ensures (λ r. (j' : Job World) × (r ≡ some (0, j'))) (run_job 50 settings job job_text)
run_job-Ended_example = run_job-Ended 50 settings job job_text (omega arith)
