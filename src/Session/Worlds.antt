-- ===== src/Session/Worlds.antt =====
-- A session of src/server/client.c acts on the store through its world alone.
use so_proj.Base.{◌≡◌, refl, Bytes, Ensures, Ensures-any}
use so_proj.Operations.{Store}
use so_proj.Session.{World, ClientData, try_subscribe, client_subscribe_key}

-- The second store differs from the first in its world at most.
abbrev pub OwnWorld : Store World → Store World → Type 0
OwnWorld s s' = (w : World) × (s' ≡ record s { world = w })

pub client_subscribe_key-OwnWorld :
    (s : Store World) (c : ClientData) (key : Bytes)
    → Ensures (λ (r : Store World × ClientData). OwnWorld s r.0) (client_subscribe_key s c key)
unfolding client_subscribe_key
client_subscribe_key-OwnWorld s c key = Ensures-any _ (try_subscribe s c key) _ λ r. (_, refl)
