-- ===== src/System/Sessions.antt =====
-- The steps of the sessions of src/server/client.c leave all of the store but its world.
use so_proj.Base.{refl, sym, ap, ◌∙◌, subst, false, Ensures-ok}
use so_proj.Operations.{Store}
use so_proj.Session.Worlds.{OwnWorld}
use so_proj.Session.{World}
use so_proj.Slots
use so_proj.Slots.{
  Server, is_invalid, thread_of, slot_at, activate_client, occupy, start_client_threads,
}
use so_proj.System.{IsSession}
use so_proj.Threads.Worlds.{RoundOwn, PartOwn, round-Own, part-Own}
use so_proj.Threads.{round, part}

pub session-OwnWorld :
    {s s' : Server} (st : Slots.Step s s') → IsSession st → OwnWorld s.store s'.store
session-OwnWorld (Slots.Step.connect _ _ _ _ _ _) own = absurd own
session-OwnWorld {s} (Slots.Step.serve i input t lt on ran e) own =
    let slot = slot_at s i in
    subst (λ (x : Server). OwnWorld s.store x.store) (sym e)
      (Ensures-ok (RoundOwn (thread_of s slot input))
        (round slot.force_disconnect (thread_of s slot input) input)
        (round-Own slot.force_disconnect (thread_of s slot input) input) ran)
session-OwnWorld {s} (Slots.Step.leave i input fail t t' lt on ran parted e) own =
    let slot = slot_at s i in
    let (w, same) =
      Ensures-ok (RoundOwn (thread_of s slot input))
        (round slot.force_disconnect (thread_of s slot input) input)
        (round-Own slot.force_disconnect (thread_of s slot input) input) ran in
    let (w', same') = Ensures-ok (PartOwn t) (part fail t) (part-Own fail t) parted in
    subst (λ (x : Server). OwnWorld s.store x.store) (sym e)
      (w', same' ∙ ap (λ (st : Store World). record st { world = w' }) same)
session-OwnWorld {s} (Slots.Step.refuse i input t lt on parted e) own =
    let slot = slot_at s i in
    subst (λ (x : Server). OwnWorld s.store x.store) (sym e)
      (Ensures-ok (PartOwn (thread_of s slot input)) (part false (thread_of s slot input))
        (part-Own false (thread_of s slot input)) parted)
session-OwnWorld {s} (Slots.Step.force e) own =
    subst (λ (x : Server). OwnWorld s.store x.store) (sym e) (s.store.world, refl)
session-OwnWorld {s} (Slots.Step.release e) own =
    subst (λ (x : Server). OwnWorld s.store x.store) (sym e) (s.store.world, refl)
session-OwnWorld (Slots.Step.job table sent e) own = absurd own
