-- ===== src/Launch/Reaches.antt =====
-- From the arguments of the server's `main` to every state that the server can reach.
use so_proj.Base.{ℕ, ◌≡◌, sym, subst, List, some, length, Bytes}
use so_proj.Coperations.{max_session_count}
use so_proj.Directory.{Files}
use so_proj.Launch.Starts.{server_main-Ready}
use so_proj.Launch.{Host, Launch, serves, server_main}
use so_proj.Session.{World}
use so_proj.System.Invariant.{Reach-start}
use so_proj.System.States.{IsSystem}
use so_proj.System.{System, Reach}

-- What is known of a state that a server can reach: its directory could be opened, and the
-- invariant holds for the names that it has.
abbrev pub Runs : Host → Launch → System → Type 0
Runs h l s =
    (entries : List Bytes) × (h.opendir l.settings.jobs_directory ≡ some entries)
    × IsSystem l.settings entries s

-- If `main` comes to serve clients, with arrays of the eight descriptors of each node in the memory
-- that `malloc` gives, the directory of the jobs has been opened, and the invariant of the server
-- holds for the names found there in every state that its threads can reach from then on.
pub server_main-IsSystem :
    (h : Host) (w : World) (arguments : List Bytes) (l : Launch) (files : Files) (s : System)
    → ((i : ℕ) → length (h.found i) ≡ max_session_count)
    → server_main h w arguments ≡ serves l
    → Reach l.settings files l.system s
    → Runs h l s
server_main-IsSystem h w arguments l files s wide serving =
    let (r, same) = (server_main-Ready h w arguments l).0 serving in
    subst (λ (l : Launch). Reach l.settings files l.system s → Runs h l s) (sym same)
      λ reach. (r.entries, r.opened, Reach-start _ files r.entries w h.found _ s wide reach)
