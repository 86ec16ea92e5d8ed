-- ===== src/Checks/Delivery.antt =====
-- Two entries in a manager, of which the second has completed.
use lcw.Base.{ℕ, pos, refl, false, some, [], ◌∷◌}
use lcw.Api.{send}
use lcw.Comp.{cq}
use lcw.Mpi.Types.{EntryT, req, State}
use lcw.Mpi.Post.{request_of, entry_of}
use lcw.Mpi.Manager.Delivery.{TestLaws, IsServable}
use lcw.Checks.World.{Sim, sim_mpi, sim_status, fresh_process, listed}

abbrev entry : ℕ → EntryT
entry r = entry_of (request_of send (some 0) (pos 1) (pos 5) (some 7) (pos 8) r) (some 0) (some r)

abbrev held : State Sim
held = record (fresh_process (12 ∷ [])).state {
  runtime = record (fresh_process (12 ∷ [])).state.runtime { comps = some (cq 0) ∷ [] };
  managers = req (entry 11 ∷ entry 12 ∷ []) false ∷ [];
}

laws : TestLaws sim_mpi
laws = record {
  has_completed = λ w r. listed r w.arrived;
  test_completed = λ r w h. (sim_status, w, rw h refl);
  test_pending = λ r w h. (w, rw h refl, λ q k. k);
}

serve : (r : ℕ) → IsServable held.comps (entry r)
serve r = record {
  request = r;
  holds = refl;
  handle = 0;
  object = cq 0;
  points = refl;
  found = refl;
  allowed = λ e. absurd (cc);
}
