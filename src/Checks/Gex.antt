-- ===== src/Checks/Gex.antt =====
-- Two devices of the GASNet-EX backend, of which the first has been freed.
use lcw.Base.{pos, ◌≡◌, refl, true, false, none, some, List, [], ◌∷◌, ok, arith}
use lcw.Comp.{cq}
use lcw.Gex.{GexApi, DeviceT, State, gex_reqhandler}
use lcw.Gex
use lcw.Gex.Delivery.{Call, allocs_device, frees_device, run, arrives, run-arrives}
use lcw.Checks.World.{Sim, sim_host, fresh_process}

abbrev gex : GexApi Sim
gex = record {
  gasnet_par = true;
  client_init = λ w. w;
  query_job_rank = λ w. pos 0;
  query_job_size = λ w. pos 2;
  register_handlers = λ w. some (tt, w);
  barrier = λ w. w;
  am_poll = λ w. some (tt, w);
  request_medium = λ r b n i w. some (tt, w);
  max_request_medium = λ w. 512;
}

abbrev start : State Sim
start = record {
  runtime = record (fresh_process []).state.runtime { comps = some (cq 0) ∷ [] };
  rank_me = pos 0;
  rank_n = pos 2;
  finalized = false;
  g_allocator_copy = 0;
  g_devices = [];
  devices = [];
}

abbrev second : DeviceT
second = record { id = 1; comp = some 0 }

abbrev final : State Sim
final = record start { g_devices = 0 ∷ 1 ∷ []; devices = none ∷ some second ∷ [] }

abbrev calls : List Call
calls = allocs_device (pos 0) (some 0) ∷ allocs_device (pos 0) (some 0) ∷ frees_device (some 0) ∷ []

run-final : run sim_host gex calls start ≡ ok (tt, final)
unfolding run Gex.alloc_device Gex.free_device
run-final = refl

run-arrives_example :
    gex_reqhandler sim_host gex (pos 1) (some 9) 8 1 final
    ≡ arrives sim_host gex 1 (some 0) (pos 1) (some 9) 8 final
run-arrives_example =
    run-arrives sim_host gex calls start final run-final
      (record {
        same = refl;
        place = λ n lt. absurd (omega (arith, lt));
        id = λ n d at. absurd (cc);
      })
      1 second refl (pos 1) (some 9) 8
