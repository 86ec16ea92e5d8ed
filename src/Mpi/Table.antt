-- ===== src/Mpi/Table.antt =====
-- backend_mpi_t: the MPI backend as a table of virtual functions. What backend_mpi_t does not
-- override is backend_base_t's, from src/backend/backend.cpp.
use lcw.Base.{ℕ, Action, gets, modify}
use lcw.Comp.{Host}
use lcw.Comp
use lcw.Pcounter.{Counters}
use lcw.Backend.{Backend}
use lcw.Mpi.Types.{MpiApi, State, in_runtime}
use lcw.Mpi.Init.{Env, initialize}
use lcw.Mpi.Device.{alloc_device, free_device, get_max_tag, barrier, alloc_cq, finalize}
use lcw.Mpi.Post.{send, recv, put}
use lcw.Mpi.Progress.{do_progress}

module _ {W : Type 0} (host : Host W) (api : MpiApi W) (env : Env) where
  abbrev pub with_counters : Counters → State W → State W
  with_counters c s = record s { runtime = record s.runtime { counters = c } }

  -- m_allocator = allocator
  unfoldable pub set_custom_allocator : ℕ → Action (State W) (Unit {0})
  set_custom_allocator a = modify λ s. record s { runtime = record s.runtime { allocator = a } }

  abbrev pub backend_mpi : Backend (State W)
  backend_mpi = record {
    counters = λ s. s.counters;
    with_counters = with_counters;
    initialize = initialize host api env;
    finalize = finalize host api;
    get_rank = gets (λ s. s.g_rank);
    get_nranks = gets (λ s. s.g_nranks);
    alloc_device = alloc_device host api;
    free_device = free_device host api;
    do_progress = do_progress host api;
    send = send host api;
    recv = recv host api;
    put = put host api;
    get_max_tag = get_max_tag host api;
    barrier = barrier host api;
    alloc_handler = λ f. in_runtime (Comp.alloc_handler f);
    free_handler = λ h. in_runtime (Comp.free_handler h);
    alloc_cq = alloc_cq host api;
    free_cq = λ c. in_runtime (Comp.free_cq host c);
    poll_cq = λ c. in_runtime (Comp.poll_cq host c);
    set_custom_allocator = set_custom_allocator;
  }
