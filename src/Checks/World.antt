-- ===== src/Checks/World.antt =====
-- A small concrete world: one completion queue, a bump allocator, and MPI requests that complete
-- when they are listed as arrived.
use lcw.Base.{
  ℕ, pos, negsuc, ◌+◌, Bool, true, false, Option, none, some, List, [], ◌∷◌, ◌++◌, ◌==◌, ◌||◌, ok,
  fault, blocked, Outcome, if◌then◌else◌,
}
use lcw.Api.{mpi, RequestT}
use lcw.Comp.{Host, lcrq}
use lcw.Pcounter.{Counters}
use lcw.Frontend.{Process}
use lcw.Mpi.Types.{Config, request, Status, MpiApi, State}
use lcw.Mpi.Init.{Env, unset}

pub record Sim : Type 0 where
  pub fresh : ℕ
  pub arrived : List ℕ
  pub queued : List RequestT
  pub invoked : List RequestT

abbrev pub listed : ℕ → List ℕ → Bool
listed r [] = false
listed r (q ∷ qs) = r == q || listed r qs

abbrev pop_front : List RequestT → Sim → Option RequestT × Sim
pop_front [] w = (none, w)
pop_front (r ∷ rs) w = (some r, record w { queued = rs })

abbrev bump : Sim → Sim
bump w = record w { fresh = w.fresh + 1 }

abbrev pub sim_host : Host Sim
sim_host = record {
  queue_alloc = λ t n w. (0, w);
  queue_free = λ q w. w;
  queue_push = λ q r w. record w { queued = w.queued ++ r ∷ [] };
  queue_pop = λ q w. pop_front w.queued w;
  invoke = λ f r w. record w { invoked = r ∷ w.invoked };
  allocate = λ a n w. (some w.fresh, bump w);
  new_chars = λ n w. (some w.fresh, bump w);
  memcpy = λ d s n w. w;
}

abbrev pub sim_status : Status
sim_status = record { source = pos 1; tag = pos 5; count = 8 }

abbrev pub sim_mpi : MpiApi Sim
sim_mpi = record {
  byte = 0;
  any_source = negsuc 0;
  type_vector = λ c b s t w. (w.fresh, bump w);
  type_contiguous = λ n t w. (w.fresh, bump w);
  type_create_struct = λ ts w. (w.fresh, bump w);
  type_commit = λ t w. w;
  type_free = λ t w. w;
  isend = λ a n t r g c w. some (some w.fresh, bump w);
  irecv = λ a n t r g c w. some (some w.fresh, bump w);
  test = λ r w. some (if listed r w.arrived then some sim_status else none, w);
  init_thread = λ w. some (true, w);
  comm_rank = λ w. some (pos 0, w);
  comm_size = λ w. some (pos 2, w);
  comm_dup = λ w. some (w.fresh, bump w);
  stream_create = λ w. some (w.fresh, bump w);
  stream_comm_create = λ s w. some (w.fresh, bump w);
  stream_free = λ s w. some (tt, w);
  comm_set_info = λ c w. w;
  comm_tag_ub = λ c w. (some (pos 100), w);
  comm_free = λ c w. some (tt, w);
  barrier = λ c w. some (tt, w);
  finalize = λ w. some (tt, w);
  attach = λ r i d c w. some (false, w);
  continue_init = λ p w. some (w.fresh, bump w);
  start = λ r w. some (tt, w);
  request_free = λ r w. some (tt, w);
}

abbrev pub sim_config : Config
sim_config = record {
  have_stream = false;
  have_cont = false;
  cq_type = lcrq;
  default_max_put = 8192;
  default_cq_length = pos 65536;
  comp_type = request;
  use_stream = false;
  use_cont_imm = false;
  use_cont_req = false;
  use_cont_poll_only = false;
  use_cont_defer = false;
  g_pending_msg_max = pos 1;
  g_num_comp_managers = pos 0;
}

abbrev pub sim_env : Env
sim_env = record {
  mpi_cq_type = unset;
  mpi_default_queue_length = none;
  mpi_comp_type = unset;
  mpi_use_stream = none;
  mpi_max_pending_msg = none;
  mpi_num_comp_managers = none;
  mpi_cont_imm = none;
  mpi_cont_req = none;
  mpi_cont_poll_only = none;
  mpi_cont_defer = none;
}

abbrev pub no_counts : Counters
no_counts = record { enabled = true; trend = λ _. 0; started = λ _. 0; ended = λ _. 0 }

-- A process over MPI, with the requests that will have arrived.
abbrev pub fresh_state : List ℕ → State Sim
fresh_state arrived = record {
  runtime = record {
    comps = [];
    counters = no_counts;
    allocator = 0;
    world = record { fresh = 10; arrived = arrived; queued = []; invoked = [] };
  };
  config = sim_config;
  g_rank = pos 0;
  g_nranks = pos 2;
  g_pending_msg = pos 0;
  g_comp_managers = [];
  g_ndevices = 0;
  managers = [];
  devices = [];
}

abbrev pub fresh_process : List ℕ → Process (State Sim)
fresh_process arrived = record { backend_p = some mpi; state = fresh_state arrived }

abbrev pub result_of : {S A : Type 0} → S → Outcome (A × S) → S
result_of s (ok (a, t)) = t
result_of s (fault e) = s
result_of s blocked = s
