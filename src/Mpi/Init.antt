-- ===== src/Mpi/Init.antt =====
-- src/backend/mpi/backend_mpi.cpp: initialize.
pub mod Support
use lcw.Base.{
  ℕ, ℤ, pos, negsuc, zero, suc, Bool, true, false, ◌&&◌, ◌||◌, not, Option, none, some, List, [],
  ◌∷◌, Action, pure, fail, assert, gets, modify, exception, ◌>>=◌, ◌>>◌,
}
use lcw.Comp.{Host, QueueType}
use lcw.Mpi.Types.{Config, CompType, request, continue, MpiApi, State, in_world}
use lcw.Mpi.Bigcount.{safecall}
use lcw.Mpi.Manager.{make_manager}

-- What LCT_str_int_search finds for a variable: its dictionary maps an unset variable to the
-- default, and for an unknown value it reports failure and gives the default.
pub data Found (A : Type 0) : Type 0 where
  unset unknown : Found A
  found : A → Found A

-- The environment: getenv with atoi, or with the search.
pub record Env : Type 0 where
  pub mpi_cq_type : Found QueueType
  pub mpi_default_queue_length : Option ℤ
  pub mpi_comp_type : Found CompType
  pub mpi_use_stream : Option ℤ
  pub mpi_max_pending_msg : Option ℤ
  pub mpi_num_comp_managers : Option ℤ
  pub mpi_cont_imm : Option ℤ
  pub mpi_cont_req : Option ℤ
  pub mpi_cont_poll_only : Option ℤ
  pub mpi_cont_defer : Option ℤ

found_or : {A : Type 0} → A → Found A → A
found_or d unset = d
found_or d unknown = d
found_or d (found a) = a

int_or : ℤ → Option ℤ → ℤ
int_or d none = d
int_or d (some n) = n

-- An int as a bool.
is_nonzero : ℤ → Bool
is_nonzero (pos zero) = false
is_nonzero (pos (suc n)) = true
is_nonzero (negsuc n) = true

flag_or : Bool → Option ℤ → Bool
unfolding is_nonzero
flag_or d none = d
flag_or d (some n) = is_nonzero n

-- The settings that are compiled only with LCW_MPI_USE_CONT.
unfoldable pub configure_cont : Bool → Env → Config → Config
unfolding flag_or
configure_cont false env c = c
configure_cont true env c = record c {
  use_cont_imm = flag_or c.use_cont_imm env.mpi_cont_imm;
  use_cont_req = flag_or c.use_cont_req env.mpi_cont_req;
  use_cont_poll_only = flag_or c.use_cont_poll_only env.mpi_cont_poll_only;
  use_cont_defer = flag_or c.use_cont_defer env.mpi_cont_defer;
}

-- The configuration that the variables ask for.
unfoldable pub configure : Env → Config → Config
unfolding found_or int_or flag_or configure_cont
configure env c = configure_cont c.have_cont env (record c {
  cq_type = found_or c.cq_type env.mpi_cq_type;
  default_cq_length = int_or c.default_cq_length env.mpi_default_queue_length;
  comp_type = found_or c.comp_type env.mpi_comp_type;
  use_stream = flag_or c.use_stream env.mpi_use_stream;
  g_pending_msg_max = int_or c.g_pending_msg_max env.mpi_max_pending_msg;
  g_num_comp_managers = int_or c.g_num_comp_managers env.mpi_num_comp_managers;
})

is_continue : CompType → Bool
is_continue request = false
is_continue continue = true

-- The two assertions, both compiled without LCW_MPI_USE_STREAM.
unfoldable pub supported : Config → Bool
unfolding is_continue
supported c = c.have_stream || (not (is_continue c.comp_type) && not c.use_stream)

module _ {W : Type 0} (host : Host W) (api : MpiApi W) where
  -- One manager for each element of g_comp_managers.
  fill_managers : ℕ → Action (State W) (List ℕ)
  fill_managers zero = pure []
  fill_managers (suc n) = do m ← make_manager host api; ms ← fill_managers n; pure (m ∷ ms)

  -- `resize` of a negative number throws std::length_error.
  make_managers : ℤ → Action (State W) (List ℕ)
  unfolding fill_managers
  make_managers (pos n) = fill_managers n
  make_managers (negsuc n) = fail exception

  unfoldable pub initialize : Env → Action (State W) (Unit {0})
  unfolding make_managers
  initialize env = do
    provided ← in_world (safecall api.init_thread)
    assert provided
    rank ← in_world (safecall api.comm_rank)
    nranks ← in_world (safecall api.comm_size)
    modify (λ s. record s { g_rank = rank; g_nranks = nranks })
    c ← gets (λ s. configure env s.config)
    modify (λ s. record s { config = c })
    assert (supported c)
    ms ← make_managers c.g_num_comp_managers
    modify (λ s. record s { g_comp_managers = ms })
