-- ===== src/Checks/Init.antt =====
-- A build with continuations and without streams, in an empty environment.
use lcw.Base.{◌≡◌, refl, true, [], fault, assertion}
use lcw.Mpi.Types.{Config, continue}
use lcw.Mpi.Init.{initialize}
use lcw.Mpi.Init.Support.{initialize_refuses}
use lcw.Checks.World.{sim_config, sim_env, sim_host, sim_mpi, fresh_state}

abbrev cont_config : Config
cont_config = record sim_config { have_cont = true; comp_type = continue }

initialize_refuses_example :
    initialize sim_host sim_mpi sim_env (record (fresh_state []) { config = cont_config })
    ≡ fault assertion
initialize_refuses_example =
    initialize_refuses sim_host sim_mpi sim_env (record (fresh_state []) { config = cont_config })
      refl refl (λ e. absurd (cc))
