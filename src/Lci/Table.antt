-- ===== src/Lci/Table.antt =====
-- backend_lci_t as a table of virtual functions. What it does not override is backend_base_t's, from
-- src/backend/backend.cpp: its handlers are those of src/comp.
use lcw.Base.{Bool, gets, modify}
use lcw.Comp.{Host}
use lcw.Comp
use lcw.Backend.{Backend}
use lcw.Contexts.{State, in_runtime}
use lcw.Lci.{
  LciApi, DeviceT, initialize, finalize, alloc_device, free_device, do_progress, alloc_cq, free_cq,
  poll_cq, send, recv, put, get_max_tag, barrier,
}

module _ {W : Type 0} (host : Host W) (api : LciApi W) (debug : Bool) where
  abbrev pub backend_lci : Backend (State DeviceT W)
  backend_lci = record {
    counters = λ s. s.counters;
    with_counters = λ c s. record s { runtime = record s.runtime { counters = c } };
    initialize = initialize host api;
    finalize = finalize host api;
    get_rank = gets (λ s. api.rank s.world);
    get_nranks = gets (λ s. api.num_processes s.world);
    alloc_device = alloc_device host api;
    free_device = free_device host api;
    do_progress = do_progress host api;
    send = send host api debug;
    recv = recv host api;
    put = put host api debug;
    get_max_tag = get_max_tag host api;
    barrier = barrier host api;
    alloc_handler = λ f. in_runtime (Comp.alloc_handler f);
    free_handler = λ h. in_runtime (Comp.free_handler h);
    alloc_cq = alloc_cq host api;
    free_cq = free_cq host api;
    poll_cq = poll_cq host api;
    set_custom_allocator =
        λ a. modify (λ s. record s { runtime = record s.runtime { allocator = a } });
  }
