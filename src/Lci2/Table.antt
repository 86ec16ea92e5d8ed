-- ===== src/Lci2/Table.antt =====
-- backend_lci2_t as a table of virtual functions.
use lcw.Base.{Bool, gets}
use lcw.Comp.{Host}
use lcw.Backend.{Backend}
use lcw.Contexts.{State}
use lcw.Lci2.{
  Lci2Api, DeviceT, initialize, finalize, alloc_device, free_device, do_progress, alloc_handler,
  free_handler, alloc_cq, free_cq, poll_cq, send, recv, put, get_max_tag, barrier,
  set_custom_allocator,
}

module _ {W : Type 0} (host : Host W) (api : Lci2Api W) (debug : Bool) where
  abbrev pub backend_lci2 : Backend (State DeviceT W)
  backend_lci2 = record {
    counters = λ s. s.counters;
    with_counters = λ c s. record s { runtime = record s.runtime { counters = c } };
    initialize = initialize host api;
    finalize = finalize host api;
    get_rank = gets (λ s. api.rank_me s.world);
    get_nranks = gets (λ s. api.rank_n s.world);
    alloc_device = alloc_device host api;
    free_device = free_device host api;
    do_progress = do_progress host api;
    send = send host api debug;
    recv = recv host api debug;
    put = put host api debug;
    get_max_tag = get_max_tag host api;
    barrier = barrier host api;
    alloc_handler = alloc_handler host api;
    free_handler = free_handler host api;
    alloc_cq = alloc_cq host api;
    free_cq = free_cq host api;
    poll_cq = poll_cq host api;
    set_custom_allocator = set_custom_allocator host api;
  }
