-- ===== src/Gex/Table.antt =====
-- backend_gex_t as a table of virtual functions. What it does not override is backend_base_t's,
-- from src/backend/backend.cpp: its completion queues have 65536 elements.
use lcw.Base.{pos, gets}
use lcw.Comp.{Host}
use lcw.Comp
use lcw.Backend.{Backend}
use lcw.Gex.{
  GexApi, State, in_runtime, initialize, finalize, alloc_device, free_device, do_progress, send,
  recv, put, get_max_tag, barrier, set_custom_allocator,
}

module _ {W : Type 0} (host : Host W) (api : GexApi W) where
  abbrev pub backend_gex : Backend (State W)
  backend_gex = record {
    counters = λ s. s.counters;
    with_counters = λ c s. record s { runtime = record s.runtime { counters = c } };
    initialize = initialize host api;
    finalize = finalize host api;
    get_rank = gets (λ s. s.rank_me);
    get_nranks = gets (λ s. s.rank_n);
    alloc_device = alloc_device host api;
    free_device = free_device host api;
    do_progress = do_progress host api;
    send = send host api;
    recv = recv host api;
    put = put host api;
    get_max_tag = get_max_tag host api;
    barrier = barrier host api;
    alloc_handler = λ f. in_runtime (Comp.alloc_handler f);
    free_handler = λ h. in_runtime (Comp.free_handler h);
    alloc_cq = in_runtime (Comp.alloc_cq host (pos 65536));
    free_cq = λ c. in_runtime (Comp.free_cq host c);
    poll_cq = λ c. in_runtime (Comp.poll_cq host c);
    set_custom_allocator = set_custom_allocator host api;
  }
