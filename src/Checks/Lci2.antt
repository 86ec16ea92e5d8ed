-- ===== src/Checks/Lci2.antt =====
-- A concrete LCI2 that holds up to two user contexts, completes them in order, and signals one to a
-- handler when it makes progress; and the LCI2 backend over it.
use lcw.Base.{
  ℕ, zero, suc, pos, ◌+◌, ◌≡◌, ◌≢◌, refl, Bool, true, false, Option, none, some, List, [], ◌∷◌,
  ◌++◌, length, total, total-append, arith, ok, ltb, to_size_t, if◌then◌else◌, get_elem?, set,
}
use lcw.Api.{Ptr, OpT, RequestT}
use lcw.Comp.{Host, handler, count}
use lcw.Comp
use lcw.Contexts.{State, next_id, new_device, new_request, device_at, delete_request, request_at}
use lcw.Contexts.Ledger.{at, live}
use lcw.Lci.{request_of, end_of}
use lcw.Lci2.{Posted, posted, retry, done, Status, Lci2Api, DeviceT, completed, is_posted}
use lcw.Contexts.Completion.{IsCompleted, IsEnd}
use lcw.Pcounter.{Trend}
use lcw.Lci2
use lcw.Lci2.Alive.{Laws, Takes, handed_by, handed_to, Alive, nothing}
use lcw.Lci2.Delivery.{poll_cq-handed, signal-handed}
use lcw.Lci2.History.{
  Call, allocs_device, allocs_handler, sends, recvs, polls, progresses, run, run-Alive,
}
use lcw.Checks.World.{fresh_process}

abbrev Held : Type 0
Held = List ℕ

abbrev host : Host Held
host = record {
  queue_alloc = λ t n w. (0, w);
  queue_free = λ q w. w;
  queue_push = λ q r w. w;
  queue_pop = λ q w. (none, w);
  invoke = λ f r w. w;
  allocate = λ a n w. (none, w);
  new_chars = λ n w. (none, w);
  memcpy = λ d s n w. w;
}

-- A message of six bytes.
abbrev completion : ℕ → Status
completion p = record { user_context = some p; rank = pos 1; tag = 5; buffer = some 40; size = 6 }

abbrev take_if : Bool → ℕ → Held → Posted × Held
take_if true p w = (posted, w ++ p ∷ [])
take_if false p w = (retry, w)

abbrev take : ℕ → Held → Posted × Held
take p w = take_if (ltb (length w) 2) p w

abbrev pop : Held → Option Status × Held
pop [] = (none, [])
pop (p ∷ w) = (some (completion p), w)

abbrev signals : Held → (Bool × List (Ptr × Status)) × Held
signals [] = ((false, []), [])
signals (p ∷ w) = ((true, (some 0, completion p) ∷ []), w)

abbrev api : Lci2Api Held
api = record {
  runtime_init = λ w. w;
  runtime_fina = λ w. w;
  rank_me = λ w. pos 0;
  rank_n = λ w. pos 2;
  max_bcopy_size = λ w. 8192;
  max_imm_tag = λ w. pos 65535;
  register_rcomp = λ c w. (4, w);
  deregister_rcomp = λ c w. w;
  alloc_device = λ w. (7, w);
  free_device = λ d w. w;
  progress = λ d. signals;
  barrier = λ d w. w;
  alloc_cq = λ w. (some 3, w);
  free_comp = λ c w. w;
  cq_pop = λ c. pop;
  post_send = λ d r b n t c p. take p;
  post_recv = λ d r b n t c p. take p;
  post_am = λ d r b n c m p. take p;
  set_allocator = λ a w. w;
  warn = λ n k w. w;
}

abbrev owed : Held → ℕ → ℕ
owed w q = total (λ p. at p q) w

take-Takes : (p : ℕ) → Takes owed p (take p)
take-Takes p = record {
  takes = λ w q. go (ltb (length w) 2) w q;
  not_done = λ w. never (ltb (length w) 2) w;
}
  where
    go :
        (b : Bool) (w : Held) (q : ℕ)
        → owed (take_if b p w).1 q ≡ owed w q + (if is_posted (take_if b p w).0 then at p q else 0)
    go true w q = omega (arith, total-append (λ p. at p q) w (p ∷ []))
    go false w q = omega arith

    never : (b : Bool) (w : Held) → (take_if b p w).0 ≢ done
    never true w = cc
    never false w = cc

pop-owed : (w : Held) (q : ℕ) → owed w q ≡ owed (pop w).1 q + handed_by (pop w).0 q
pop-owed [] q = omega arith
pop-owed (p ∷ w) q = omega arith

signals-owed :
    (w : Held) (q : ℕ) → owed w q ≡ owed (signals w).1 q + total (handed_to q) (signals w).0.1
signals-owed [] q = omega arith
signals-owed (p ∷ w) q = omega arith

laws : Laws host api owed
laws = record {
  cq_pop = λ c. pop-owed;
  progress = λ d. signals-owed;
  post_send = λ d r b n t c p. take-Takes p;
  post_recv = λ d r b n t c p. take-Takes p;
  post_am = λ d r b n c m p. take-Takes p;
  register_rcomp = λ c w q. refl;
  deregister_rcomp = λ c w q. refl;
  alloc_device = λ w q. refl;
  free_device = λ d w q. refl;
  barrier = λ d w q. refl;
  alloc_cq = λ w q. refl;
  free_comp = λ c w q. refl;
  set_allocator = λ a w q. refl;
  warn = λ n k w q. refl;
  invoke = λ f r w q. refl;
}

abbrev sent : ℕ → RequestT
sent u = request_of OpT.send (some 0) (pos 1) (pos 5) (some 16) (pos 8) u

abbrev received : ℕ → RequestT
received u = request_of OpT.recv (some 0) (pos 1) (pos 5) (some 24) (pos 8) u

abbrev start : State DeviceT Held
start = record {
  runtime = record {
    comps = [];
    counters = (fresh_process []).state.counters;
    allocator = 0;
    world = [];
  };
  g_ndevices = 0;
  devices = [];
  contexts = [];
}

-- The third post finds no room; the first request has been polled, the second given to the handler,
-- and a fourth is under way.
abbrev final : State DeviceT Held
final = record start {
  runtime =
      count (end_of OpT.recv)
        (record start.runtime { comps = some (handler 5) ∷ []; world = 3 ∷ [] });
  g_ndevices = 1;
  devices = record { id = 0; device = 7; rcomp = 4 } ∷ [];
  contexts = none ∷ none ∷ none ∷ some (sent 93) ∷ [];
}

abbrev calls : List Call
calls =
    allocs_handler 5
    ∷ allocs_device (pos 0) (some 3)
    ∷ recvs (some 0) (pos 1) (pos 5) (some 24) (pos 8) (some 3) 90
    ∷ sends (some 0) (pos 1) (pos 5) (some 16) (pos 8) (some 0) 91
    ∷ recvs (some 0) (pos 1) (pos 5) (some 24) (pos 8) (some 3) 92
    ∷ polls (some 3)
    ∷ progresses (some 0)
    ∷ sends (some 0) (pos 1) (pos 5) (some 16) (pos 8) (some 3) 93
    ∷ []

run-final : run host api true calls start ≡ ok (tt, final)
unfolding run Lci2.alloc_device Lci2.recv Lci2.send Lci2.poll_cq Lci2.do_progress Comp.alloc_handler
    Comp.comp_at next_id new_device new_request device_at delete_request request_at to_size_t
run-final = refl

run-Alive_example : Alive owed (nothing owed) final
run-Alive_example = run-Alive laws true calls start final (λ q. refl) run-final

abbrev waiting : State DeviceT Held
waiting = record start {
  runtime = record start.runtime { comps = some (handler 5) ∷ []; world = 0 ∷ [] };
  contexts = some (received 90) ∷ [];
}

poll_cq-handed_example :
    (r q : RequestT) × (u : Trend) × (get_elem? waiting.contexts 0 ≡ some (some r))
    × IsCompleted (completion 0).size r q
    × IsEnd r.op u
    × (Lci2.poll_cq host api (some 3) waiting
        ≡ ok (
          some q,
          record waiting {
            runtime = count u (record waiting.runtime { world = [] });
            contexts = set waiting.contexts 0 none;
          },
        ))
poll_cq-handed_example = poll_cq-handed laws (some 3) (completion 0) 0 [] waiting held refl refl
  where
    held : (q : ℕ) → owed waiting.world q + 0 ≡ live waiting.contexts q
    held zero = refl
    held (suc q) = ground arith

-- The completion has been handed back.
abbrev signalled : State DeviceT Held
signalled = record waiting { runtime = record waiting.runtime { world = [] } }

signal-handed_example :
    (r q : RequestT) × (get_elem? signalled.contexts 0 ≡ some (some r))
    × IsCompleted (completion 0).size r q
    × (Lci2.signal host api (some 0) (completion 0) signalled
        ≡ ok (
          tt,
          record signalled {
            runtime = record signalled.runtime { world = [] };
            contexts = set signalled.contexts 0 none;
          },
        ))
signal-handed_example = signal-handed laws 0 0 5 (completion 0) (λ q. 0) signalled held refl refl
  where
    held : (q : ℕ) → owed signalled.world q + (at 0 q + 0) ≡ live signalled.contexts q
    held zero = refl
    held (suc q) = ground arith
