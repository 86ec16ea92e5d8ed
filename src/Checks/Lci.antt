-- ===== src/Checks/Lci.antt =====
-- A concrete LCI that holds up to two user contexts and completes them in order, and the LCI backend
-- over it.
use lcw.Base.{
  ℕ, zero, suc, pos, ◌+◌, ◌≡◌, refl, sym, ap, Bool, true, false, Option, none, some, List, [], ◌∷◌,
  ◌++◌, length, total, total-append, arith, ok, ltb, if◌then◌else◌, get_elem?, set,
}
use lcw.Api.{OpT, put_signal, RequestT}
use lcw.Comp.{Host, count}
use lcw.Contexts.{State, next_id, new_device, new_request, device_at, delete_request, request_at}
use lcw.Contexts.Ledger.{at, live}
use lcw.Lci.{
  Code, lci_ok, lci_err_retry, LciRequest, LciApi, DeviceT, request_of, completed, end_of, is_ok,
}
use lcw.Contexts.Completion.{IsCompleted, IsEnd}
use lcw.Pcounter.{Trend}
use lcw.Lci
use lcw.Lci.Keeps.{Laws, Takes, handed_by}
use lcw.Lci.Poll.{poll_cq-IsCompleted}
use lcw.Lci.Posting.{post_returns}
use lcw.Lci.History.{Call, allocs_device, sends, recvs, polls, Log, run, Conserved, run-Conserved}
use lcw.Checks.World.{fresh_process}

abbrev Held : Type 0
Held = List ℕ

abbrev host : Host Held
host = record {
  queue_alloc = λ t n w. (0, w);
  queue_free = λ q w. w;
  queue_push = λ q r w. w;
  queue_pop = λ q w. (none, w);
  invoke = λ f r w. w;
  allocate = λ a n w. (none, w);
  new_chars = λ n w. (none, w);
  memcpy = λ d s n w. w;
}

-- A message of six bytes.
abbrev completion : ℕ → LciRequest
completion p = record {
  user_context = some p;
  rank = pos 1;
  tag = pos 5;
  is_medium = true;
  mbuffer_address = some 40;
  mbuffer_length = 6;
  lbuffer_length = 0;
}

abbrev take_if : Bool → ℕ → Held → Code × Held
take_if true p w = (lci_ok, w ++ p ∷ [])
take_if false p w = (lci_err_retry, w)

abbrev take : ℕ → Held → Code × Held
take p w = take_if (ltb (length w) 2) p w

abbrev pop : Held → Option LciRequest × Held
pop [] = (none, [])
pop (p ∷ w) = (some (completion p), w)

abbrev api : LciApi Held
api = record {
  medium_size = pos 8192;
  max_tag = pos 65535;
  ur_device = 0;
  rank = λ w. pos 0;
  num_processes = λ w. pos 2;
  initialize = λ w. some (tt, w);
  finalize = λ w. some (tt, w);
  device_init = λ w. some (1, w);
  device_free = λ d w. some (tt, w);
  plist_create = λ w. some (0, w);
  plist_set_comp_type = λ p t w. some (tt, w);
  plist_set_match_type = λ p w. some (tt, w);
  plist_set_default_comp = λ p c w. some (tt, w);
  plist_free = λ p w. some (tt, w);
  endpoint_init = λ d p w. some (7, w);
  endpoint_free = λ e w. some (tt, w);
  progress = λ d w. w;
  barrier = λ w. some (tt, w);
  queue_create = λ w. (some 3, w);
  queue_free = λ c w. w;
  queue_pop = λ c. pop;
  mbuffer_free = λ b w. w;
  memalign = λ n w. (some (some 80), w);
  sendmc = λ e b n r t c p. take p;
  sendl = λ e b n r t c p. take p;
  recvm = λ e b n r t c p. take p;
  recvl = λ e b n r t c p. take p;
  putmac = λ e b n r c p. take p;
  putla = λ e b n r c p. take p;
}

abbrev owed : Held → ℕ → ℕ
owed w q = total (λ p. at p q) w

take-Takes : (p : ℕ) → Takes owed p (take p)
take-Takes p w q = go (ltb (length w) 2)
  where
    go :
        (b : Bool)
        → owed (take_if b p w).1 q ≡ owed w q + (if is_ok (take_if b p w).0 then at p q else 0)
    go true = omega (arith, total-append (λ p. at p q) w (p ∷ []))
    go false = omega arith

abbrev world_of : {A : Type 0} → Held → Option (A × Held) → Held
world_of w none = w
world_of w (some (a, w')) = w'

unchanged :
    {A : Type 0} (a : A) (w w' : Held) (b : A)
    → ◌≡◌ {A = Option (A × Held)} (some (a, w)) (some (b, w'))
    → (q : ℕ) → owed w' q ≡ owed w q
unchanged a w w' b e q = ap (λ o. owed (world_of w o) q) (sym e)

pop-owed : (w : Held) (q : ℕ) → owed w q ≡ owed (pop w).1 q + handed_by (pop w).0 q
pop-owed [] q = omega arith
pop-owed (p ∷ w) q = omega arith

laws : Laws host api owed
laws = record {
  queue_pop = λ c. pop-owed;
  sendmc = λ e b n r t c p. take-Takes p;
  sendl = λ e b n r t c p. take-Takes p;
  recvm = λ e b n r t c p. take-Takes p;
  recvl = λ e b n r t c p. take-Takes p;
  putmac = λ e b n r c p. take-Takes p;
  putla = λ e b n r c p. take-Takes p;
  device_init = unchanged 1;
  device_free = λ d. unchanged tt;
  plist_create = unchanged 0;
  plist_set_comp_type = λ p t. unchanged tt;
  plist_set_match_type = λ p. unchanged tt;
  plist_set_default_comp = λ p c. unchanged tt;
  plist_free = λ p. unchanged tt;
  endpoint_init = λ d p. unchanged 7;
  endpoint_free = λ e. unchanged tt;
  barrier = unchanged tt;
  progress = λ d w q. refl;
  queue_create = λ w q. refl;
  queue_free = λ c w q. refl;
  mbuffer_free = λ b w q. refl;
  memalign = λ n w q. refl;
  memcpy = λ x y n w q. refl;
}

abbrev sent : ℕ → RequestT
sent u = request_of OpT.send (some 0) (pos 1) (pos 5) (some 16) (pos 8) u

abbrev received : ℕ → RequestT
received u = request_of OpT.recv (some 0) (pos 1) (pos 5) (some 24) (pos 8) u

abbrev start : State DeviceT Held
start = record {
  runtime = record {
    comps = [];
    counters = (fresh_process []).state.counters;
    allocator = 0;
    world = [];
  };
  g_ndevices = 0;
  devices = [];
  contexts = [];
}

-- The second receive finds no room, and its request is deleted.
abbrev final : State DeviceT Held
final = record start {
  runtime = count (end_of OpT.recv) (record start.runtime { world = 1 ∷ [] });
  g_ndevices = 1;
  devices = record { id = 0; device = 0; ep = 7 } ∷ [];
  contexts = none ∷ some (sent 91) ∷ none ∷ [];
}

abbrev calls : List Call
calls =
    allocs_device (pos 0) (some 3)
    ∷ recvs (some 0) (pos 1) (pos 5) (some 24) (pos 8) (some 3) 90
    ∷ sends (some 0) (pos 1) (pos 5) (some 16) (pos 8) (some 3) 91
    ∷ recvs (some 0) (pos 1) (pos 5) (some 24) (pos 8) (some 3) 92
    ∷ polls (some 3)
    ∷ []

abbrev no_log : Log
no_log = record { posted = []; polled = [] }

abbrev log : Log
log = record {
  posted = sent 91 ∷ received 90 ∷ [];
  polled = record (received 90) { length = pos 6 } ∷ [];
}

run-final : run host api true calls no_log start ≡ ok (log, final)
unfolding run Lci.alloc_device Lci.recv Lci.send Lci.poll_cq next_id new_device new_request
    device_at delete_request request_at
run-final = refl

-- Sends count 1, receives 2, puts 3.
abbrev by_op : OpT → ℕ
by_op OpT.send = 1
by_op OpT.recv = 2
by_op OpT.put = 3
by_op put_signal = 0

abbrev weight : RequestT → ℕ
weight r = by_op r.op

run-Conserved_example : Conserved laws weight (λ r l. refl) (λ r e. ap by_op e) log final
run-Conserved_example =
    run-Conserved laws weight (λ r l. refl) (λ r e. ap by_op e) true calls no_log log start final
      (record { rest = 0; ledger = record { alive = λ q. refl; weight = refl }; sum = refl })
      run-final

abbrev waiting : State DeviceT Held
waiting = record start {
  runtime = record start.runtime { world = 0 ∷ [] };
  contexts = some (received 90) ∷ [];
}

poll_cq-IsCompleted_example :
    (r q : RequestT) × (t : Trend) × (get_elem? waiting.contexts 0 ≡ some (some r))
    × IsCompleted
        (if (completion 0).is_medium
          then (completion 0).mbuffer_length
          else (completion 0).lbuffer_length)
        r
        q
    × IsEnd r.op t
    × (Lci.poll_cq host api (some 3) waiting
        ≡ ok (
          some q,
          record waiting {
            runtime = count t (record waiting.runtime { world = [] });
            contexts = set waiting.contexts 0 none;
          },
        ))
poll_cq-IsCompleted_example =
    poll_cq-IsCompleted laws (some 3) (completion 0) 0 [] waiting held refl refl
  where
    held : (q : ℕ) → owed waiting.world q ≡ live waiting.contexts q
    held zero = refl
    held (suc q) = ground arith

-- Both places are taken.
abbrev full : State DeviceT Held
full = record start {
  runtime = record start.runtime { world = 0 ∷ 1 ∷ [] };
  devices = record { id = 0; device = 0; ep = 7 } ∷ [];
  contexts = some (sent 90) ∷ some (sent 91) ∷ [];
}

post_returns_example :
    Lci.post host api true (sent 92) (λ d p. take p) full
    ≡ ok (false, record full { contexts = some (sent 90) ∷ some (sent 91) ∷ none ∷ [] })
post_returns_example =
    post_returns host api true OpT.send (pos 1) (pos 5) (some 16) (pos 8) 92 (λ d p. take p) 0
      (record { id = 0; device = 0; ep = 7 }) lci_err_retry (0 ∷ 1 ∷ []) full refl refl refl
