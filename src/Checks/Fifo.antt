-- ===== src/Checks/Fifo.antt =====
-- Completion queues over concrete LCT queues.
use lcw.Base.{
  ℕ, pos, ◌≡◌, ◌≢◌, refl, sym, ap, Bool, true, false, Option, none, some, List, [], ◌∷◌, ◌++◌,
  length, get_elem?, set, get_elem?-append_length, get_elem?-append_some, get_elem?-set_self,
  get_elem?-set_ne, lt-length_of_some,
}
use lcw.Api.{OpT, RequestT}
use lcw.Comp.{Host, Runtime}
use lcw.Comp.Fifo.{first, rest, QueueLaws, Fifos, Op, allocs, frees, signals, polls, run, spec_run}
use lcw.Comp.Fifo.State.{Agree}
use lcw.Comp.Fifo.Refinement.{run-Agree}
use lcw.Checks.World.{fresh_process}

-- The queues by their number; `none` has been freed.
abbrev Queues : Type 0
Queues = List (Option (List RequestT))

abbrev list_of : Option (Option (List RequestT)) → List RequestT
list_of (some (some xs)) = xs
list_of _ = []

abbrev is_there : Option (Option (List RequestT)) → Bool
is_there (some (some xs)) = true
is_there _ = false

abbrev contents : Queues → ℕ → List RequestT
contents w q = list_of (get_elem? w q)

abbrev opened : Queues → ℕ → Bool
opened w q = is_there (get_elem? w q)

abbrev host : Host Queues
host = record {
  queue_alloc = λ t n w. (length w, w ++ some [] ∷ []);
  queue_free = λ q w. set w q none;
  queue_push = λ q r w. set w q (some (contents w q ++ r ∷ []));
  queue_pop = λ q w. (first (contents w q), set w q (some (rest (contents w q))));
  invoke = λ f r w. w;
  allocate = λ a n w. (none, w);
  new_chars = λ n w. (none, w);
  memcpy = λ d s n w. w;
}

past : (w : Queues) → get_elem? w (length w) ≡ none
past [] = refl
past (x ∷ w) = past w

at_some : (w : Queues) (q : ℕ) → opened w q ≡ true → get_elem? w q ≡ some (some (contents w q))
at_some w q o = go (get_elem? w q) o
  where
    go : (x : Option (Option (List RequestT))) → is_there x ≡ true → x ≡ some (some (list_of x))
    go none e = absurd cc
    go (some none) e = absurd cc
    go (some (some xs)) e = refl

-- What stands at a queue tells whether it is open, and what it holds.
by_entry :
    (w w' : Queues) (q q' : ℕ)
    → get_elem? w' q' ≡ get_elem? w q
    → (opened w' q' ≡ opened w q) × (contents w' q' ≡ contents w q)
by_entry w w' q q' e = (ap is_there e, ap list_of e)

written :
    (w : Queues) (q : ℕ) (xs : List RequestT)
    → opened w q ≡ true
    → (opened (set w q (some xs)) q ≡ true) × (contents (set w q (some xs)) q ≡ xs)
written w q xs o =
    let e = get_elem?-set_self w q (some xs) (lt-length_of_some w q (at_some w q o)) in
    (ap is_there e, ap list_of e)

elsewhere :
    (w : Queues) (p q : ℕ) (v : Option (List RequestT))
    → q ≢ p
    → (opened (set w p v) q ≡ opened w q) × (contents (set w p v) q ≡ contents w q)
elsewhere w p q v n = by_entry w _ q q (get_elem?-set_ne w v (λ e. n (sym e)))

laws : QueueLaws host contents opened
laws = record {
  alloc_new = λ t n w. ap is_there (past w);
  alloc_opens = λ t n w. ap is_there (get_elem?-append_length w (some []));
  alloc_empty = λ t n w. ap list_of (get_elem?-append_length w (some []));
  alloc_others = λ t n w q o.
      let e = get_elem?-append_some w (some [] ∷ []) q (at_some w q o) in
      (ap is_there e, ap list_of e);
  free_others = λ p w q n. elsewhere w p q none n;
  push_self = λ p r w o. written w p _ o;
  push_others = λ p r w q n. elsewhere w p q _ n;
  pop_self = λ p w o. (refl, (written w p _ o).0, (written w p _ o).1);
  pop_others = λ p w q n. elsewhere w p q _ n;
}

abbrev start : Runtime Queues
start = record {
  comps = [];
  counters = (fresh_process []).state.counters;
  allocator = 0;
  world = [];
}

abbrev no_lists : Fifos
no_lists = record { next = 0; queue = λ p. none }

abbrev message : ℕ → RequestT
message u = record {
  op = OpT.recv;
  device = some 0;
  rank = pos 1;
  tag = pos 5;
  buffer = some 16;
  length = pos 8;
  user_context = u;
}

-- Two queues; messages 1 and 2 go to the second, which is polled, and the first is released.
abbrev ops : List Op
ops =
    allocs (pos 64)
    ∷ allocs (pos 64)
    ∷ signals 1 (message 1)
    ∷ signals 1 (message 2)
    ∷ frees 0
    ∷ polls 1
    ∷ polls 1
    ∷ polls 1
    ∷ []

run-Agree_example : Agree contents opened (run host ops start) (spec_run ops no_lists)
run-Agree_example =
    run-Agree laws ops start no_lists
      (record { size = refl; entry = λ p. tt; own = λ p p' q e e'. absurd cc })
