-- ===== src/Comp/Fifo.antt =====
-- Completion queues as the users of comp_t see them, over what LCT documents of its queues.
pub mod State
pub mod Refinement
use lcw.Base.{
  ℕ, zero, suc, ℤ, pos, ◌+◌, ◌≡◌, ◌≢◌, refl, sym, ap, ◌∙◌, subst, Bool, true, false, Option, none,
  some, List, [], ◌∷◌, ◌++◌, length, length-append, length-set, get_elem?, set, deref,
  get_elem?-append_length, arith, Outcome, ok, fault, blocked, bad_pointer, Action, pure, modify,
  or_fault, ◌>>=◌, ◌>>◌, to_size_t, ◌==◌, ==_iff, if◌then◌else◌, Bool-cases, inl, inr, then_with,
}
use lcw.Api.{Ptr, RequestT}
use lcw.Comp.{
  Host, CompT, cq, handler, Runtime, QueueType, lcrq, comp_at, new_comp, delete_comp, alloc_cq,
  destroy, free_cq, poll, poll_cq, signal, signal_comp,
}

-- What a queue gives next, and what it keeps.
abbrev pub first : List RequestT → Option RequestT
first [] = none
first (x ∷ xs) = some x

abbrev pub rest : List RequestT → List RequestT
rest [] = []
rest (x ∷ xs) = xs

-- LCT's queues are FIFO queues; `contents` is what one holds, and `opened` says that it has been
-- allocated and not freed.
pub record QueueLaws {W : Type 0} (host : Host W) (contents : W → ℕ → List RequestT)
    (opened : W → ℕ → Bool) : Type 0 where
  pub alloc_new : (t : QueueType) (n : ℕ) (w : W) → opened w (host.queue_alloc t n w).0 ≡ false
  pub alloc_opens :
      (t : QueueType) (n : ℕ) (w : W)
      → opened (host.queue_alloc t n w).1 (host.queue_alloc t n w).0 ≡ true
  pub alloc_empty :
      (t : QueueType) (n : ℕ) (w : W)
      → contents (host.queue_alloc t n w).1 (host.queue_alloc t n w).0 ≡ []
  pub alloc_others :
      (t : QueueType) (n : ℕ) (w : W) (q : ℕ)
      → opened w q ≡ true
      → (opened (host.queue_alloc t n w).1 q ≡ true)
        × (contents (host.queue_alloc t n w).1 q ≡ contents w q)
  pub free_others :
      (p : ℕ) (w : W) (q : ℕ)
      → q ≢ p
      → (opened (host.queue_free p w) q ≡ opened w q)
        × (contents (host.queue_free p w) q ≡ contents w q)
  pub push_self :
      (p : ℕ) (r : RequestT) (w : W)
      → opened w p ≡ true
      → (opened (host.queue_push p r w) p ≡ true)
        × (contents (host.queue_push p r w) p ≡ contents w p ++ r ∷ [])
  pub push_others :
      (p : ℕ) (r : RequestT) (w : W) (q : ℕ)
      → q ≢ p
      → (opened (host.queue_push p r w) q ≡ opened w q)
        × (contents (host.queue_push p r w) q ≡ contents w q)
  pub pop_self :
      (p : ℕ) (w : W)
      → opened w p ≡ true
      → ((host.queue_pop p w).0 ≡ first (contents w p))
        × (opened (host.queue_pop p w).1 p ≡ true)
        × (contents (host.queue_pop p w).1 p ≡ rest (contents w p))
  pub pop_others :
      (p : ℕ) (w : W) (q : ℕ)
      → q ≢ p
      → (opened (host.queue_pop p w).1 q ≡ opened w q)
        × (contents (host.queue_pop p w).1 q ≡ contents w q)

-- The specification: a list for each live queue, in the order of the signals.
pub record Fifos : Type 0 where
  pub next : ℕ
  pub queue : ℕ → Option (List RequestT)

pub data Op : Type 0 where
  allocs : ℤ → Op
  frees : ℕ → Op
  signals : ℕ → RequestT → Op
  polls : ℕ → Op

pub data Result : Type 0 where
  allocated : Ptr → Result
  done : Result
  polled : Option RequestT → Result

abbrev pub update : ℕ → Option (List RequestT) → Fifos → Fifos
update p v s = record s { queue = λ q. if q == p then v else s.queue q }

unfoldable pub list_at : ℕ → Action Fifos (List RequestT)
list_at p s = or_fault (s.queue p) bad_pointer s

unfoldable pub new_list : Action Fifos Result
new_list s = ok (allocated (some s.next), record (update s.next (some []) s) { next = s.next + 1 })

unfoldable pub spec : Op → Action Fifos Result
unfolding list_at new_list
spec (allocs n) = new_list
spec (frees p) = do xs ← list_at p; modify (update p none); pure done
spec (signals p r) = do xs ← list_at p; modify (update p (some (xs ++ r ∷ []))); pure done
spec (polls p) = do xs ← list_at p; modify (update p (some (rest xs))); pure (polled (first xs))

unfoldable pub spec_run : List Op → Action Fifos (List Result)
unfolding spec
spec_run [] = pure []
spec_run (o ∷ os) = do r ← spec o; rs ← spec_run os; pure (r ∷ rs)

module _ {W : Type 0} (host : Host W) where
  unfoldable pub perform : Op → Action (Runtime W) Result
  perform (allocs n) = do p ← alloc_cq host n; pure (allocated p)
  perform (frees p) = do free_cq host (some p); pure done
  perform (signals p r) = do signal_comp host (some p) r; pure done
  perform (polls p) = do o ← poll_cq host (some p); pure (polled o)

  unfoldable pub run : List Op → Action (Runtime W) (List Result)
  unfolding perform
  run [] = pure []
  run (o ∷ os) = do r ← perform o; rs ← run os; pure (r ∷ rs)
