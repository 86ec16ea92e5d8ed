-- ===== src/Comp/Fifo/Refinement.antt =====
-- The operations on queue objects against those of the specification.
use lcw.Base.{
  ℕ, ◌≡◌, refl, ap, ◌∙◌, subst, Bool, Option, none, some, List, [], ◌∷◌, ◌++◌, get_elem?, deref,
  Outcome, ok, fault, blocked, Action, to_size_t, then_with,
}
use lcw.Api.{RequestT}
use lcw.Comp.{
  Host, CompT, cq, handler, Runtime, lcrq, comp_at, new_comp, delete_comp, alloc_cq, destroy,
  free_cq, poll, poll_cq, signal, signal_comp,
}
use lcw.Comp.Fifo.{
  first, rest, QueueLaws, Fifos, Op, allocs, frees, signals, polls, allocated, polled, list_at,
  new_list, spec, spec_run, perform, run,
}
use lcw.Comp.Fifo.State.{Entry, Implements, Agree, changes, alloc-Implements, free-Implements}

module _ {W : Type 0} {host : Host W} {contents : W → ℕ → List RequestT} {opened : W → ℕ → Bool}
    (laws : QueueLaws host contents opened) where
  module _ (r : Runtime W) (s : Fifos) (h : Implements contents opened r s) where
    free-Agree :
        (p : ℕ) (c : Option CompT) (o : Option (List RequestT))
        → deref (get_elem? r.comps p) ≡ c
        → s.queue p ≡ o
        → Entry contents opened r.world c o
        → Agree contents opened (perform host (frees p) r) (spec (frees p) s)
    unfolding perform spec free_cq comp_at destroy delete_comp list_at
    free-Agree p none none at list e = rw (at, list) refl
    free-Agree p none (some xs) at list e = absurd e
    free-Agree p (some (cq q)) none at list e = absurd e
    free-Agree p (some (cq q)) (some xs) at list e =
        rw (at, list) (refl, free-Implements laws p q r s h at)
    free-Agree p (some (handler f)) none at list e = absurd e
    free-Agree p (some (handler f)) (some xs) at list e = absurd e

    signal-Agree :
        (p : ℕ) (m : RequestT) (c : Option CompT) (o : Option (List RequestT))
        → deref (get_elem? r.comps p) ≡ c
        → s.queue p ≡ o
        → Entry contents opened r.world c o
        → Agree contents opened (perform host (signals p m) r) (spec (signals p m) s)
    unfolding perform spec signal_comp comp_at signal list_at
    signal-Agree p m none none at list e = rw (at, list) refl
    signal-Agree p m none (some xs) at list e = absurd e
    signal-Agree p m (some (cq q)) none at list e = absurd e
    signal-Agree p m (some (cq q)) (some xs) at list e =
        let pushed = laws.push_self q m r.world e.0 in
        rw (at, list)
          (
            refl,
            changes contents opened r s p q (host.queue_push q m r.world) (xs ++ m ∷ []) h at
                (pushed.0, pushed.1 ∙ ap (λ ys. ys ++ m ∷ []) e.1) (laws.push_others q m r.world),
          )
    signal-Agree p m (some (handler f)) none at list e = absurd e
    signal-Agree p m (some (handler f)) (some xs) at list e = absurd e

    poll-Agree :
        (p : ℕ) (c : Option CompT) (o : Option (List RequestT))
        → deref (get_elem? r.comps p) ≡ c
        → s.queue p ≡ o
        → Entry contents opened r.world c o
        → Agree contents opened (perform host (polls p) r) (spec (polls p) s)
    unfolding perform spec poll_cq comp_at poll list_at
    poll-Agree p none none at list e = rw (at, list) refl
    poll-Agree p none (some xs) at list e = absurd e
    poll-Agree p (some (cq q)) none at list e = absurd e
    poll-Agree p (some (cq q)) (some xs) at list e =
        let popped = laws.pop_self q r.world e.0 in
        rw (at, list)
          (
            ap polled (popped.0 ∙ ap first e.1),
            changes contents opened r s p q (host.queue_pop q r.world).1 (rest xs) h at
                (popped.1, popped.2 ∙ ap rest e.1) (laws.pop_others q r.world),
          )
    poll-Agree p (some (handler f)) none at list e = absurd e
    poll-Agree p (some (handler f)) (some xs) at list e = absurd e

    perform-Agree : (o : Op) → Agree contents opened (perform host o r) (spec o s)
    unfolding perform spec alloc_cq new_comp new_list
    perform-Agree (allocs n) =
        (ap (λ k. allocated (some k)) h.size, alloc-Implements laws lcrq (to_size_t n) r s h)
    perform-Agree (frees p) =
        free-Agree p (deref (get_elem? r.comps p)) (s.queue p) refl refl (h.entry p)
    perform-Agree (signals p m) =
        signal-Agree p m (deref (get_elem? r.comps p)) (s.queue p) refl refl (h.entry p)
    perform-Agree (polls p) =
        poll-Agree p (deref (get_elem? r.comps p)) (s.queue p) refl refl (h.entry p)

  then-Agree :
      {A B : Type 0} (x : Outcome (A × Runtime W)) (y : Outcome (A × Fifos))
      (f : A → Action (Runtime W) B) (g : A → Action Fifos B)
      → Agree contents opened x y
      → ((a : A) (r : Runtime W) (s : Fifos)
          → Implements contents opened r s
          → Agree contents opened (f a r) (g a s))
      → Agree contents opened (then_with x f) (then_with y g)
  then-Agree (ok (a, r)) (ok (b, s)) f g (e, h) k =
      subst (λ b. Agree contents opened (f a r) (g b s)) e (k a r s h)
  then-Agree (fault x) (fault y) f g e k = e
  then-Agree (ok (a, r)) (fault y) f g e k = absurd e
  then-Agree (ok (a, r)) blocked f g e k = absurd e
  then-Agree (fault x) (ok (b, s)) f g e k = absurd e
  then-Agree (fault x) blocked f g e k = absurd e
  then-Agree blocked y f g e k = absurd e

  -- Completion queues are FIFO queues: any sequence of allocations, releases, signals and polls at
  -- comp_t objects gives the results of the specification, or the fault that it gives when a
  -- released object is used, if LCT's queues behave as documented and the two agree at the start.
  pub run-Agree :
      (os : List Op) (r : Runtime W) (s : Fifos)
      → Implements contents opened r s
      → Agree contents opened (run host os r) (spec_run os s)
  unfolding run spec_run
  run-Agree [] r s h = (refl, h)
  run-Agree (o ∷ os) r s h =
      then-Agree (perform host o r) (spec o s) _ _ (perform-Agree r s h o) λ a r' s' h'.
        then-Agree (run host os r') (spec_run os s') _ _ (run-Agree os r' s' h')
          λ results r'' s'' h''. (refl, h'')
