-- ===== src/Lci2/Delivery.antt =====
-- The request that poll_cq or a handler of the LCI2 backend gets.
use lcw.Base.{arith, ℕ, ◌+◌, ◌≡◌, refl, sym, ap, ◌∙◌, none, some, get_elem?, set, deref, ok}
use lcw.Api.{RequestT, Ptr}
use lcw.Comp.{Host, handler, comp_at, count}
use lcw.Contexts.{State, request_at, delete_request}
use lcw.Contexts.Ledger.{at, live, alive_there}
use lcw.Pcounter.{Trend}
use lcw.Contexts.Completion.{IsCompleted, IsEnd, choice-IsCompleted, choice-op, choice-IsEnd}
use lcw.Lci.{end_of, is_arrival}
use lcw.Lci.Keeps.{handed}
use lcw.Lci2.{
  Status, Lci2Api, DeviceT, completed, take_own, request_from, get_request_from_status, invoke,
  signal, polled, poll_cq,
}
use lcw.Lci2.Alive.{handed_by, Laws, Alive, nothing}

module _ {W : Type 0} {host : Host W} {api : Lci2Api W} {owed : W → ℕ → ℕ}
    (laws : Laws host api owed) where
  poll_cq_found :
      (c : Ptr) (t : Status) (p : ℕ) (w : W) (s : State DeviceT W) (r : RequestT)
      → api.cq_pop c s.world ≡ (some t, w)
      → t.user_context ≡ some p
      → get_elem? s.contexts p ≡ some (some r)
      → poll_cq host api c s
        ≡ ok (
          some (completed t r),
          record s {
            runtime = count (end_of (completed t r).op) (record s.runtime { world = w });
            contexts = set s.contexts p none;
          },
        )
  unfolding poll_cq polled get_request_from_status request_from take_own request_at delete_request
  poll_cq_found c t p w s r popped context there =
      rw (popped, context, ap deref there, ap deref there) refl

  -- Where the requests that live are those whose addresses LCI2 holds, poll_cq finds the request behind
  -- the user context of a completion and deletes it. It returns it, a send or a put as it was posted, a
  -- receive with the size that the completion reports, and it counts the end of a send, a put or a
  -- receive.
  pub poll_cq-handed :
      (c : Ptr) (t : Status) (p : ℕ) (w : W) (s : State DeviceT W)
      → Alive owed (nothing owed) s
      → api.cq_pop c s.world ≡ (some t, w)
      → t.user_context ≡ some p
      → (r q : RequestT) × (u : Trend) × (get_elem? s.contexts p ≡ some (some r))
        × IsCompleted t.size r q
        × IsEnd r.op u
        × (poll_cq host api c s
            ≡ ok (
              some q,
              record s {
                runtime = count u (record s.runtime { world = w });
                contexts = set s.contexts p none;
              },
            ))
  poll_cq-handed c t p w s alive popped context =
      let (r, there) = alive_there s.contexts p (owed w p) holds in
      (
        r,
        completed t r,
        end_of (completed t r).op,
        there,
        choice-IsCompleted is_arrival t.size r refl refl refl,
        choice-IsEnd end_of r.op (completed t r).op (choice-op (is_arrival r.op) t.size r) refl refl
            refl,
        poll_cq_found c t p w s r popped context there,
      )
    where
      holds : live s.contexts p ≡ owed w p + at p p
      holds =
          sym (alive p)
          ∙ omega (arith, laws.cq_pop c s.world p)
          ∙ ap (λ x. owed x.1 p + handed_by x.0 p) popped
          ∙ ap (λ u. owed w p + handed u p) context

  signal_found :
      (c p f : ℕ) (t : Status) (s : State DeviceT W) (r : RequestT)
      → deref (get_elem? s.comps c) ≡ some (handler f)
      → t.user_context ≡ some p
      → get_elem? s.contexts p ≡ some (some r)
      → signal host api (some c) t s
        ≡ ok (
          tt,
          record s {
            runtime = record s.runtime { world = host.invoke f (completed t r) s.world };
            contexts = set s.contexts p none;
          },
        )
  unfolding signal comp_at get_request_from_status request_from take_own request_at delete_request
      invoke
  signal_found c p f t s r found context there =
      rw (found, context, ap deref there, ap deref there) refl

  -- comp_handler_lci_t::signal, with a user context that has been handed back and not used: the
  -- handler's function is called with the request behind it, a send or a put as it was posted, a receive
  -- with the size that the completion reports, and the request is deleted.
  pub signal-handed :
      (c p f : ℕ) (t : Status) (k : ℕ → ℕ) (s : State DeviceT W)
      → Alive owed (λ q. at p q + k q) s
      → deref (get_elem? s.comps c) ≡ some (handler f)
      → t.user_context ≡ some p
      → (r q : RequestT) × (get_elem? s.contexts p ≡ some (some r))
        × IsCompleted t.size r q
        × (signal host api (some c) t s
            ≡ ok (
              tt,
              record s {
                runtime = record s.runtime { world = host.invoke f q s.world };
                contexts = set s.contexts p none;
              },
            ))
  signal-handed c p f t k s alive found context =
      let (r, there) = alive_there s.contexts p (owed s.world p + k p) (omega (arith, alive p)) in
      (
        r,
        completed t r,
        there,
        choice-IsCompleted is_arrival t.size r refl refl refl,
        signal_found c p f t s r found context there,
      )
