-- ===== src/Lci/Poll.antt =====
-- What poll_cq of the LCI backend does with the request behind a user context.
use lcw.Base.{
  ℕ, ℤ, pos, ◌+◌, ◌≡◌, refl, sym, ap, ◌∙◌, Bool, true, false, Option, none, some, get_elem?, set,
  deref, arith, ok, pure, assertion, modify, ◌>>◌, if◌then◌else◌, Holds, Holds-bind, Holds-pure,
  Keeps, Keeps-or_fault,
}
use lcw.Api.{Ptr, put_signal, RequestT}
use lcw.Pcounter.{Trend}
use lcw.Comp.{Host, count}
use lcw.Contexts.{State, in_world, with_world, delete_request, request_at, run}
use lcw.Contexts.Ledger.{
  at, live, Ledger, Opened, delete_request-Ledger, count-Ledger, modify-Ledger, run-Ledger,
  Returned, returned, request_at-Returned, alive_there,
}
use lcw.Contexts.Completion.{IsCompleted, IsEnd, choice-IsCompleted, choice-op, choice-IsEnd}
use lcw.Lci.{
  LciRequest, LciApi, DeviceT, completed, arrived, take_put, take_own, request_from, polled,
  poll_cq, is_arrival, end_of,
}
use lcw.Lci.Keeps.{Laws, handed, handed_by}

module _ {W : Type 0} {host : Host W} {api : LciApi W} {owed : W → ℕ → ℕ}
    (laws : Laws host api owed) where
  poll_cq_found :
      (c : Ptr) (l : LciRequest) (p : ℕ) (w : W) (s : State DeviceT W) (r : RequestT)
      → api.queue_pop c s.world ≡ (some l, w)
      → l.user_context ≡ some p
      → get_elem? s.contexts p ≡ some (some r)
      → poll_cq host api c s
        ≡ ok (
          some (completed l r),
          record s {
            runtime = count (end_of (completed l r).op) (record s.runtime { world = w });
            contexts = set s.contexts p none;
          },
        )
  unfolding poll_cq polled request_from take_own request_at delete_request
  poll_cq_found c l p w s r popped context there =
      rw (popped, context, ap deref there, ap deref there) refl

  -- Where the requests that live are those whose addresses LCI holds, poll_cq finds the request behind
  -- the user context of a completion and deletes it. It returns it, a send or a put as it was posted, a
  -- receive with the length in the member of the completion that belongs to its kind of message, and it
  -- counts the end of a send, a put or a receive.
  pub poll_cq-IsCompleted :
      (c : Ptr) (l : LciRequest) (p : ℕ) (w : W) (s : State DeviceT W)
      → ((q : ℕ) → owed s.world q ≡ live s.contexts q)
      → api.queue_pop c s.world ≡ (some l, w)
      → l.user_context ≡ some p
      → (r q : RequestT) × (t : Trend) × (get_elem? s.contexts p ≡ some (some r))
        × IsCompleted (if l.is_medium then l.mbuffer_length else l.lbuffer_length) r q
        × IsEnd r.op t
        × (poll_cq host api c s
            ≡ ok (
              some q,
              record s {
                runtime = count t (record s.runtime { world = w });
                contexts = set s.contexts p none;
              },
            ))
  poll_cq-IsCompleted c l p w s alive popped context =
      let (r, there) = alive_there s.contexts p (owed w p) holds in
      let n = if l.is_medium then l.mbuffer_length else l.lbuffer_length in
      (
        r,
        completed l r,
        end_of (completed l r).op,
        there,
        choice-IsCompleted is_arrival n r refl refl refl,
        choice-IsEnd end_of r.op (completed l r).op (choice-op (is_arrival r.op) n r) refl refl
            refl,
        poll_cq_found c l p w s r popped context there,
      )
    where
      holds : live s.contexts p ≡ owed w p + at p p
      holds =
          sym (alive p)
          ∙ laws.queue_pop c s.world p
          ∙ ap (λ x. owed x.1 p + handed_by x.0 p) popped
          ∙ ap (λ u. owed w p + handed u p) context

module _ {W : Type 0} {host : Host W} {api : LciApi W} {owed : W → ℕ → ℕ}
    (laws : Laws host api owed) (f : RequestT → ℕ)
    (same_length : (r : RequestT) (l : ℤ) → f (record r { length = l }) ≡ f r)
    (no_signal : (r : RequestT) → r.op ≡ put_signal → f r ≡ 0) where
  -- What a polled request takes from the weight `n` of those that live.
  abbrev pub gives : Option RequestT → ℕ
  gives none = 0
  gives (some r) = f r

  pub record Spent (n : ℕ) (o : Option RequestT) (s : State DeviceT W) : Type 0 where
    pub rest : ℕ
    pub ledger : Ledger owed f rest s
    pub split : rest + gives o ≡ n

  completed-weight : (l : LciRequest) (r : RequestT) → f (completed l r) ≡ f r
  completed-weight l r = go (is_arrival r.op)
    where
      go :
          (b : Bool)
          → f (
              if b
              then record r {
                length = pos (if l.is_medium then l.mbuffer_length else l.lbuffer_length);
              }
              else r)
            ≡ f r
      go true = same_length r _
      go false = refl

  take_put-Spent :
      (n : ℕ) (l : LciRequest)
      → Holds (Ledger owed f n) (take_put host api l) (λ r. Spent n (some r))
  unfolding take_put
  take_put-Spent n l =
      Holds-bind _ (λ _. Ledger owed f n) _ _
        (run-Ledger owed f n _ (laws.memalign l.mbuffer_length))
        λ found.
          Holds-bind _ (λ _. Ledger owed f n) _ _ (Keeps-or_fault _ found assertion)
            λ buffer.
              Holds-bind _ (λ _. Ledger owed f n) _ _
                (modify-Ledger owed f n _ (laws.memcpy buffer l.mbuffer_address l.mbuffer_length))
                λ _.
                  Holds-bind _ (λ _. Ledger owed f n) _ _
                    (modify-Ledger owed f n _ (laws.mbuffer_free l.mbuffer_address))
                    λ _. Holds-pure (arrived l buffer) λ s h. record {
                      rest = n;
                      ledger = h;
                      split = omega (arith, no_signal (arrived l buffer) refl);
                    }

  closes :
      (n p : ℕ) (l : LciRequest) (r : RequestT) (m : ℕ)
      → m + f r ≡ n
      → Holds
          (Opened owed f m p r)
          (do delete_request p; pure (completed l r))
          (λ r'. Spent n (some r'))
  closes n p l r m e =
      Holds-bind _ (λ _. Ledger owed f m) _ _ (delete_request-Ledger owed f m p r)
        λ _.
          Holds-pure (completed l r)
            λ s h. record { rest = m; ledger = h; split = omega (arith, completed-weight l r, e) }

  take_own-Spent :
      (n p : ℕ) (l : LciRequest)
      → Holds (Returned owed f n p) (take_own host api l p) (λ r. Spent n (some r))
  unfolding take_own
  take_own-Spent n p l =
      Holds-bind _ (λ r s. (m : ℕ) × Opened owed f m p r s × (m + f r ≡ n)) _ _
        (request_at-Returned owed f n p)
        λ r. record { at = λ s (m, o, e). (closes n p l r m e).at s o }

  -- What holds after the pop, by what was popped.
  abbrev Handed : ℕ → Ptr → State DeviceT W → Type 0
  Handed n none = Ledger owed f n
  Handed n (some p) = Returned owed f n p

  abbrev Popped : ℕ → Option LciRequest → State DeviceT W → Type 0
  Popped n none = Ledger owed f n
  Popped n (some l) = Handed n l.user_context

  request_from-Spent :
      (n : ℕ) (l : LciRequest) (c : Ptr)
      → Holds (Handed n c) (request_from host api l c) (λ r. Spent n (some r))
  unfolding request_from
  request_from-Spent n l none = take_put-Spent n l
  request_from-Spent n l (some p) = take_own-Spent n p l

  count-Spent :
      (n : ℕ) (o : Option RequestT) (t : Trend)
      → Keeps (Spent n o) (modify (λ s. record s { runtime = count t s.runtime }))
  count-Spent n o t = record {
    at = λ s h. record {
      rest = h.rest;
      ledger = (count-Ledger owed f h.rest t).at s h.ledger;
      split = h.split;
    };
  }

  polled-Spent : (n : ℕ) (o : Option LciRequest) → Holds (Popped n o) (polled host api o) (Spent n)
  unfolding polled
  polled-Spent n none = Holds-pure none λ s h. record { rest = n; ledger = h; split = omega arith }
  polled-Spent n (some l) =
      Holds-bind _ (λ r. Spent n (some r)) _ _ (request_from-Spent n l l.user_context)
        λ r.
          Holds-bind (modify (λ s. record s { runtime = count (end_of r.op) s.runtime }))
            (λ _. Spent n (some r)) _ _ (count-Spent n (some r) (end_of r.op))
            λ _. Holds-pure (some r) λ s h. h

  handed-Handed :
      (n : ℕ) (c : Ptr) (w : W) (s : State DeviceT W)
      → ((q : ℕ) → owed s.world q ≡ owed w q + handed c q)
      → Ledger owed f n s
      → Handed n c (with_world w s)
  handed-Handed n none w s l h = record {
    alive = λ q. omega (arith, l q, h.alive q);
    weight = h.weight;
  }
  handed-Handed n (some p) w s l h = returned owed f n p s w h l

  queue_pop-Popped :
      (n : ℕ) (o : Option LciRequest) (w : W) (s : State DeviceT W)
      → ((q : ℕ) → owed s.world q ≡ owed w q + handed_by o q)
      → Ledger owed f n s
      → Popped n o (with_world w s)
  queue_pop-Popped n none w s l h = handed-Handed n none w s l h
  queue_pop-Popped n (some r) w s l h = handed-Handed n r.user_context w s l h

  -- A poll that returns a request takes what it weighs from those that live.
  pub poll_cq-Spent : (n : ℕ) (c : Ptr) → Holds (Ledger owed f n) (poll_cq host api c) (Spent n)
  unfolding poll_cq
  poll_cq-Spent n c =
      Holds-bind (in_world (run (api.queue_pop c))) (Popped n) _ _
        (record { at = λ s h. queue_pop-Popped n _ _ s (laws.queue_pop c s.world) h })
        (polled-Spent n)
