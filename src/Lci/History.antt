-- ===== src/Lci/History.antt =====
-- Sequences of calls of the LCI backend, with the requests posted and polled.
use lcw.Base.{
  ℕ, ℤ, pos, ◌+◌, ◌≡◌, Bool, true, false, Option, none, some, List, [], ◌∷◌, total, arith, Action,
  pure, ◌>>=◌, ◌>>◌, Holds, Holds-bind, Holds-pure, Holds-map, Holds-at, ok, Keeps,
}
use lcw.Api.{Ptr, OpT, put_signal, RequestT}
use lcw.Comp.{Host}
use lcw.Contexts.{State}
use lcw.Contexts.Ledger.{Ledger}
use lcw.Lci.{
  LciApi, DeviceT, request_of, alloc_device, free_device, do_progress, alloc_cq, free_cq, poll_cq,
  send, recv, put, barrier,
}
use lcw.Lci.Keeps.{
  Laws, gain, alloc_device-Ledger, free_device-Ledger, do_progress-Ledger, alloc_cq-Ledger,
  free_cq-Ledger, send-Ledger, recv-Ledger, put-Ledger, barrier-Ledger,
}
use lcw.Lci.Poll.{Spent, poll_cq-Spent}

pub data Call : Type 0 where
  allocs_device : ℤ → Ptr → Call
  frees_device : Ptr → Call
  progresses : Ptr → Call
  allocs_cq : Call
  frees_cq : Ptr → Call
  polls : Ptr → Call
  sends :
      (device : Ptr) (rank tag : ℤ) (buf : Ptr) (length : ℤ) (completion : Ptr) (user_context : ℕ)
      → Call
  recvs :
      (device : Ptr) (rank tag : ℤ) (buf : Ptr) (length : ℤ) (completion : Ptr) (user_context : ℕ)
      → Call
  puts :
      (device : Ptr) (rank : ℤ) (buf : Ptr) (length : ℤ) (completion : Ptr) (user_context : ℕ)
      → Call
  barriers : Ptr → Call

-- The requests of the posts that returned true, and those that polls returned, latest first.
pub record Log : Type 0 where
  pub posted : List RequestT
  pub polled : List RequestT

abbrev pub log_post : RequestT → Bool → Log → Log
log_post r true t = record t { posted = r ∷ t.posted }
log_post r false t = t

abbrev pub log_poll : Option RequestT → Log → Log
log_poll none t = t
log_poll (some r) t = record t { polled = r ∷ t.polled }

module _ {W : Type 0} (host : Host W) (api : LciApi W) (debug : Bool) where
  perform : Call → Log → Action (State DeviceT W) Log
  perform (allocs_device n c) t = do p ← alloc_device host api n c; pure t
  perform (frees_device p) t = do free_device host api p; pure t
  perform (progresses p) t = do b ← do_progress host api p; pure t
  perform allocs_cq t = do c ← alloc_cq host api; pure t
  perform (frees_cq c) t = do free_cq host api c; pure t
  perform (polls c) t = do o ← poll_cq host api c; pure (log_poll o t)
  perform (sends d r g b n c u) t = do
    done ← send host api debug d r g b n c u
    pure (log_post (request_of OpT.send d r g b n u) done t)
  perform (recvs d r g b n c u) t = do
    done ← recv host api d r g b n c u
    pure (log_post (request_of OpT.recv d r g b n u) done t)
  perform (puts d r b n c u) t = do
    done ← put host api debug d r b n c u
    pure (log_post (request_of OpT.put d r (pos 0) b n u) done t)
  perform (barriers p) t = do barrier host api p; pure t

  unfoldable pub run : List Call → Log → Action (State DeviceT W) Log
  unfolding perform
  run [] t = pure t
  run (c ∷ cs) t = do t' ← perform c t; run cs t'

module _ {W : Type 0} {host : Host W} {api : LciApi W} {owed : W → ℕ → ℕ}
    (laws : Laws host api owed) (f : RequestT → ℕ)
    (same_length : (r : RequestT) (l : ℤ) → f (record r { length = l }) ≡ f r)
    (no_signal : (r : RequestT) → r.op ≡ put_signal → f r ≡ 0) where
  -- Posted is polled and alive.
  pub record Conserved (t : Log) (s : State DeviceT W) : Type 0 where
    pub rest : ℕ
    pub ledger : Ledger owed f rest s
    pub sum : total f t.posted ≡ total f t.polled + rest

  silent :
      {A : Type 0} (m : Action (State DeviceT W) A) (t : Log)
      → ((n : ℕ) → Keeps (Ledger owed f n) m)
      → Holds (Conserved t) (do a ← m; pure t) Conserved
  silent m t k =
      Holds-bind m (λ _. Conserved t) _ _
        (record {
          at = λ s h.
              (Holds-map (λ s x. x) (λ a s x. record { rest = h.rest; ledger = x; sum = h.sum })
                  (k h.rest)).at
                s h.ledger;
        })
        λ a. Holds-pure t λ s h. h

  log_post-Conserved :
      (r : RequestT) (m : Action (State DeviceT W) Bool) (t : Log)
      → ((n : ℕ) → Holds (Ledger owed f n) m (λ b. Ledger owed f (n + gain laws f n r b)))
      → Holds (Conserved t) (do b ← m; pure (log_post r b t)) Conserved
  log_post-Conserved r m t k =
      Holds-bind m (λ b. Conserved (log_post r b t)) _ _
        (record {
          at = λ s h.
              (Holds-map (λ s x. x) (λ b s x. logged b s h.rest x h.sum) (k h.rest)).at s h.ledger;
        })
        λ b. Holds-pure (log_post r b t) λ s h. h
    where
      logged :
          (b : Bool) (s : State DeviceT W) (n : ℕ)
          → Ledger owed f (n + gain laws f n r b) s
          → total f t.posted ≡ total f t.polled + n
          → Conserved (log_post r b t) s
      logged true s n h e = record { rest = n + f r; ledger = h; sum = omega (arith, e) }
      logged false s n h e = record { rest = n + 0; ledger = h; sum = omega (arith, e) }

  log_poll-Conserved :
      (c : Ptr) (t : Log)
      → Holds (Conserved t) (do o ← poll_cq host api c; pure (log_poll o t)) Conserved
  log_poll-Conserved c t =
      Holds-bind (poll_cq host api c) (λ o. Conserved (log_poll o t)) _ _
        (record {
          at = λ s h.
              (Holds-map (λ s x. x) (λ o s x. logged o s h.rest x h.sum)
                  (poll_cq-Spent laws f same_length no_signal h.rest c)).at
                s h.ledger;
        })
        λ o. Holds-pure (log_poll o t) λ s h. h
    where
      logged :
          (o : Option RequestT) (s : State DeviceT W) (n : ℕ)
          → Spent laws f same_length no_signal n o s
          → total f t.posted ≡ total f t.polled + n
          → Conserved (log_poll o t) s
      logged none s n h e = record {
        rest = h.rest;
        ledger = h.ledger;
        sum = omega (arith, e, h.split);
      }
      logged (some r) s n h e = record {
        rest = h.rest;
        ledger = h.ledger;
        sum = omega (arith, e, h.split);
      }

  perform-Conserved :
      (debug : Bool) (c : Call) (t : Log)
      → Holds (Conserved t) (perform host api debug c t) Conserved
  unfolding perform
  perform-Conserved debug (allocs_device n c) t = silent _ t (λ k. alloc_device-Ledger laws f k n c)
  perform-Conserved debug (frees_device p) t = silent _ t (λ k. free_device-Ledger laws f k p)
  perform-Conserved debug (progresses p) t = silent _ t (λ k. do_progress-Ledger laws f k p)
  perform-Conserved debug allocs_cq t = silent _ t (λ k. alloc_cq-Ledger laws f k)
  perform-Conserved debug (frees_cq c) t = silent _ t (λ k. free_cq-Ledger laws f k c)
  perform-Conserved debug (polls c) t = log_poll-Conserved c t
  perform-Conserved debug (sends d r g b n c u) t =
      log_post-Conserved _ _ t (λ k. send-Ledger laws f k debug d r g b n c u)
  perform-Conserved debug (recvs d r g b n c u) t =
      log_post-Conserved _ _ t (λ k. recv-Ledger laws f k d r g b n c u)
  perform-Conserved debug (puts d r b n c u) t =
      log_post-Conserved _ _ t (λ k. put-Ledger laws f k debug d r b n c u)
  perform-Conserved debug (barriers p) t = silent _ t (λ k. barrier-Ledger laws f k p)

  run_keeps :
      (debug : Bool) (cs : List Call) (t : Log)
      → Holds (Conserved t) (run host api debug cs t) Conserved
  unfolding run
  run_keeps debug [] t = Holds-pure t λ s h. h
  run_keeps debug (c ∷ cs) t =
      Holds-bind (perform host api debug c t) Conserved _ _ (perform-Conserved debug c t)
        λ t'. run_keeps debug cs t'

  -- After any history that returns: a request made for an operation lives exactly while LCI holds its
  -- address. And whatever a weight reads besides the length, the requests posted weigh as much as the
  -- ones polled, puts that arrive aside, with those that live, if all this holds of the start.
  pub run-Conserved :
      (debug : Bool) (cs : List Call) (t t' : Log) (s s' : State DeviceT W)
      → Conserved t s
      → run host api debug cs t s ≡ ok (t', s')
      → Conserved t' s'
  run-Conserved debug cs t t' s s' h e = Holds-at (run_keeps debug cs t) s e h
