-- ===== src/Mpi/Progress/Balance.antt =====
-- The ledger across do_progress of src/backend/mpi/backend_mpi.cpp.
use lcw.Base.{
  ℕ, ◌≡◌, refl, subst, sym, ap, Bool, true, false, Option, none, some, to_size_t, pos, Action, pure,
  modify, assert, ◌>>◌, Holds, Holds-bind, Holds-map, Keeps, Keeps-assert, ◌∙◌,
}
use lcw.Api.{Ptr, OpT, send, recv, put, put_signal}
use lcw.Comp.{Host}
use lcw.Comp
use lcw.Mpi.Types.{EntryT, Status, MpiApi, State, in_runtime}
use lcw.Mpi.Bigcount.{safecall}
use lcw.Mpi.Frame.{
  Core, Books, On, frame_rules, in_runtime-Keeps, device_at-Keeps, write_device-Keeps,
  in_world-Keeps, enter_stream_cs-Keeps, leave_stream_cs-Keeps,
}
use lcw.Mpi.Ledger.{Hand, Inv, Inv-Hand, Settles, signal_comp-Holds}
use lcw.Mpi.Device.Balance.{post_put_recv-Keeps}
use lcw.Mpi.Manager.Balance.{do_progress-Keeps as manager_progress-Keeps}
use lcw.Mpi.Progress.{
  unlock_put, is_put_signal, allocated, taken, copy_put, take_put, poll_put, progress_put,
  finish_put, do_progress,
}

module _ {W : Type 0} (host : Host W) (api : MpiApi W) (P : Core → Type 0) where
  -- A put that has been taken in is signalled as PUT_SIGNAL.
  abbrev Taken : Option EntryT → State W → Type 0
  Taken none s = On P s
  Taken (some e) s = On P s × (e.request.op ≡ put_signal)

  allocate-Keeps : (n : ℕ) → Keeps {S = State W} (On P) (in_runtime (Comp.allocate host n))
  allocate-Keeps n = in_runtime-Keeps P (Comp.allocate host n) λ c. Comp.allocate-counters host c n

  unlock_put-Keeps : (p : Ptr) → Keeps (On P) (unlock_put host api p)
  unfolding unlock_put
  unlock_put-Keeps p = search frame_rules depth 16

  assert_op :
      (op : OpT)
      → Holds {S = State W}
          (On P)
          (assert (is_put_signal host api op))
          (λ _ s. On P s × (op ≡ put_signal))
  unfolding is_put_signal
  assert_op send = record { at = λ s h. tt }
  assert_op recv = record { at = λ s h. tt }
  assert_op put = record { at = λ s h. tt }
  assert_op put_signal = record { at = λ s h. (h, refl) }

  same_op :
      (e e' : EntryT)
      → e'.request.op ≡ e.request.op
      → Holds {S = State W} (On P) (pure e') (λ a s. On P s × (a.request.op ≡ e.request.op))
  same_op e e' q = record { at = λ s h. (h, q) }

  copy_put-Holds :
      (e : EntryT) (st : Status)
      → Holds (On P) (copy_put host api e st) (λ e' s. On P s × (e'.request.op ≡ e.request.op))
  unfolding copy_put taken
  copy_put-Holds e st =
      Holds-bind _ (λ _. On P) _ _ (allocate-Keeps (to_size_t (pos st.count)))
        λ buffer.
          Holds-bind _ (λ _. On P) _ _ (Keeps-assert (On P) (allocated host api buffer))
            λ _.
              Holds-bind _ (λ _. On P) _ _ (in_world-Keeps P (copy buffer))
                λ _.
                  Holds-bind _ (λ _. On P) _ _
                    (post_put_recv-Keeps api P e.request.device e.completion)
                    λ _. same_op e (taken host api e st buffer) refl
    where
      copy : Ptr → Action W (Unit {0})
      copy buffer = modify (host.memcpy buffer e.request.buffer (to_size_t (pos st.count)))

  take_put-Holds : (p : Ptr) (st : Option Status) → Holds (On P) (take_put host api p st) Taken
  unfolding take_put
  take_put-Holds p none = record { at = λ s h. h }
  take_put-Holds p (some st) =
      Holds-bind _ (λ _. On P) _ _ (device_at-Keeps P p)
        λ d.
          Holds-bind _ (λ _ s. On P s × (d.put_entry.request.op ≡ put_signal)) _ _
            (assert_op d.put_entry.request.op)
            λ _.
              Holds-bind _ (λ e' s. On P s × (e'.request.op ≡ put_signal)) _ _ (copied d.put_entry)
                λ e. record { at = λ s h. h }
    where
      copied :
          (e : EntryT)
          → Holds
              (λ s. On P s × (e.request.op ≡ put_signal))
              (copy_put host api e st)
              (λ e' s. On P s × (e'.request.op ≡ put_signal))
      copied e = record {
        at = λ s h.
            (Holds-map (λ _ k. k) (λ _ _ k. (k.0, k.1 ∙ h.1)) (copy_put-Holds e st)).at s h.0;
      }

  poll_put-Holds : (p : Ptr) (r : ℕ) → Holds (On P) (poll_put host api p r) Taken
  unfolding poll_put
  poll_put-Holds p r =
      Holds-bind _ (λ _. On P) _ _ (device_at-Keeps P p)
        λ d.
          Holds-bind _ (λ _. On P) _ _
            (write_device-Keeps P p (record d { put_entry_locked = true }))
            λ _.
              Holds-bind _ (λ _. On P) _ _ (enter_stream_cs-Keeps P p)
                λ _.
                  Holds-bind _ (λ _. On P) _ _ (in_world-Keeps P (safecall (api.test r)))
                    λ st.
                      Holds-bind _ (λ _. On P) _ _ (leave_stream_cs-Keeps P p)
                        λ _. Holds-bind _ Taken _ _ (take_put-Holds p st) unlocked
    where
      unlocked : (o : Option EntryT) → Holds (Taken o) (do unlock_put host api p; pure o) Taken
      unlocked none =
          Holds-bind _ (λ _. On P) _ _ (unlock_put-Keeps p) λ _. record { at = λ s h. h }
      unlocked (some e) = record {
        at = λ s h.
            (Holds-bind _ (λ _. On P) _ Taken (unlock_put-Keeps p)
                λ _. record { at = λ t k. (k, h.1) }).at
              s h.0;
      }

  progress_put-Holds :
      (p : Ptr) (b : Bool) (r : Option ℕ) (l : Bool)
      → Holds (On P) (progress_put host api p b r l) Taken
  unfolding progress_put
  progress_put-Holds p false r l = record { at = λ s h. h }
  progress_put-Holds p true none l = record { at = λ s h. h }
  progress_put-Holds p true (some r) true = record { at = λ s h. h }
  progress_put-Holds p true (some r) false = poll_put-Holds p r

module _ {W : Type 0} (host : Host W) (api : MpiApi W) (w : OpT → ℕ) (L : ℕ → Books → Type 0)
    (settles : Settles W w L) (free : w put_signal ≡ 0) where
  finish_put-Holds :
      (o : Option EntryT)
      → Holds (Taken host api (Inv w L) o) (finish_put host api o) (λ _. On (Inv w L))
  unfolding finish_put
  finish_put-Holds none = record { at = λ s h. h }
  finish_put-Holds (some e) =
      Holds-bind _ (λ _. On (Inv w L)) _ _
        (Holds-map weigh (λ _ s h. h) (signal_comp-Holds host w L settles e))
        λ _. record { at = λ s h. h }
    where
      weigh : (s : State W) → Taken host api (Inv w L) (some e) s → On (Hand w L (w e.request.op)) s
      weigh s h = subst (λ n. On (Hand w L n) s) (sym (ap w h.1 ∙ free)) (Inv-Hand w L _ h.0)

  -- Progress on a device keeps every ledger in which an incoming put weighs nothing.
  pub do_progress-Keeps : (p : Ptr) → Keeps (On (Inv w L)) (do_progress host api p)
  unfolding do_progress
  do_progress-Keeps p =
      Holds-bind _ (λ _. On (Inv w L)) _ _ (device_at-Keeps (Inv w L) p)
        λ d.
          Holds-bind _ (Taken host api (Inv w L)) _ _
            (progress_put-Holds host api (Inv w L) p d.enable_put d.put_entry.mpi_req
              d.put_entry_locked)
            λ o.
              Holds-bind _ (λ _. On (Inv w L)) _ _ (finish_put-Holds o)
                λ succeed.
                  Holds-bind _ (λ _. On (Inv w L)) _ _ (device_at-Keeps (Inv w L) p)
                    λ d'.
                      Holds-bind _ (λ _. On (Inv w L)) _ _
                        (manager_progress-Keeps host api w L settles d'.comp_manager)
                        λ b. record { at = λ s h. h }
