-- ===== src/Mpi/Progress/Posted.antt =====
-- do_progress of src/backend/mpi/backend_mpi.cpp takes an incoming put out of a device's receive and
-- posts the receive again.
use lcw.Base.{
  ℕ, ◌≡◌, refl, sym, ap, subst, Bool, true, false, Option, none, some, to_size_t, pos, Action, pure,
  modify, assert, ◌>>=◌, ◌>>◌, Keeps-bind, Holds, Holds-bind, Holds-map, Keeps, Keeps-assert,
  Keeps-pure,
}
use mathlib.Core.Option.{some-injective, none-ne-some}
use lcw.Api.{Ptr}
use lcw.Comp.{Host, Runtime}
use lcw.Comp
use lcw.Mpi.Types.{EntryT, DeviceT, Status, MpiApi, State, in_runtime, write_device}
use lcw.Mpi.Bigcount.{safecall}
use lcw.Mpi.Device.{post_put_recv}
use lcw.Mpi.Put.{
  Devices, Found, device_at-Holds, in_world-Keeps, in_runtime-Keeps, enter_stream_cs-Keeps,
  leave_stream_cs-Keeps, Ignores, Each-set, put_rules,
}
use lcw.Mpi.Put.Receive.{IsPosted, IsPosted-Ignores, IsPosted-IsAwaiting, post_put_recv-Holds}
use lcw.Mpi.Manager.Posted.{signal_comp-Keeps, do_progress-Keeps as manager_progress-Keeps}
use lcw.Mpi.Progress.{
  unlock_put, is_put_signal, allocated, taken, copy_put, take_put, poll_put, progress_put,
  finish_put, do_progress,
}

module _ {W : Type 0} (host : Host W) (api : MpiApi W) where
  abbrev Held : Option ℕ → State W → Type 0
  Held o = Devices (IsPosted api o)

  -- `try_lock` on the entry of the device at `p`, and `unlock`.
  take-lock :
      (p : ℕ) (d : DeviceT)
      → Holds
          (Found (IsPosted api none) (some p) d)
          (write_device (some p) (record d { put_entry_locked = true }))
          (λ _. Held (some p))
  take-lock p d = record {
    at = λ s h.
        let k = h.0 p d h.1 in
        Each-set (IsPosted api (some p)) s.devices p _
          (λ q e _ l.
            let m = h.0 q e l in
            record {
              request = m.request;
              device = m.device;
              is_open = record { enabled = m.is_open.enabled; tags = m.is_open.tags };
              unlocked = λ u. absurd (none-ne-some q (m.unlocked u));
            })
          (record {
            request = k.request;
            device = k.device;
            is_open = record { enabled = k.is_open.enabled; tags = k.is_open.tags };
            unlocked = λ _. refl;
          });
  }

  unlock_put-Holds : (p : ℕ) → Holds (Held (some p)) (unlock_put host api (some p)) (λ _. Held none)
  unfolding unlock_put
  unlock_put-Holds p =
      Holds-bind _ (Found (IsPosted api (some p)) (some p)) _ _ (device_at-Holds _ (some p)) λ d.
        record {
          at = λ s h.
              let k = h.0 p d h.1 in
              Each-set (IsPosted api none) s.devices p _
                (λ q e n l.
                  let m = h.0 q e l in
                  record {
                    request = m.request;
                    device = m.device;
                    is_open = record { enabled = m.is_open.enabled; tags = m.is_open.tags };
                    unlocked = λ u. absurd (n (sym (some-injective p q (m.unlocked u))));
                  })
                (record {
                  request = k.request;
                  device = k.device;
                  is_open = record { enabled = k.is_open.enabled; tags = k.is_open.tags };
                  unlocked = λ u. absurd (cc);
                });
        }

  post_put_recv-Keeps :
      (p : ℕ) (o : Option ℕ) (c : Ptr) → Keeps (Held o) (post_put_recv api (some p) c)
  post_put_recv-Keeps p o c =
      Holds-map (λ s h q e l. IsPosted-IsAwaiting api o p q e (h q e l)) (λ _ _ h. h)
        (post_put_recv-Holds api o p c)

  copy_put-Keeps :
      (p : ℕ) (o : Option ℕ) (e : EntryT) (st : Status)
      → e.request.device ≡ some p
      → Keeps (Held o) (copy_put host api e st)
  unfolding copy_put
  copy_put-Keeps p o e st h =
      Keeps-bind (Held o) _ _ (allocated-Keeps (Comp.allocate host (to_size_t (pos st.count)))) λ b.
        Keeps-bind (Held o) _ _ (Keeps-assert (Held o) (allocated host api b)) λ _.
          Keeps-bind (Held o) _ _ (in_world-Keeps _ (copy b))
            λ _. Keeps-bind (Held o) _ _ copied λ _. Keeps-pure (Held o) (taken host api e st b)
    where
      allocated-Keeps : (m : Action (Runtime W) Ptr) → Keeps (Held o) (in_runtime m)
      allocated-Keeps m = in_runtime-Keeps _ m

      copy : Ptr → Action W (Unit {0})
      copy b = modify (host.memcpy b e.request.buffer (to_size_t (pos st.count)))

      copied : Keeps (Held o) (post_put_recv api e.request.device e.completion)
      copied =
          subst (λ q. Keeps (Held o) (post_put_recv api q e.completion)) (sym h)
            (post_put_recv-Keeps p o e.completion)

  take_put-Keeps :
      (p : ℕ) (o : Option ℕ) (st : Option Status) → Keeps (Held o) (take_put host api (some p) st)
  unfolding take_put
  take_put-Keeps p o none = Keeps-pure (Held o) none
  take_put-Keeps p o (some st) =
      Holds-bind _ (Found (IsPosted api o) (some p)) _ _ (device_at-Holds _ (some p)) λ d. record {
        at = λ s h. (taken-Keeps d (ap (λ r. r.device) (h.0 p d h.1).request)).at s h.0;
      }
    where
      taken-Keeps :
          (d : DeviceT)
          → d.put_entry.request.device ≡ some p
          → Keeps (Held o) (do
            assert (is_put_signal host api d.put_entry.request.op)
            entry ← copy_put host api d.put_entry st
            pure (some entry))
      taken-Keeps d h = search (put_rules, copy_put-Keeps p o, h)

  poll_put-Keeps : (p : Ptr) (r : ℕ) → Keeps (Held none) (poll_put host api p r)
  unfolding poll_put
  poll_put-Keeps none r =
      Holds-bind _ (Found (IsPosted api none) none) _ _ (device_at-Holds _ none)
        λ d. record { at = λ s h. absurd h }
  poll_put-Keeps (some p) r =
      Holds-bind _ (Found (IsPosted api none) (some p)) _ _ (device_at-Holds _ (some p)) λ d.
        Holds-bind _ (λ _. Held (some p)) _ _ (take-lock p d)
          λ _.
            Holds-bind _ (λ _. Held (some p)) _ _ (enter_stream_cs-Keeps _ i (some p))
              λ _.
                Holds-bind _ (λ _. Held (some p)) _ _ (in_world-Keeps _ (safecall (api.test r)))
                  λ st.
                    Holds-bind _ (λ _. Held (some p)) _ _ (leave_stream_cs-Keeps _ i (some p))
                      λ _.
                        Holds-bind _ (λ _. Held (some p)) _ _ (take_put-Keeps p (some p) st)
                          λ e.
                            Holds-bind _ (λ _. Held none) _ _ (unlock_put-Holds p)
                              λ _. Keeps-pure (Held none) e
    where
      i : Ignores (IsPosted api (some p))
      i = IsPosted-Ignores api (some p)

  progress_put-Keeps :
      (p : Ptr) (b : Bool) (r : Option ℕ) (l : Bool)
      → Keeps (Held none) (progress_put host api p b r l)
  unfolding progress_put
  progress_put-Keeps p false r l = Keeps-pure (Held none) none
  progress_put-Keeps p true none l = Keeps-pure (Held none) none
  progress_put-Keeps p true (some r) true = Keeps-pure (Held none) none
  progress_put-Keeps p true (some r) false = poll_put-Keeps p r

  finish_put-Keeps : (o : Option EntryT) → Keeps (Held none) (finish_put host api o)
  unfolding finish_put
  finish_put-Keeps none = Keeps-pure (Held none) false
  finish_put-Keeps (some e) = search (put_rules, signal_comp-Keeps, IsPosted-Ignores)

  pub do_progress-Keeps : (p : Ptr) → Keeps (Held none) (do_progress host api p)
  unfolding do_progress
  do_progress-Keeps p =
      search
        (put_rules, progress_put-Keeps, finish_put-Keeps, manager_progress-Keeps, IsPosted-Ignores)
        depth 16
