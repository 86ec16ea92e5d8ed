-- ===== src/Mpi/Progress/Arrival.antt =====
-- A put that has arrived on a device of src/backend/mpi/backend_mpi.cpp: do_progress copies it into
-- a fresh buffer, posts the device's receive again and signals the completion in its put entry.
use lcw.Base.{
  ℕ, ◌≡◌, refl, ap, ap₂, then_with, ◌∙◌, Bool, true, false, ◌||◌, Option, none, some, to_size_t,
  to_int, pos, Action, pure, fault, blocked, ok, set, set-set, deref, get_elem?, deref-set_self,
  ◌>>=◌, ◌>>◌, Outcome,
}
use mathlib.Core.Option.{none-ne-some}
use lcw.Api.{Ptr, put_signal}
use lcw.Comp.{Host}
use lcw.Comp
use lcw.Mpi.Types.{EntryT, DeviceT, Status, MpiApi, State, device_at, with_world}
use lcw.Mpi.Bigcount.{irecv}
use lcw.Mpi.Signal.{signal_comp}
use lcw.Mpi.Device.{put_request}
use lcw.Mpi.Put.{Each}
use lcw.Mpi.Put.Receive.{IsPosted}
use lcw.Mpi.Manager
use lcw.Mpi.Progress.{
  unlock_put, is_put_signal, taken, copy_put, take_put, poll_put, progress_put, finish_put,
  do_progress,
}
use lcw.Mpi.Device.Reposting.{
  IsAt, with_device, streams, device_at-IsAt, enter_stream_cs_off, leave_stream_cs_off, reposted,
  post_put_recv-ok,
}

then_pure :
    {S A B : Type 0} (o : Outcome (Unit {0} × S)) (a : A) (f : A → Action S B)
    → then_with (then_with o (λ _. pure a)) f ≡ then_with o (λ _. f a)
then_pure (ok (u, s)) a f = refl
then_pure (fault e) a f = refl
then_pure blocked a f = refl

module _ {W : Type 0} (host : Host W) (api : MpiApi W) where
  copy_put-ok :
      (p b : ℕ) (d : DeviceT) (s : State W) (e : EntryT) (st : Status) (r : Option ℕ) (w₂ w₃ : W)
      → streams s ≡ false
      → IsAt s p d
      → e.request.device ≡ some p
      → host.allocate s.allocator (to_size_t (pos st.count)) s.world ≡ (some b, w₂)
      → irecv api d.put_rbuf
          (to_size_t (pos d.put_rbuf_size))
          api.any_source
          (to_int d.put_tag)
          d.comm
          (host.memcpy (some b) e.request.buffer (to_size_t (pos st.count)) w₂)
        ≡ ok (r, w₃)
      → copy_put host api e st s
        ≡ ok (
          taken host api e st (some b),
          with_device p (reposted api p r e.completion d) (with_world w₃ s),
        )
  unfolding copy_put Comp.allocate
  copy_put-ok p b d s e st r w₂ w₃ off h dev q t =
      rw
        (
          q,
          dev,
          post_put_recv-ok api p d
              (with_world (host.memcpy (some b) e.request.buffer (to_size_t (pos st.count)) w₂) s)
              e.completion r w₃ off h t,
        )
        refl

  take_put-ok :
      (p b : ℕ) (d : DeviceT) (s : State W) (st : Status) (r : Option ℕ) (w₂ w₃ : W)
      → streams s ≡ false
      → IsAt s p d
      → d.put_entry.request ≡ put_request api (some p) d
      → host.allocate s.allocator (to_size_t (pos st.count)) s.world ≡ (some b, w₂)
      → irecv api d.put_rbuf
          (to_size_t (pos d.put_rbuf_size))
          api.any_source
          (to_int d.put_tag)
          d.comm
          (host.memcpy (some b) d.put_rbuf (to_size_t (pos st.count)) w₂)
        ≡ ok (r, w₃)
      → take_put host api (some p) (some st) s
        ≡ ok (
          some (taken host api d.put_entry st (some b)),
          with_device p (reposted api p r d.put_entry.completion d) (with_world w₃ s),
        )
  unfolding take_put is_put_signal
  take_put-ok p b d s st r w₂ w₃ off h req q t =
      rw (device_at-IsAt p d s h, ap (λ x. is_put_signal host api x.op) req, copied) refl
    where
      copied :
          copy_put host api d.put_entry st s
          ≡ ok (
            taken host api d.put_entry st (some b),
            with_device p (reposted api p r d.put_entry.completion d) (with_world w₃ s),
          )
      copied = copy_put-ok p b d s d.put_entry st r w₂ w₃ off h (ap (λ x. x.device) req) q (
          ap
            (λ x.
              irecv api d.put_rbuf (to_size_t (pos d.put_rbuf_size)) api.any_source
                (to_int d.put_tag) d.comm
                (host.memcpy (some b) x.buffer (to_size_t (pos st.count)) w₂))
            req
          ∙ t)

  abbrev pub put_lock : Bool → DeviceT → DeviceT
  put_lock b d = record d { put_entry_locked = b }

  unlock_put-ok :
      (p : ℕ) (d : DeviceT) (s : State W)
      → IsAt s p d
      → unlock_put host api (some p) s ≡ ok (tt, with_device p (put_lock false d) s)
  unfolding unlock_put
  unlock_put-ok p d s h = rw (device_at-IsAt p d s h) refl

  -- The three writes to the device come to one.
  written :
      (p : ℕ) (d d' d'' : DeviceT) (s : State W)
      → with_device p d'' (with_device p d' (with_device p d s)) ≡ with_device p d'' s
  written p d d' d'' s =
      ap (λ ds. record s { devices = ds })
        (set-set (set s.devices p (some d)) p (some d') (some d'')
          ∙ set-set s.devices p (some d) (some d''))

  poll_put-ok :
      (p b : ℕ) (d : DeviceT) (s : State W) (st : Status) (i : ℕ) (r : Option ℕ) (w₁ w₂ w₃ : W)
      → streams s ≡ false
      → IsAt s p d
      → d.put_entry.request ≡ put_request api (some p) d
      → api.test i s.world ≡ some (some st, w₁)
      → host.allocate s.allocator (to_size_t (pos st.count)) w₁ ≡ (some b, w₂)
      → irecv api d.put_rbuf
          (to_size_t (pos d.put_rbuf_size))
          api.any_source
          (to_int d.put_tag)
          d.comm
          (host.memcpy (some b) d.put_rbuf (to_size_t (pos st.count)) w₂)
        ≡ ok (r, w₃)
      → poll_put host api (some p) i s
        ≡ ok (
          some (taken host api d.put_entry st (some b)),
          with_device p
              (put_lock false (reposted api p r d.put_entry.completion d))
              (with_world w₃ s),
        )
  unfolding poll_put
  poll_put-ok p b d s st i r w₁ w₂ w₃ off h req e q t =
      rw
        (
          device_at-IsAt p d s h,
          enter_stream_cs_off (some p) s₁ off,
          e,
          leave_stream_cs_off (some p) (with_world w₁ s₁) off,
          take_put-ok p b d₁ (with_world w₁ s₁) st r w₂ w₃ off at₁ req q t,
          unlock_put-ok p d₂ s₂ at₂,
          written p d₁ d₂ (put_lock false d₂) (with_world w₃ s),
        )
        refl
    where
      d₁ : DeviceT
      d₁ = put_lock true d

      d₂ : DeviceT
      d₂ = reposted api p r d.put_entry.completion d₁

      s₁ : State W
      s₁ = with_device p d₁ s

      s₂ : State W
      s₂ = with_device p d₂ (with_world w₃ s₁)

      at₁ : IsAt s₁ p d₁
      at₁ = deref-set_self s.devices p (some d₁) h

      at₂ : IsAt s₂ p d₂
      at₂ = deref-set_self s₁.devices p (some d₂) at₁

  progress_put-ok :
      (p : ℕ) (e : Bool) (m : Option ℕ) (l : Bool) (i : ℕ) (s : State W)
      → e ≡ true
      → m ≡ some i
      → l ≡ false
      → progress_put host api (some p) e m l s ≡ poll_put host api (some p) i s
  unfolding progress_put
  progress_put-ok p e m l i s f g k = rw (f, g, k) refl

  is_false : (b : Bool) → (b ≡ true → ⊥) → b ≡ false
  is_false true h = absurd (h refl)
  is_false false h = refl

  -- What signal_comp is called with: the message in its fresh buffer, with its source, tag and size.
  abbrev pub arrived : ℕ → Ptr → Status → ℕ → EntryT
  arrived p completion st b = record {
    mpi_req = none;
    device = some p;
    completion = completion;
    request = record {
      op = put_signal;
      device = some p;
      rank = st.source;
      tag = st.tag;
      buffer = some b;
      length = pos st.count;
      user_context = 0;
    };
  }

  taken-arrived :
      (p b : ℕ) (d : DeviceT) (st : Status)
      → IsPosted api none p d
      → taken host api d.put_entry st (some b) ≡ arrived p d.put_entry.completion st b
  unfolding taken
  taken-arrived p b d st h =
      ap₂
        (λ x q. record {
          mpi_req = none;
          device = q;
          completion = d.put_entry.completion;
          request = record x {
            length = pos st.count;
            tag = st.tag;
            rank = st.source;
            buffer = some b;
          };
        })
        h.request h.device

  -- Progress on a device that is not freed and whose posted receive MPI_Test finds completed, where every
  -- device is as `IsPosted` says, which every history keeps, streams are off, the allocator returns a
  -- buffer and MPI takes the next receive: the data is copied into that buffer, the receive is posted
  -- again, the lock is free, and signal_comp is called for the completion that the device's put entry
  -- records, with the source, the tag and the size of the message; only then comes the completion manager, and do_progress returns true if
  -- that returns.
  pub do_progress-arrived :
      (p b : ℕ) (d : DeviceT) (s : State W) (st : Status) (i : ℕ) (r : Option ℕ) (w₁ w₂ w₃ : W)
      → Each (IsPosted api none) s.devices
      → deref (get_elem? s.devices p) ≡ some d
      → streams s ≡ false
      → d.put_entry.mpi_req ≡ some i
      → api.test i s.world ≡ some (some st, w₁)
      → host.allocate s.allocator (to_size_t (pos st.count)) w₁ ≡ (some b, w₂)
      → irecv api d.put_rbuf
          (to_size_t (pos d.put_rbuf_size))
          api.any_source
          (to_int d.put_tag)
          d.comm
          (host.memcpy (some b) d.put_rbuf (to_size_t (pos st.count)) w₂)
        ≡ ok (r, w₃)
      → do_progress host api (some p) s
        ≡ (do
          signal_comp host (arrived p d.put_entry.completion st b)
          d' ← device_at (some p)
          worked ← Manager.do_progress host api d'.comp_manager
          pure (worked || true))
            (with_device p
              (put_lock false (reposted api p r d.put_entry.completion d))
              (with_world w₃ s))
  unfolding do_progress finish_put
  do_progress-arrived p b d s st i r w₁ w₂ w₃ h l off m e q t =
      rw
        (
          device_at-IsAt p d s l,
          progress_put-ok p d.enable_put d.put_entry.mpi_req d.put_entry_locked i s
              (h p d l).is_open.enabled m
              (is_false d.put_entry_locked λ u. none-ne-some p ((h p d l).unlocked u)),
          poll_put-ok p b d s st i r w₁ w₂ w₃ off l (h p d l).request e q t,
          taken-arrived p b d st (h p d l),
        )
        (then_pure (signal_comp host (arrived p d.put_entry.completion st b) s') true λ x. do
          d' ← device_at (some p)
          worked ← Manager.do_progress host api d'.comp_manager
          pure (worked || x))
    where
      s' : State W
      s' =
          with_device p (put_lock false (reposted api p r d.put_entry.completion d))
            (with_world w₃ s)
