-- ===== src/Mpi/Device/Reposting.antt =====
-- What post_put_recv of src/backend/mpi/backend_mpi.cpp comes to with streams off.
use lcw.Base.{
  ℕ, ◌≡◌, refl, ap, bad_pointer, ◌&&◌, when, Bool, true, false, Option, some, to_size_t, to_int,
  pos, Action, ok, set, deref, get_elem?, or_fault,
}
use lcw.Api.{Ptr}
use lcw.Mpi.Types.{DeviceT, MpiApi, State, device_at, enter_stream_cs, leave_stream_cs, with_world}
use lcw.Mpi.Bigcount.{irecv}
use lcw.Mpi.Device.{put_request, post_put_recv}

when_off :
    {S : Type 0} (b : Bool) (m : Action S (Unit {0})) (s : S) → b ≡ false → when b m s ≡ ok (tt, s)
when_off false m s h = refl
when_off true m s h = absurd (cc)

module _ {W : Type 0} where
  abbrev pub IsAt : State W → ℕ → DeviceT → Type 0
  IsAt s p d = deref (get_elem? s.devices p) ≡ some d

  abbrev pub with_device : ℕ → DeviceT → State W → State W
  with_device p d s = record s { devices = set s.devices p (some d) }

  abbrev pub streams : State W → Bool
  streams s = s.config.have_stream && s.config.use_stream

  pub device_at-IsAt :
      (p : ℕ) (d : DeviceT) (s : State W) → IsAt s p d → device_at (some p) s ≡ ok (d, s)
  unfolding device_at
  device_at-IsAt p d s h = ap (λ o. or_fault o bad_pointer s) h

  pub enter_stream_cs_off :
      (p : Ptr) (s : State W) → streams s ≡ false → enter_stream_cs p s ≡ ok (tt, s)
  unfolding enter_stream_cs
  enter_stream_cs_off p s h = when_off (streams s) _ s h

  pub leave_stream_cs_off :
      (p : Ptr) (s : State W) → streams s ≡ false → leave_stream_cs p s ≡ ok (tt, s)
  unfolding leave_stream_cs
  leave_stream_cs_off p s h = when_off (streams s) _ s h

module _ {W : Type 0} (api : MpiApi W) where
  -- The device after its receive has been posted again with the request `r`.
  abbrev pub reposted : ℕ → Option ℕ → Ptr → DeviceT → DeviceT
  reposted p r completion d = record d {
    put_entry = record {
      mpi_req = r;
      device = some p;
      completion = completion;
      request = put_request api (some p) d;
    };
  }

  pub post_put_recv-ok :
      (p : ℕ) (d : DeviceT) (s : State W) (c : Ptr) (r : Option ℕ) (w : W)
      → streams s ≡ false
      → IsAt s p d
      → irecv api d.put_rbuf
          (to_size_t (pos d.put_rbuf_size))
          api.any_source
          (to_int d.put_tag)
          d.comm
          s.world
        ≡ ok (r, w)
      → post_put_recv api (some p) c s ≡ ok (tt, with_device p (reposted p r c d) (with_world w s))
  unfolding post_put_recv
  post_put_recv-ok p d s c r w off h q =
      rw
        (
          device_at-IsAt p d s h,
          enter_stream_cs_off (some p) s off,
          q,
          leave_stream_cs_off (some p) (with_world w s) off,
          device_at-IsAt p d (with_world w s) h,
        )
        refl
