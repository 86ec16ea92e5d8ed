-- ===== src/Mpi/Device/Balance.antt =====
-- The ledger across alloc_device and free_device of src/backend/mpi/backend_mpi.cpp.
use lcw.Base.{
  ℕ, ℤ, ◌+◌, ◌++◌, Bool, true, false, none, some, List, [], ◌∷◌, get_elem?, modify, bad_pointer,
  uninitialized, when, not, Holds, Holds-bind, Holds-map, Keeps-pure, Keeps, Keeps-fail,
  Keeps-or_fault,
}
use lcw.Api.{Ptr, OpT}
use lcw.Comp.{Host}
use lcw.Mpi.Types.{MpiApi, DeviceT, State, ManagerT}
use lcw.Mpi.Manager.{destroy}
use lcw.Mpi.Frame.{Core, Books, On, frame_rules, gets-Keeps}
use lcw.Mpi.Ledger.{Inv, At, Inv-Hand, Hand-zero, manager_at-Holds}
use lcw.Mpi.Manager.Balance.{make_manager-Keeps, destroy-Holds}
use lcw.Mpi.Device.{
  post_put_recv, make_comm, choose_manager, alloc_device, delete_device, is_held, release,
  free_device,
}

module _ {W : Type 0} (api : MpiApi W) (P : Core → Type 0) where
  pub post_put_recv-Keeps : (p c : Ptr) → Keeps (On P) (post_put_recv api p c)
  unfolding post_put_recv
  post_put_recv-Keeps p c = search frame_rules depth 16

module _ {W : Type 0} (host : Host W) (api : MpiApi W) (P : Core → Type 0) where
  make_comm-Keeps : (s h : Bool) → Keeps (On P) (make_comm host api s h)
  unfolding make_comm
  make_comm-Keeps true true = search frame_rules depth 16
  make_comm-Keeps true false = Keeps-fail (On P) uninitialized
  make_comm-Keeps false h = search frame_rules depth 16

  delete_device-Keeps : (p : Ptr) → Keeps (On P) (modify (delete_device host api p))
  unfolding delete_device
  delete_device-Keeps none = record { at = λ s h. h }
  delete_device-Keeps (some p) = record { at = λ s h. h }

module _ {W : Type 0} (host : Host W) (api : MpiApi W) (w : OpT → ℕ) (L : ℕ → Books → Type 0) where
  choose_manager-Keeps :
      (ms : List ℕ) (id : ℕ) → Keeps (On (Inv w L)) (choose_manager host api ms id)
  unfolding choose_manager
  choose_manager-Keeps [] id = make_manager-Keeps host api w L
  choose_manager-Keeps (m ∷ ms) id = Keeps-or_fault _ (get_elem? (m ∷ ms) _) bad_pointer

  next_id-Keeps :
      Keeps {S = State W} (On (Inv w L)) (modify (λ s. record s { g_ndevices = s.g_ndevices + 1 }))
  next_id-Keeps = record { at = λ s h. h }

  append-Keeps :
      (d : DeviceT)
      → Keeps {S = State W}
          (On (Inv w L))
          (modify (λ s. record s { devices = s.devices ++ some d ∷ [] }))
  append-Keeps d = record { at = λ s h. h }

  -- Allocating a device keeps every ledger.
  pub alloc_device-Keeps : (n : ℤ) (c : Ptr) → Keeps (On (Inv w L)) (alloc_device host api n c)
  unfolding alloc_device
  alloc_device-Keeps n c =
      search
        (
          next_id-Keeps, append-Keeps, frame_rules, make_comm-Keeps, choose_manager-Keeps,
          post_put_recv-Keeps,
        )
        depth 30

  -- Dropping a manager keeps every ledger.
  release-Keeps : (p : ℕ) → Keeps (On (Inv w L)) (release host api p)
  unfolding release
  release-Keeps p =
      Holds-bind _ (λ _. On (Inv w L)) _ _ (gets-Keeps (Inv w L) (is_held host api p))
        λ held.
          Holds-map (λ s h. Inv-Hand w L _ h) (λ _ s h. h)
            (Holds-bind _ (λ m. On (At w L p m 0)) _ _ (manager_at-Holds w L p 0) (dropped held))
    where
      dropped :
          (held : Bool) (m : ManagerT)
          → Holds (On (At w L p m 0)) (when (not held) (destroy host api p m)) (λ _. On (Inv w L))
      dropped true m =
          Holds-map (λ s h. Hand-zero w L _ h.1) (λ _ s h. h) (Keeps-pure (On (Inv w L)) tt)
      dropped false m = destroy-Holds host api w L p m

  -- So does freeing a device.
  pub free_device-Keeps : (p : Ptr) → Keeps (On (Inv w L)) (free_device host api p)
  unfolding free_device
  free_device-Keeps p = search (frame_rules, delete_device-Keeps, release-Keeps) depth 16
