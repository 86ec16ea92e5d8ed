-- ===== src/Mpi/Device/Posted.antt =====
-- Allocating a device of src/backend/mpi/backend_mpi.cpp posts its receive for puts; what else is
-- done to devices leaves the receives of all the others as they are.
use lcw.Base.{
  ℕ, ℤ, ◌+◌, ◌≡◌, refl, Bool, true, false, Option, none, some, List, [], ◌∷◌, ◌++◌, length,
  get_elem?, gets, modify, pure, ◌>>=◌, ◌>>◌, bad_pointer, inl, inr, sym, subst, uninitialized,
  Holds-bind, Keeps, Keeps-pure, Keeps-fail, Keeps-or_fault, deref-append, deref-set,
}
use mathlib.Core.Option.{some-injective, none-ne-some}
use lcw.Api.{Ptr}
use lcw.Comp.{Host}
use lcw.Mpi.Manager.{destroy}
use lcw.Mpi.Types.{MpiApi, pred_ℤ, ManagerT, req, cont, freed, DeviceT, State}
use lcw.Mpi.Put.{Each, Devices, Ignores, put_rules}
use lcw.Mpi.Put.Receive.{
  IsPosted, IsAwaiting, IsOpen, IsPosted-Ignores, IsPosted-IsAwaiting, post_put_recv-Holds,
}
use lcw.Mpi.Manager.Posted.{make_manager-Keeps}
use lcw.Mpi.Device.{
  post_put_recv, make_comm, choose_manager, alloc_device, delete_device, release, free_device,
}

module _ {W : Type 0} (host : Host W) (api : MpiApi W) (P : ℕ → DeviceT → Type 0)
    (i : Ignores P) where
  make_comm-Keeps : (s h : Bool) → Keeps (Devices P) (make_comm host api s h)
  unfolding make_comm
  make_comm-Keeps true true = search put_rules depth 16
  make_comm-Keeps true false = Keeps-fail (Devices P) uninitialized
  make_comm-Keeps false h = search put_rules depth 16

  choose_manager-Keeps : (ms : List ℕ) (id : ℕ) → Keeps (Devices P) (choose_manager host api ms id)
  unfolding choose_manager
  choose_manager-Keeps [] id = make_manager-Keeps host api P i
  choose_manager-Keeps (m ∷ ms) id = Keeps-or_fault _ (get_elem? (m ∷ ms) _) bad_pointer

  delete_device-Keeps : (p : Ptr) → Keeps (Devices P) (modify (delete_device host api p))
  unfolding delete_device
  delete_device-Keeps none = record { at = λ s h. h }
  delete_device-Keeps (some p) = record {
    at = λ s h q e l. elim (deref-set s.devices p q none l) [
      | inl m ↦ absurd (none-ne-some e m.1)
      | inr m ↦ h q e m.1
    ];
  }

  destroy-Keeps : (p : ℕ) (m : ManagerT) → Keeps {S = State W} (Devices P) (destroy host api p m)
  unfolding destroy
  destroy-Keeps p (req es l) = search put_rules
  destroy-Keeps p (cont none held l) = search put_rules
  destroy-Keeps p (cont (some r) held l) = search put_rules
  destroy-Keeps p (freed lost held) = search put_rules

  release-Keeps : (p : ℕ) → Keeps (Devices P) (release host api p)
  unfolding release
  release-Keeps p = search (put_rules, destroy-Keeps)

  pub free_device-Keeps : (p : Ptr) → Keeps (Devices P) (free_device host api p)
  unfolding free_device
  free_device-Keeps p = search (put_rules, delete_device-Keeps, release-Keeps) depth 16

module _ {W : Type 0} (host : Host W) (api : MpiApi W) where
  -- A new device with its lock free stands at the end of the list, awaiting its receive.
  append-IsAwaiting :
      (ds : List (Option DeviceT)) (d : DeviceT)
      → d.put_entry_locked ≡ false
      → IsOpen d
      → Each (IsPosted api none) ds
      → Each (IsAwaiting api none (length ds)) (ds ++ some d ∷ [])
  append-IsAwaiting ds d f o h q e l = elim (deref-append ds q (some d) l) [
    | inl m ↦ record {
      posted = λ n. absurd (n m.0);
      is_open = subst IsOpen (some-injective d e m.1) o;
      unlocked = λ u. absurd (cc (some-injective d e m.1));
    }
    | inr m ↦ IsPosted-IsAwaiting api none (length ds) q e (h q e m.1)
  ]

  place-Keeps :
      (d : DeviceT) (c : Ptr)
      → d.put_entry_locked ≡ false
      → d.enable_put ≡ true
      → d.max_tag_2sided ≡ pred_ℤ d.put_tag
      → Keeps {S = State W} (Devices (IsPosted api none)) (do
        p ← gets (λ s. length s.devices)
        modify (λ s. record s { devices = s.devices ++ some d ∷ [] })
        post_put_recv api (some p) c
        pure (some p))
  place-Keeps d c f on tags =
      Holds-bind (gets (λ s. length s.devices))
        (λ p s. Devices (IsPosted api none) s × (p ≡ length s.devices)) _ _
        (record { at = λ s h. (h, refl) })
        λ p.
          Holds-bind (modify (λ s. record s { devices = s.devices ++ some d ∷ [] }))
            (λ _. Devices (IsAwaiting api none p)) _ _
            (record {
              at = λ s h.
                  subst (λ n. Each (IsAwaiting api none n) (s.devices ++ some d ∷ [])) (sym h.1)
                    (append-IsAwaiting s.devices d f (record { enabled = on; tags = tags }) h.0);
            })
            λ _.
              Holds-bind _ (λ _. Devices (IsPosted api none)) _ _ (post_put_recv-Holds api none p c)
                λ _. Keeps-pure (Devices (IsPosted api none)) (some p)

  next_id-Keeps :
      Keeps {S = State W}
        (Devices (IsPosted api none))
        (modify (λ s. record s { g_ndevices = s.g_ndevices + 1 }))
  next_id-Keeps = record { at = λ s h. h }

  pub alloc_device-Keeps :
      (n : ℤ) (c : Ptr) → Keeps (Devices (IsPosted api none)) (alloc_device host api n c)
  unfolding alloc_device
  alloc_device-Keeps n c =
      search
        (
          next_id-Keeps, place-Keeps, make_comm-Keeps, choose_manager-Keeps, IsPosted-Ignores,
          put_rules,
        )
        depth 30
