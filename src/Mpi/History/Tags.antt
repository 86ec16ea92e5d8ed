-- ===== src/Mpi/History/Tags.antt =====
-- get_max_tag of src/backend/mpi/backend_mpi.cpp keeps the tags of sends and receives apart from the
-- tag of the device's puts.
use lcw.Base.{
  ℕ, ℤ, pos, zero, suc, ◌≤◌, ◌≡◌, ◌≢◌, refl, sym, ap, ◌∙◌, subst, Option, none, some, List, [], ◌∷◌,
  ok, deref, get_elem?, arith, int_max, to_int, to_int-pos, leb_ℤ, true,
}
use lcw.Comp.{Host}
use lcw.Mpi.Types.{MpiApi, DeviceT, State, device_at, pred_ℤ}
use lcw.Mpi.Put.{Each}
use lcw.Mpi.Put.Receive.{IsPosted}
use lcw.Mpi.Device.{get_max_tag}
use lcw.Mpi.Init.{Env}
use lcw.Frontend.{Process}
use lcw.Mpi.History.{Call, run}
use lcw.Mpi.History.Posted.{run-Each}

below : (k n : ℕ) → leb_ℤ (pos k) (pred_ℤ (pos n)) ≡ true → suc k ≤ n
below k zero h = absurd (cc)
below k (suc n) h = ground arith

pos-injective : {a b : ℕ} → pos a ≡ pos b → a ≡ b
pos-injective e = cc

module _ {W : Type 0} (host : Host W) (api : MpiApi W) (env : Env) where
  get_max_tag-at :
      (p : ℕ) (d : DeviceT) (s : State W)
      → deref (get_elem? s.devices p) ≡ some d
      → get_max_tag host api (some p) s ≡ ok (d.max_tag_2sided, s)
  unfolding get_max_tag device_at
  get_max_tag-at p d s h = rw h refl

  get_max_tag-below :
      (p n : ℕ) (d : DeviceT) (s : State W)
      → Each (IsPosted api none) s.devices
      → deref (get_elem? s.devices p) ≡ some d
      → d.put_tag ≡ pos n
      → n ≤ int_max
      → (m : ℤ) × (get_max_tag host api (some p) s ≡ ok (m, s))
        × ((t : ℕ)
            → leb_ℤ (pos t) m ≡ true
            → (to_int (pos t) ≡ pos t) × (to_int d.put_tag ≢ to_int (pos t)))
  get_max_tag-below p n d s h l e b = (
    d.max_tag_2sided,
    get_max_tag-at p d s l,
    λ t k.
        let i =
          below t n
            (subst (λ m. leb_ℤ (pos t) m ≡ true) ((h p d l).is_open.tags ∙ ap pred_ℤ e) k) in
        let q = to_int-pos t (omega (arith, i, b)) in
        (
          q,
          λ r. absurd (
              omega (
                arith,
                i,
                pos-injective (sym q ∙ sym r ∙ ap to_int e ∙ to_int-pos n (omega (arith, b))),
              )),
        ),
  )

  no_device : (ds : List (Option DeviceT)) → ds ≡ [] → Each (IsPosted api none) ds
  no_device [] e p d l = absurd cc
  no_device (x ∷ ds) e p d l = absurd cc

  -- After any history of a process that starts without devices, on a device whose tag for puts is an
  -- int from 0 on: get_max_tag returns, and every tag from 0 up to what it returns goes to MPI as it is,
  -- and is not the one that goes there for the device's puts.
  pub get_max_tag-apart :
      (cs : List Call) (s s' : Process (State W))
      → run host api env cs s ≡ ok (tt, s')
      → s.state.devices ≡ []
      → (p n : ℕ) (d : DeviceT) → deref (get_elem? s'.state.devices p) ≡ some d
      → d.put_tag ≡ pos n
      → n ≤ int_max
      → (m : ℤ) × (get_max_tag host api (some p) s'.state ≡ ok (m, s'.state))
        × ((t : ℕ)
            → leb_ℤ (pos t) m ≡ true
            → (to_int (pos t) ≡ pos t) × (to_int d.put_tag ≢ to_int (pos t)))
  get_max_tag-apart cs s s' e start p n d l tag b =
      get_max_tag-below p n d s'.state
        (run-Each host api env cs s s' e (no_device s.state.devices start)) l tag b
