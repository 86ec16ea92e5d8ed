-- ===== src/Mpi/Post/Posted.antt =====
-- Posting an operation does not touch the receives that the devices keep posted for puts.
use lcw.Base.{ℕ, ℤ, Bool, true, false, Keeps}
use lcw.Api.{Ptr, RequestT}
use lcw.Comp.{Host}
use lcw.Mpi.Types.{MpiApi, DeviceT, State}
use lcw.Mpi.Manager.Posted.{add_entry-Keeps}
use lcw.Mpi.Post.{
  acquire_pending, acquire_pending-Post, post_send, post_recv, send_after, put_after,
}
use lcw.Mpi.Post
use lcw.Mpi.Put.{Ignores, Devices, put_rules}

module _ {W : Type 0} (host : Host W) (api : MpiApi W) (P : ℕ → DeviceT → Type 0)
    (i : Ignores P) where
  abbrev Kept : State W → Type 0
  Kept = Devices P

  acquire_pending-Keeps : Keeps Kept (acquire_pending {W = W})
  acquire_pending-Keeps = record {
    at = λ s h. acquire_pending-Post (λ _. Kept) s (λ _. h) (λ _ _. h) (λ _ _. h);
  }

  post_send-Keeps : (d : DeviceT) (r : RequestT) (c : Ptr) → Keeps Kept (post_send host api d r c)
  unfolding post_send
  post_send-Keeps d r c = search (put_rules, add_entry-Keeps) depth 16

  post_recv-Keeps : (d : DeviceT) (r : RequestT) (c : Ptr) → Keeps Kept (post_recv host api d r c)
  unfolding post_recv
  post_recv-Keeps d r c = search (put_rules, add_entry-Keeps) depth 16

  send_after-Keeps : (b : Bool) (r : RequestT) (c : Ptr) → Keeps Kept (send_after host api b r c)
  unfolding send_after
  send_after-Keeps false r c = search put_rules
  send_after-Keeps true r c = search (put_rules, post_send-Keeps)

  put_after-Keeps :
      (b : Bool) (d : DeviceT) (r : RequestT) (c : Ptr) → Keeps Kept (put_after host api b d r c)
  unfolding put_after
  put_after-Keeps false d r c = search put_rules
  put_after-Keeps true d r c = post_send-Keeps d r c

  pub send-Keeps :
      (p : Ptr) (r t : ℤ) (b : Ptr) (l : ℤ) (c : Ptr) (u : ℕ)
      → Keeps Kept (Post.send host api p r t b l c u)
  unfolding Post.send
  send-Keeps p r t b l c u = search (put_rules, acquire_pending-Keeps, send_after-Keeps)

  pub recv-Keeps :
      (p : Ptr) (r t : ℤ) (b : Ptr) (l : ℤ) (c : Ptr) (u : ℕ)
      → Keeps Kept (Post.recv host api p r t b l c u)
  unfolding Post.recv
  recv-Keeps p r t b l c u = search (put_rules, post_recv-Keeps)

  pub put-Keeps :
      (p : Ptr) (r : ℤ) (b : Ptr) (l : ℤ) (c : Ptr) (u : ℕ)
      → Keeps Kept (Post.put host api p r b l c u)
  unfolding Post.put
  put-Keeps p r b l c u = search (put_rules, acquire_pending-Keeps, put_after-Keeps)
