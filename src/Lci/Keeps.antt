-- ===== src/Lci/Keeps.antt =====
-- What LCI documents of user contexts, and what each operation does with the requests behind them.
use lcw.Base.{
  ℕ, ℤ, pos, ◌+◌, ◌≡◌, refl, ◌∙◌, Bool, true, false, Option, none, some, arith, pure, put_back,
  ◌>>◌, ◌==◌, if◌then◌else◌, leb_ℤ, to_size_t, to_int, Post, Holds, Holds-bind, Holds-pure, Keeps,
  Keeps-bind, Keeps-pure, Keeps-when, Keeps-assert,
}
use lcw.Api.{Ptr, OpT, RequestT}
use lcw.Comp.{Host}
use lcw.Contexts.{State, in_world, with_world, delete_request, run}
use lcw.Contexts.Ledger.{
  at, Ledger, Opened, new_request-Opened, delete_request-Ledger, Leaves, next_id-Ledger,
  new_device-Ledger, modify-Ledger, run-Ledger, device_at-Keeps,
}
use lcw.Lci.{
  Port, Code, lci_ok, lci_err_retry, lci_err_other, LciRequest, LciApi, DeviceT, is_ok, is_expected,
  safecall, lci_device, alloc_device, free_device, do_progress, alloc_cq, free_cq, finish, post,
  send, recv, put, barrier, request_of,
}

abbrev pub LeavesChecked : {W A : Type 0} → (W → ℕ → ℕ) → (W → Option (A × W)) → Type 0
LeavesChecked {W} {A} owed g =
    (w w' : W) (a : A) → g w ≡ some (a, w') → (q : ℕ) → owed w' q ≡ owed w q

-- A call that takes the user context `p` when it returns LCI_OK.
abbrev pub Takes : {W : Type 0} → (W → ℕ → ℕ) → ℕ → (W → Code × W) → Type 0
Takes {W} owed p g =
    (w : W) (q : ℕ) → owed (g w).1 q ≡ owed w q + (if is_ok (g w).0 then at p q else 0)

-- The user context that a completion hands back.
abbrev pub handed : Ptr → ℕ → ℕ
handed none q = 0
handed (some p) q = at p q

abbrev pub handed_by : Option LciRequest → ℕ → ℕ
handed_by none q = 0
handed_by (some l) q = handed l.user_context q

-- `owed w q` is how often LCI holds the user context q: it was taken by a successful post, and no
-- completion has handed it back.
pub record Laws {W : Type 0} (host : Host W) (api : LciApi W) (owed : W → ℕ → ℕ) : Type 0 where
  pub queue_pop :
      (cq : Ptr) (w : W) (q : ℕ)
      → owed w q ≡ owed (api.queue_pop cq w).1 q + handed_by (api.queue_pop cq w).0 q
  pub sendmc :
      (e : ℕ) (b : Ptr) (n : ℕ) (r t : ℤ) (c : Ptr) (p : ℕ)
      → Takes owed p (api.sendmc e b n r t c p)
  pub sendl :
      (e : ℕ) (b : Ptr) (n : ℕ) (r t : ℤ) (c : Ptr) (p : ℕ) → Takes owed p (api.sendl e b n r t c p)
  pub recvm :
      (e : ℕ) (b : Ptr) (n : ℕ) (r t : ℤ) (c : Ptr) (p : ℕ) → Takes owed p (api.recvm e b n r t c p)
  pub recvl :
      (e : ℕ) (b : Ptr) (n : ℕ) (r t : ℤ) (c : Ptr) (p : ℕ) → Takes owed p (api.recvl e b n r t c p)
  pub putmac :
      (e : ℕ) (b : Ptr) (n : ℕ) (r : ℤ) (c : Ptr) (p : ℕ) → Takes owed p (api.putmac e b n r c p)
  pub putla :
      (e : ℕ) (b : Ptr) (n : ℕ) (r : ℤ) (c : Ptr) (p : ℕ) → Takes owed p (api.putla e b n r c p)
  pub device_init : LeavesChecked owed api.device_init
  pub device_free : (d : ℕ) → LeavesChecked owed (api.device_free d)
  pub plist_create : LeavesChecked owed api.plist_create
  pub plist_set_comp_type : (p : ℕ) (t : Port) → LeavesChecked owed (api.plist_set_comp_type p t)
  pub plist_set_match_type : (p : ℕ) → LeavesChecked owed (api.plist_set_match_type p)
  pub plist_set_default_comp :
      (p : ℕ) (c : Ptr) → LeavesChecked owed (api.plist_set_default_comp p c)
  pub plist_free : (p : ℕ) → LeavesChecked owed (api.plist_free p)
  pub endpoint_init : (d p : ℕ) → LeavesChecked owed (api.endpoint_init d p)
  pub endpoint_free : (e : ℕ) → LeavesChecked owed (api.endpoint_free e)
  pub barrier : LeavesChecked owed api.barrier
  pub progress : (d : ℕ) → Leaves owed (api.progress d)
  pub queue_create : Leaves owed (λ w. (api.queue_create w).1)
  pub queue_free : (c : Ptr) → Leaves owed (api.queue_free c)
  pub mbuffer_free : (b : Ptr) → Leaves owed (api.mbuffer_free b)
  pub memalign : (n : ℕ) → Leaves owed (λ w. (api.memalign n w).1)
  pub memcpy : (x y : Ptr) (n : ℕ) → Leaves owed (host.memcpy x y n)

module _ {W : Type 0} {host : Host W} {api : LciApi W} {owed : W → ℕ → ℕ}
    (laws : Laws host api owed) (f : RequestT → ℕ) (n : ℕ) where
  safecall-Ledger :
      {A : Type 0} (g : W → Option (A × W))
      → LeavesChecked owed g
      → Keeps (Ledger {D = DeviceT} owed f n) (in_world (safecall g))
  safecall-Ledger {A = A} g l = record { at = λ s h. go s (g s.world) refl h }
    where
      go :
          (s : State DeviceT W) (o : Option (A × W))
          → g s.world ≡ o
          → Ledger owed f n s
          → Post (λ _. Ledger owed f n) (put_back with_world s (safecall (λ _. o) s.world))
      go s none e h = tt
      go s (some (a, w)) e h = record {
        alive = λ q. l s.world w a e q ∙ h.alive q;
        weight = h.weight;
      }

  lci_device-Ledger : (id : ℕ) → Keeps (Ledger owed f n) (lci_device host api id)
  unfolding lci_device
  lci_device-Ledger id = go (id == 0)
    where
      go :
          (b : Bool)
          → Keeps
              (Ledger {D = DeviceT} owed f n)
              (if b then pure api.ur_device else in_world (safecall api.device_init))
      go true = Keeps-pure _ _
      go false = safecall-Ledger api.device_init laws.device_init

  pub alloc_device-Ledger : (k : ℤ) (c : Ptr) → Keeps (Ledger owed f n) (alloc_device host api k c)
  unfolding alloc_device
  alloc_device-Ledger k c = Keeps-bind _ _ _ (Keeps-assert _ _) λ _.
      Keeps-bind _ _ _ (next_id-Ledger owed f n) λ id. Keeps-bind _ _ _ (lci_device-Ledger id) λ d.
        Keeps-bind _ _ _ (safecall-Ledger _ laws.plist_create) λ l.
          Keeps-bind _ _ _ (safecall-Ledger _ (laws.plist_set_comp_type l _)) λ _.
            Keeps-bind _ _ _ (safecall-Ledger _ (laws.plist_set_comp_type l _)) λ _.
              Keeps-bind _ _ _ (safecall-Ledger _ (laws.plist_set_match_type l)) λ _.
                Keeps-bind _ _ _ (safecall-Ledger _ (laws.plist_set_default_comp l c)) λ _.
                  Keeps-bind _ _ _ (safecall-Ledger _ (laws.endpoint_init d l)) λ e.
                    Keeps-bind _ _ _ (safecall-Ledger _ (laws.plist_free l))
                      λ _. new_device-Ledger owed f n _

  pub free_device-Ledger : (p : Ptr) → Keeps (Ledger owed f n) (free_device host api p)
  unfolding free_device
  free_device-Ledger p = Keeps-bind _ _ _ (device_at-Keeps _ p) λ d.
      Keeps-bind _ _ _ (safecall-Ledger _ (laws.endpoint_free d.ep))
        λ _. Keeps-when _ _ _ (safecall-Ledger _ (laws.device_free d.device))

  pub do_progress-Ledger : (p : Ptr) → Keeps (Ledger owed f n) (do_progress host api p)
  unfolding do_progress
  do_progress-Ledger p = Keeps-bind _ _ _ (device_at-Keeps _ p) λ d.
      Keeps-bind _ _ _ (modify-Ledger owed f n _ (laws.progress d.device)) λ _. Keeps-pure _ false

  pub alloc_cq-Ledger : Keeps (Ledger owed f n) (alloc_cq host api)
  unfolding alloc_cq
  alloc_cq-Ledger = run-Ledger owed f n _ laws.queue_create

  pub free_cq-Ledger : (c : Ptr) → Keeps (Ledger owed f n) (free_cq host api c)
  unfolding free_cq
  free_cq-Ledger c = modify-Ledger owed f n _ (laws.queue_free c)

  -- The weight that a post adds.
  abbrev pub gain : RequestT → Bool → ℕ
  gain r true = f r
  gain r false = 0

  abbrev After : RequestT → ℕ → Code → State DeviceT W → Type 0
  After r p lci_ok = Ledger owed f (n + f r)
  After r p lci_err_retry = Opened owed f n p r
  After r p lci_err_other = Opened owed f n p r

  call-After :
      (r : RequestT) (p : ℕ) (code : Code) (w : W) (s : State DeviceT W)
      → ((q : ℕ) → owed w q ≡ owed s.world q + (if is_ok code then at p q else 0))
      → Opened owed f n p r s
      → After r p code (with_world w s)
  call-After r p lci_ok w s l h = record { alive = λ q. l q ∙ h.alive q; weight = h.weight }
  call-After r p lci_err_retry w s l h = record {
    there = h.there;
    alive = λ q. omega (arith, l q, h.alive q);
    weight = h.weight;
  }
  call-After r p lci_err_other w s l h = record {
    there = h.there;
    alive = λ q. omega (arith, l q, h.alive q);
    weight = h.weight;
  }

  dropped :
      (r : RequestT) (p : ℕ)
      → Holds
          (Opened {D = DeviceT} {W = W} owed f n p r)
          (do delete_request p; pure false)
          (λ b. Ledger owed f (n + gain r b))
  dropped r p =
      Holds-bind _ (λ _. Ledger owed f n) _ _ (delete_request-Ledger owed f n p r)
        λ _. Holds-pure false λ s h. record { alive = h.alive; weight = omega (arith, h.weight) }

  finish-Ledger :
      (r : RequestT) (p : ℕ) (code : Code)
      → Holds (After r p code) (finish host api code p) (λ b. Ledger owed f (n + gain r b))
  unfolding finish
  finish-Ledger r p lci_ok = Holds-pure true λ s h. h
  finish-Ledger r p lci_err_retry = dropped r p
  finish-Ledger r p lci_err_other = dropped r p

  -- A post that returns true adds its request, one that returns false none.
  post-Ledger :
      (checked : Bool) (r : RequestT) (call : DeviceT → ℕ → W → Code × W)
      → ((d : DeviceT) (p : ℕ) → Takes owed p (call d p))
      → Holds (Ledger owed f n) (post host api checked r call) (λ b. Ledger owed f (n + gain r b))
  unfolding post
  post-Ledger checked r call l =
      Holds-bind _ (λ p. Opened owed f n p r) _ _ (new_request-Opened owed f n r)
        λ p.
          Holds-bind _ (λ d. Opened owed f n p r) _ _ (device_at-Keeps _ r.device)
            λ d.
              Holds-bind _ (λ code. After r p code) _ _ (calls d p)
                λ code.
                  Holds-bind _ (λ _. After r p code) _ _
                    (Keeps-when _ checked _ (Keeps-assert _ (is_expected code)))
                    λ _. finish-Ledger r p code
    where
      calls :
          (d : DeviceT) (p : ℕ)
          → Holds (Opened owed f n p r) (in_world (run (call d p))) (λ code. After r p code)
      calls d p = record { at = λ s h. call-After r p _ _ s (l d p s.world) h }

  either-Takes :
      (b : Bool) (p : ℕ) (g k : W → Code × W)
      → Takes owed p g
      → Takes owed p k
      → Takes owed p (if b then g else k)
  either-Takes true p g k x y = x
  either-Takes false p g k x y = y

  pub send-Ledger :
      (debug : Bool) (d : Ptr) (rank tag : ℤ) (buf : Ptr) (length : ℤ) (c : Ptr) (u : ℕ)
      → Holds
          (Ledger owed f n)
          (send host api debug d rank tag buf length c u)
          (λ b. Ledger owed f (n + gain (request_of OpT.send d rank tag buf length u) b))
  unfolding send
  send-Ledger debug d rank tag buf length c u = post-Ledger debug _ _ λ x p.
      either-Takes (leb_ℤ length api.medium_size) p _ _
        (laws.sendmc x.ep buf (to_size_t length) (to_int rank) tag c p)
        (laws.sendl x.ep buf (to_size_t length) (to_int rank) tag c p)

  pub recv-Ledger :
      (d : Ptr) (rank tag : ℤ) (buf : Ptr) (length : ℤ) (c : Ptr) (u : ℕ)
      → Holds
          (Ledger owed f n)
          (recv host api d rank tag buf length c u)
          (λ b. Ledger owed f (n + gain (request_of OpT.recv d rank tag buf length u) b))
  unfolding recv
  recv-Ledger d rank tag buf length c u = post-Ledger false _ _ λ x p.
      either-Takes (leb_ℤ length api.medium_size) p _ _
        (laws.recvm x.ep buf (to_size_t length) (to_int rank) tag c p)
        (laws.recvl x.ep buf (to_size_t length) (to_int rank) tag c p)

  pub put-Ledger :
      (debug : Bool) (d : Ptr) (rank : ℤ) (buf : Ptr) (length : ℤ) (c : Ptr) (u : ℕ)
      → Holds
          (Ledger owed f n)
          (put host api debug d rank buf length c u)
          (λ b. Ledger owed f (n + gain (request_of OpT.put d rank (pos 0) buf length u) b))
  unfolding put
  put-Ledger debug d rank buf length c u = post-Ledger debug _ _ λ x p.
      either-Takes (leb_ℤ length api.medium_size) p _ _
        (laws.putmac x.ep buf (to_size_t length) (to_int rank) c p)
        (laws.putla x.ep buf (to_size_t length) (to_int rank) c p)

  pub barrier-Ledger : (p : Ptr) → Keeps (Ledger owed f n) (barrier host api p)
  unfolding barrier
  barrier-Ledger p = safecall-Ledger _ laws.barrier
