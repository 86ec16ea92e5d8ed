-- ===== src/Mpi/Init/Support.antt =====
-- Which configurations src/backend/mpi/backend_mpi.cpp accepts where MPIX streams are missing.
use lcw.Base.{
  ◌≡◌, ◌≢◌, refl, ◌∙◌, Bool, true, false, Option, none, some, fault, assertion, assert, Action,
  then_with, put_back, ◌>>◌,
}
use lcw.Comp.{Host}
use lcw.Mpi.Types.{Config, CompType, request, continue, MpiApi, State, with_world}
use lcw.Mpi.Bigcount.{safecall}
use lcw.Mpi.Init.{
  Env, Found, unset, unknown, found, configure, configure_cont, supported, is_continue, found_or,
  initialize,
}

cont-comp_type :
    (b : Bool) (env : Env) (c : Config) → (configure_cont b env c).comp_type ≡ c.comp_type
unfolding configure_cont
cont-comp_type true env c = refl
cont-comp_type false env c = refl

cont-have_stream :
    (b : Bool) (env : Env) (c : Config) → (configure_cont b env c).have_stream ≡ c.have_stream
unfolding configure_cont
cont-have_stream true env c = refl
cont-have_stream false env c = refl

kept :
    (f : Found CompType) (t : CompType) → t ≡ continue → f ≢ found request → found_or t f ≡ continue
unfolding found_or
kept unset t e n = e
kept unknown t e n = e
kept (found request) t e n = absurd (n refl)
kept (found continue) t e n = refl

refused : (c : Config) → c.have_stream ≡ false → c.comp_type ≡ continue → supported c ≡ false
unfolding supported is_continue
refused c e f = rw (e, f) refl

configure-refused :
    (env : Env) (c : Config)
    → c.have_stream ≡ false
    → c.comp_type ≡ continue
    → env.mpi_comp_type ≢ found request
    → supported (configure env c) ≡ false
unfolding configure
configure-refused env c e f n =
    refused (configure env c) (cont-have_stream c.have_cont env _ ∙ e)
      (cont-comp_type c.have_cont env _ ∙ kept env.mpi_comp_type c.comp_type f n)

-- A call of MPI goes on or ends the process in its assertion.
safecall-fault :
    {W A B : Type 0} (o : Option (A × W)) (s : State W) (f : A → Action (State W) B)
    → ((a : A) (w : W) → f a (with_world w s) ≡ fault assertion)
    → then_with (put_back with_world s (safecall (λ _. o) s.world)) f ≡ fault assertion
safecall-fault none s f h = refl
safecall-fault (some (a, w)) s f h = h a w

assert-fault :
    {S : Type 0} (b : Bool) (m : Action S (Unit {0})) (s : S)
    → m s ≡ fault assertion
    → (assert b >> m) s ≡ fault assertion
assert-fault true m s h = h
assert-fault false m s h = refl

module _ {W : Type 0} (host : Host W) (api : MpiApi W) where
  -- Where MPIX streams are missing and continuations are the default, initialize ends in an assertion
  -- in every environment that does not set LCW_MPI_COMP_TYPE to "req", whether MPIX continuations are
  -- there or not.
  pub initialize_refuses :
      (env : Env) (s : State W)
      → s.config.have_stream ≡ false
      → s.config.comp_type ≡ continue
      → env.mpi_comp_type ≢ found request
      → initialize host api env s ≡ fault assertion
  unfolding initialize
  initialize_refuses env s e f n = safecall-fault (api.init_thread s.world) s _ λ provided w₁.
      assert-fault provided _ _ (
        safecall-fault (api.comm_rank w₁) (with_world w₁ s) _ λ rank w₂.
          safecall-fault (api.comm_size w₂) (with_world w₂ s) _
            λ nranks w₃. rw (configure-refused env s.config e f n) refl)
