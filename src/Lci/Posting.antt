-- ===== src/Lci/Posting.antt =====
-- What send, recv and put of the LCI backend return, and what they leave.
use lcw.Base.{
  ℕ, ℤ, ◌≡◌, refl, ap, Bool, true, false, not, ◌||◌, Option, none, some, List, [], ◌∷◌, ◌++◌,
  length, get_elem?, get_elem?-append_length, deref, set, ok, if◌then◌else◌,
}
use lcw.Api.{Ptr, OpT, RequestT}
use lcw.Comp.{Host}
use lcw.Contexts.{State, new_request, device_at, delete_request}
use lcw.Lci.{
  Code, lci_ok, lci_err_retry, lci_err_other, LciApi, DeviceT, is_ok, is_expected, request_of,
  finish, post,
}

set-append_length :
    (xs : List (Option RequestT)) (x : Option RequestT)
    → set (xs ++ x ∷ []) (length xs) none ≡ xs ++ none ∷ []
set-append_length [] x = refl
set-append_length (y ∷ xs) x = ap (◌∷◌ y) (set-append_length xs x)

module _ {W : Type 0} (host : Host W) (api : LciApi W) where
  -- At a device that is there, send, recv and put return, whatever LCI answers, unless LCW_DEBUG
  -- finds an answer that is neither LCI_OK nor LCI_ERR_RETRY: true if it is LCI_OK, and then the new
  -- request lives; and false if not, and then it has been deleted.
  pub post_returns :
      (checked : Bool) (op : OpT) (rank tag : ℤ) (buf : Ptr) (n : ℤ) (u : ℕ)
      (call : DeviceT → ℕ → W → Code × W) (p : ℕ) (d : DeviceT) (code : Code) (w : W)
      (s : State DeviceT W)
      → get_elem? s.devices p ≡ some d
      → call d (length s.contexts) s.world ≡ (code, w)
      → (is_expected code || not checked) ≡ true
      → post host api checked (request_of op (some p) rank tag buf n u) call s
        ≡ ok (
          is_ok code,
          record s {
            runtime = record s.runtime { world = w };
            contexts =
                s.contexts
                ++ (if is_ok code then some (request_of op (some p) rank tag buf n u) else none)
                  ∷ [];
          },
        )
  unfolding post finish new_request device_at delete_request
  post_returns true op rank tag buf n u call p d lci_ok w s there answer fine =
      rw (there, answer) refl
  post_returns false op rank tag buf n u call p d lci_ok w s there answer fine =
      rw (there, answer) refl
  post_returns true op rank tag buf n u call p d lci_err_retry w s there answer fine =
      rw
        (
          there,
          answer,
          ap deref
              (get_elem?-append_length s.contexts (some (request_of op (some p) rank tag buf n u))),
          set-append_length s.contexts (some (request_of op (some p) rank tag buf n u)),
        )
        refl
  post_returns false op rank tag buf n u call p d lci_err_retry w s there answer fine =
      rw
        (
          there,
          answer,
          ap deref
              (get_elem?-append_length s.contexts (some (request_of op (some p) rank tag buf n u))),
          set-append_length s.contexts (some (request_of op (some p) rank tag buf n u)),
        )
        refl
  post_returns true op rank tag buf n u call p d lci_err_other w s there answer fine = absurd cc
  post_returns false op rank tag buf n u call p d lci_err_other w s there answer fine =
      rw
        (
          there,
          answer,
          ap deref
              (get_elem?-append_length s.contexts (some (request_of op (some p) rank tag buf n u))),
          set-append_length s.contexts (some (request_of op (some p) rank tag buf n u)),
        )
        refl
