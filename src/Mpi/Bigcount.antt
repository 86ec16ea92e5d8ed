-- ===== src/Mpi/Bigcount.antt =====
-- src/backend/mpi/bigcount_wrapper.hpp: sends and receives of more than `int` bytes.
pub mod Typemap
use lcw.Base.{
  ℕ, ℤ, ◌+◌, ◌*◌, ◌/◌, ◌%◌, List, [], ◌∷◌, Option, ltb, if◌then◌else◌, int_max, ok, assertion,
  Action, pure, assert, or_fault, modify, ◌>>=◌, ◌>>◌, to_int,
}
use lcw.Api.{Ptr}
use lcw.Mpi.Types.{MpiApi}

-- MPI_SAFECALL of a call on the world.
abbrev pub safecall : {W A : Type 0} → (W → Option (A × W)) → Action W A
safecall call w = (or_fault (call w) assertion >>= λ r w'. ok (r.0, r.1)) w

-- A call whose error code the source does not look at.
abbrev pub run : {W A : Type 0} → (W → A × W) → Action W A
run call w = ok ((call w).0, (call w).1)

module _ {W : Type 0} (api : MpiApi W) where
  unfoldable pub type_contiguous : ℕ → Action W ℕ
  type_contiguous nbytes = do
    let c = nbytes / int_max
    let r = nbytes % int_max
    assert (ltb c int_max)
    assert (ltb r int_max)
    chunks ← run (api.type_vector c int_max int_max api.byte)
    remainder ← run (api.type_contiguous r api.byte)
    let remdisp = c * int_max
    newtype ← run (api.type_create_struct ((1, 0, chunks) ∷ (1, remdisp, remainder) ∷ []))
    modify (api.type_free chunks)
    modify (api.type_free remainder)
    pure newtype

  -- The branch of isend and irecv for a size above `int`: one element of a type made for it.
  with_contiguous : {A : Type 0} → ℕ → (ℕ → Action W A) → Action W A
  unfolding type_contiguous
  with_contiguous size post = do
    datatype ← type_contiguous size
    modify (api.type_commit datatype)
    request ← post datatype
    modify (api.type_free datatype)
    pure request

  unfoldable pub isend : Ptr → ℕ → ℤ → ℤ → ℕ → Action W (Option ℕ)
  unfolding with_contiguous
  isend address size rank tag comm =
      if ltb int_max size
      then with_contiguous size (λ t. safecall (api.isend address 1 t rank tag comm))
      else safecall (api.isend address size api.byte rank tag comm)

  unfoldable pub irecv : Ptr → ℕ → ℤ → ℤ → ℕ → Action W (Option ℕ)
  unfolding with_contiguous
  irecv address size rank tag comm =
      if ltb int_max size
      then with_contiguous size (λ t. safecall (api.irecv address 1 t rank tag comm))
      else safecall (api.irecv address size api.byte rank tag comm)
