-- ===== src/Mpi/Bigcount/Typemap.antt =====
-- The datatype of src/backend/mpi/bigcount_wrapper.hpp as a type map: the displacements of its
-- bytes, in order. What MPI documents of its type constructors is a record of laws.
use mathlib.Core.Bool.{true≢false}
use native.Mathlib.Nat.{div-add-mod'}
use lcw.Base.{
  ℕ, ℤ, zero, suc, ◌+◌, ◌*◌, ◌/◌, ◌%◌, ◌≤◌, ◌<◌, ◌≡◌, ◌≢◌, refl, sym, ap, ap₂, ◌∙◌, Bool, true,
  false, ◌⊎◌, inl, inr, List, [], ◌∷◌, ◌++◌, map, arith, ltb, lt→ltb, le→ltb, Bool-cases,
  if◌then◌else◌, int_max, ok, fault, blocked, then_with, assertion, Action, Outcome,
}
use lcw.Api.{Ptr}
use lcw.Mpi.Types.{MpiApi}
use lcw.Mpi.Bigcount.{safecall, type_contiguous, with_contiguous, isend, irecv}

-- a, a + 1, ..., a + n - 1
pub seq : ℕ → ℕ → List ℕ
seq a zero = []
seq a (suc n) = a ∷ seq (suc a) n

-- `c` blocks of `b` bytes, from block `i` on, a stride of `s` bytes apart.
pub blocks : ℕ → ℕ → ℕ → ℕ → List ℕ
blocks i zero b s = []
blocks i (suc c) b s = seq (i * s) b ++ blocks (suc i) c b s

abbrev pub shift : ℕ → List ℕ → List ℕ
shift d = map (λ x. d + x)

seq_eq : {a b m n : ℕ} → a ≡ b → m ≡ n → seq a m ≡ seq b n
seq_eq p q = ap₂ seq p q

seq-append : (a b m n : ℕ) → b ≡ a + m → seq a m ++ seq b n ≡ seq a (m + n)
unfolding seq
seq-append a b zero n e = seq_eq (omega arith) (omega arith)
seq-append a b (suc m) n e =
    ap (◌∷◌ a) (seq-append (suc a) b m n (omega arith))
    ∙ seq_eq {m = suc (m + n)} refl (omega arith)

blocks-seq : (i c s : ℕ) → blocks i c s s ≡ seq (i * s) (c * s)
unfolding blocks
blocks-seq i zero s = unfold seq in seq_eq {m = 0} refl (grind arith)
blocks-seq i (suc c) s =
    ap (◌++◌ (seq (i * s) s)) (blocks-seq (suc i) c s)
    ∙ seq-append (i * s) (suc i * s) s (c * s) (grind arith)
    ∙ seq_eq refl (grind arith)

shift-seq : (d a n : ℕ) → shift d (seq a n) ≡ seq (d + a) n
unfolding seq
shift-seq d a zero = refl
shift-seq d a (suc n) = ap (◌∷◌ (d + a)) (shift-seq d (suc a) n ∙ seq_eq (omega arith) refl)

-- The two parts of `n` bytes: `n / k` whole chunks of `k`, and the rest after them.
parts-seq :
    (n k : ℕ) → shift 0 (blocks 0 (n / k) k k) ++ shift (n / k * k) (seq 0 (n % k)) ≡ seq 0 n
parts-seq n k =
    ap₂ ◌++◌
      (ap (shift 0) (blocks-seq 0 (n / k) k)
        ∙ shift-seq 0 (0 * k) (n / k * k)
        ∙ seq_eq (grind arith) refl)
      (shift-seq (n / k * k) 0 (n % k))
    ∙ seq-append 0 (n / k * k + 0) (n / k * k) (n % k) (omega arith)
    ∙ seq_eq refl (div-add-mod' n k)

-- A type of map `m` is new in the world `r.1`, where the types of `w` are as before.
pub record Makes {W : Type 0} (typemap : W → ℕ → List ℕ) (is_live : W → ℕ → Bool) (w : W)
    (r : ℕ × W) (m : List ℕ) : Type 0 where
  pub made : typemap r.1 r.0 ≡ m
  pub live : is_live r.1 r.0 ≡ true
  pub fresh : is_live w r.0 ≡ false
  pub keeps_live : (t : ℕ) → is_live w t ≡ true → is_live r.1 t ≡ true
  pub keeps : (t : ℕ) → is_live w t ≡ true → typemap r.1 t ≡ typemap w t

-- MPI_Type_vector and MPI_Type_contiguous over MPI_BYTE, a structure of two single blocks,
-- MPI_Type_commit, and MPI_Type_free, which leaves the other types as they are.
pub record TypeLaws {W : Type 0} (api : MpiApi W) : Type 0 where
  pub typemap : W → ℕ → List ℕ
  pub is_live : W → ℕ → Bool
  pub vector :
      (c b s : ℕ) (w : W)
      → Makes typemap is_live w (api.type_vector c b s api.byte w) (blocks 0 c b s)
  pub contiguous :
      (n : ℕ) (w : W) → Makes typemap is_live w (api.type_contiguous n api.byte w) (seq 0 n)
  pub struct :
      (d t e u : ℕ) (w : W)
      → is_live w t ≡ true
      → is_live w u ≡ true
      → Makes typemap is_live w
          (api.type_create_struct ((1, d, t) ∷ (1, e, u) ∷ []) w)
          (shift d (typemap w t) ++ shift e (typemap w u))
  pub commit : (t : ℕ) (w : W) → typemap (api.type_commit t w) t ≡ typemap w t
  pub free : (t u : ℕ) (w : W) → u ≢ t → typemap (api.type_free t w) u ≡ typemap w u

module _ {W : Type 0} (api : MpiApi W) where
  -- From (2^31 - 1)^2 bytes on, its first assertion fails.
  pub type_contiguous_too_large :
      (nbytes : ℕ) (w : W)
      → int_max * int_max ≤ nbytes
      → type_contiguous api nbytes w ≡ fault assertion
  unfolding type_contiguous
  type_contiguous_too_large n w h = rw (le→ltb (n / int_max) int_max (omega arith))

module _ {W : Type 0} (api : MpiApi W) (laws : TypeLaws api) where
  open laws use {typemap, is_live}

  fresh-ne :
      (w : W) (r : ℕ × W) (m : List ℕ) (t : ℕ)
      → Makes typemap is_live w r m
      → is_live w t ≡ true
      → r.0 ≢ t
  fresh-ne w r m t h l e = true≢false (sym l ∙ ap (is_live w) (sym e) ∙ h.fresh)

  -- Below (2^31 - 1)^2 bytes, type_contiguous returns a type whose bytes are exactly those at the
  -- displacements 0, 1, ..., nbytes - 1, in that order.
  pub type_contiguous-typemap :
      (nbytes : ℕ) (w : W)
      → nbytes < int_max * int_max
      → (t : ℕ) × (w' : W) × (type_contiguous api nbytes w ≡ ok (t, w'))
        × (typemap w' t ≡ seq 0 nbytes)
  unfolding type_contiguous
  type_contiguous-typemap n w h = (
    newtype.0,
    api.type_free remainder.0 (api.type_free chunks.0 newtype.1),
    rw (lt→ltb (n / int_max) int_max (omega arith), lt→ltb (n % int_max) int_max (omega arith)),
    laws.free remainder.0 newtype.0 _ (fresh-ne _ newtype _ remainder.0 makes made_r.live)
        ∙ laws.free chunks.0 newtype.0 _ (fresh-ne _ newtype _ chunks.0 makes chunks_live)
        ∙ makes.made
        ∙ ap₂ (λ a b. shift 0 a ++ shift (n / int_max * int_max) b)
            (made_r.keeps chunks.0 made_c.live ∙ made_c.made) made_r.made
        ∙ parts-seq n int_max,
  )
    where
      chunks : ℕ × W
      chunks = api.type_vector (n / int_max) int_max int_max api.byte w

      remainder : ℕ × W
      remainder = api.type_contiguous (n % int_max) api.byte chunks.1

      newtype : ℕ × W
      newtype =
          api.type_create_struct ((1, 0, chunks.0) ∷ (1, n / int_max * int_max, remainder.0) ∷ [])
            remainder.1

      made_c : Makes typemap is_live w chunks (blocks 0 (n / int_max) int_max int_max)
      made_c = laws.vector (n / int_max) int_max int_max w

      made_r : Makes typemap is_live chunks.1 remainder (seq 0 (n % int_max))
      made_r = laws.contiguous (n % int_max) chunks.1

      chunks_live : is_live remainder.1 chunks.0 ≡ true
      chunks_live = made_r.keeps_live chunks.0 made_c.live

      makes : Makes typemap is_live remainder.1 newtype (
          shift 0 (typemap remainder.1 chunks.0)
          ++ shift (n / int_max * int_max) (typemap remainder.1 remainder.0))
      makes =
          laws.struct 0 chunks.0 (n / int_max * int_max) remainder.0 remainder.1 chunks_live
            made_r.live

  -- The arguments of a call of MPI_Isend or MPI_Irecv describe the first `size` bytes of the buffer.
  pub record Describes (size count t : ℕ) (w : W) : Type 0 where
    pub fits : count ≤ int_max
    pub bytes : ((t ≡ api.byte) × (count ≡ size)) ⊎ ((count ≡ 1) × (typemap w t ≡ seq 0 size))

  -- The call that `post` makes for `size` bytes, whichever branch is taken.
  abbrev pub Posts : {A : Type 0} → (ℕ → ℕ → Action W A) → ℕ → W → Outcome (A × W) → Type 0
  Posts {A} post size w o =
      (count t : ℕ) × (w' : W) × (g : W → W) × Describes size count t w'
      × (o ≡ then_with (post count t w') (λ a v. ok (a, g v)))

  then_with-ok : {A : Type 0} (o : Outcome (A × W)) → o ≡ then_with o (λ a v. ok (a, v))
  then_with-ok (ok (a, v)) = refl
  then_with-ok (fault e) = refl
  then_with-ok blocked = refl

  with_contiguous-Posts :
      {A : Type 0} (post : ℕ → ℕ → Action W A) (size : ℕ) (w : W)
      → size < int_max * int_max
      → Posts post size w
          ((if ltb int_max size then with_contiguous api size (post 1) else post size api.byte) w)
  unfolding with_contiguous
  with_contiguous-Posts post size w h = elim (Bool-cases (ltb int_max size)) [
    | inl big ↦
        let (t, w', e, m) = type_contiguous-typemap size w h in
        (
          1,
          t,
          api.type_commit t w',
          api.type_free t,
          record { fits = omega arith; bytes = inr (refl, laws.commit t w' ∙ m) },
          rw (big, e),
        )
    | inr small ↦ (
      size,
      api.byte,
      w,
      (λ v. v),
      record { fits = ground arith; bytes = inl (refl, refl) },
      rw small (then_with-ok (post size api.byte w)),
    )
  ]

  -- Below (2^31 - 1)^2 bytes isend makes one call of MPI_Isend, whose count fits an int and whose
  -- count and type describe exactly `size` bytes from the start of the buffer; its outcome is that
  -- call's, the assertion of MPI_SAFECALL included.
  pub isend-Describes :
      (address : Ptr) (size : ℕ) (rank tag : ℤ) (comm : ℕ) (w : W)
      → size < int_max * int_max
      → Posts
          (λ n t. safecall (api.isend address n t rank tag comm))
          size
          w
          (isend api address size rank tag comm w)
  unfolding isend
  isend-Describes address size rank tag comm w h =
      with_contiguous-Posts (λ n t. safecall (api.isend address n t rank tag comm)) size w h

  -- Below (2^31 - 1)^2 bytes irecv makes one call of MPI_Irecv, whose count fits an int and whose
  -- count and type describe exactly `size` bytes from the start of the buffer; its outcome is that
  -- call's, the assertion of MPI_SAFECALL included.
  pub irecv-Describes :
      (address : Ptr) (size : ℕ) (rank tag : ℤ) (comm : ℕ) (w : W)
      → size < int_max * int_max
      → Posts
          (λ n t. safecall (api.irecv address n t rank tag comm))
          size
          w
          (irecv api address size rank tag comm w)
  unfolding irecv
  irecv-Describes address size rank tag comm w h =
      with_contiguous-Posts (λ n t. safecall (api.irecv address n t rank tag comm)) size w h
