-- ===== src/Checks/Bigcount.antt =====
-- MPI's types as a list of type maps, where a handle is an index: the laws of the type constructors
-- hold there, and the theorems about sizes above `int` apply.
use lcw.Base.{
  subst, ◌^◌, ℕ, pos, suc, zero, ◌≡◌, refl, sym, ap, ◌∙◌, Bool, true, false, Option, none, some,
  List, [], ◌∷◌, ◌++◌, arith, ltb, ltb→lt, lt→ltb, le→ltb, length, length-append, get_elem?,
  get_elem?-append_length, get_elem?-append_some, ok, fault, assertion,
}
use mathlib.Core.List.{append-nil}
use lcw.Mpi.Types.{MpiApi}
use lcw.Mpi.Bigcount.{safecall, type_contiguous, isend, irecv}
use lcw.Mpi.Bigcount.Typemap.{
  seq, blocks, shift, Makes, TypeLaws, Posts, type_contiguous-typemap, type_contiguous_too_large,
  isend-Describes, irecv-Describes,
}

abbrev World : Type 0
World = List (List ℕ)

abbrev or_empty : Option (List ℕ) → List ℕ
or_empty none = []
or_empty (some m) = m

abbrev typemap : World → ℕ → List ℕ
typemap w t = or_empty (get_elem? w t)

abbrev is_live : World → ℕ → Bool
is_live w t = ltb t (length w)

abbrev define : List ℕ → World → ℕ × World
define m w = (length w, w ++ m ∷ [])

abbrev struct : List (ℕ × ℕ × ℕ) → World → List ℕ
struct [] w = []
struct ((n, d, t) ∷ bs) w = shift d (typemap w t) ++ struct bs w

abbrev api : MpiApi World
api = record {
  byte = 0;
  any_source = pos 0;
  type_vector = λ c b s t w. define (blocks 0 c b s) w;
  type_contiguous = λ n t w. define (seq 0 n) w;
  type_create_struct = λ bs w. define (struct bs w) w;
  type_commit = λ t w. w;
  type_free = λ t w. w;
  isend = λ a n t r g c w. some (some n, w);
  irecv = λ a n t r g c w. some (some n, w);
  test = λ r w. some (none, w);
  init_thread = λ w. some (true, w);
  comm_rank = λ w. some (pos 0, w);
  comm_size = λ w. some (pos 2, w);
  comm_dup = λ w. some (0, w);
  stream_create = λ w. some (0, w);
  stream_comm_create = λ s w. some (0, w);
  stream_free = λ s w. some (tt, w);
  comm_set_info = λ c w. w;
  comm_tag_ub = λ c w. (none, w);
  comm_free = λ c w. some (tt, w);
  barrier = λ c w. some (tt, w);
  finalize = λ w. some (tt, w);
  attach = λ r i d c w. some (false, w);
  continue_init = λ p w. some (0, w);
  start = λ r w. some (tt, w);
  request_free = λ r w. some (tt, w);
}

live-lookup : (w : World) (t : ℕ) → is_live w t ≡ true → (m : List ℕ) × (get_elem? w t ≡ some m)
live-lookup [] t h = absurd (ground arith)
live-lookup (m ∷ w) zero h = (m, refl)
live-lookup (m ∷ w) (suc t) h = live-lookup w t (ground arith)

define-Makes : (w : World) (m : List ℕ) → Makes typemap is_live w (define m w) m
define-Makes w m = record {
  made = ap or_empty (get_elem?-append_length w m);
  live = lt→ltb _ _ (omega (arith, length-append w (m ∷ [])));
  fresh = le→ltb _ _ (omega arith);
  keeps_live = λ t h. lt→ltb _ _ (omega (arith, length-append w (m ∷ []), ltb→lt _ _ h));
  keeps = λ t h.
      let (n, e) = live-lookup w t h in ap or_empty (get_elem?-append_some w (m ∷ []) t e ∙ sym e);
}

struct-Makes :
    (d t e u : ℕ) (w : World)
    → Makes typemap is_live w
        (api.type_create_struct ((1, d, t) ∷ (1, e, u) ∷ []) w)
        (shift d (typemap w t) ++ shift e (typemap w u))
struct-Makes d t e u w =
    subst
      (λ m.
        Makes typemap is_live w (define (shift d (typemap w t) ++ m) w)
          (shift d (typemap w t) ++ shift e (typemap w u)))
      (sym (append-nil (shift e (typemap w u))))
      (define-Makes w (shift d (typemap w t) ++ shift e (typemap w u)))

laws : TypeLaws api
laws = record {
  typemap = typemap;
  is_live = is_live;
  vector = λ c b s w. define-Makes w (blocks 0 c b s);
  contiguous = λ n w. define-Makes w (seq 0 n);
  struct = λ d t e u w h k. struct-Makes d t e u w;
  commit = λ t w. refl;
  free = λ t u w h. refl;
}

-- Three thousand million bytes.
abbrev big : ℕ
big = 3000000000

abbrev start : World
start = (0 ∷ []) ∷ []

type_contiguous-typemap_example :
    (t : ℕ) × (w' : World) × (type_contiguous api big start ≡ ok (t, w'))
    × (typemap w' t ≡ seq 0 big)
unfolding laws
type_contiguous-typemap_example = type_contiguous-typemap api laws big start (omega arith)

type_contiguous_too_large_example : type_contiguous api (2 ^ 63) start ≡ fault assertion
type_contiguous_too_large_example = type_contiguous_too_large api (2 ^ 63) start (omega arith)

isend-Describes_example :
    Posts api laws
      (λ n t. safecall (api.isend (some 3) n t (pos 1) (pos 5) 0))
      big
      start
      (isend api (some 3) big (pos 1) (pos 5) 0 start)
isend-Describes_example =
    isend-Describes api laws (some 3) big (pos 1) (pos 5) 0 start (omega arith)

irecv-Describes_example :
    Posts api laws
      (λ n t. safecall (api.irecv (some 3) n t (pos 1) (pos 5) 0))
      big
      start
      (irecv api (some 3) big (pos 1) (pos 5) 0 start)
irecv-Describes_example =
    irecv-Describes api laws (some 3) big (pos 1) (pos 5) 0 start (omega arith)
