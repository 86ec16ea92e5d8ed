-- ===== src/Checks/Backend.antt =====
-- The choice of a backend at concrete builds.
use lcw.Base.{◌≡◌, refl, ◌≢◌, inr, true, false, some, ok}
use lcw.Api.{auto, mpi, lci2}
use lcw.Backend.{
  Enabled, is_other, is_lci2, alloc_backend, IsBuilt, alloc_backend-IsBuilt, alloc_backend-auto,
}

abbrev both : Enabled
both = record { lci = false; mpi = true; lci2 = true; gex = false }

alloc_backend-IsBuilt_example : IsBuilt both lci2 × (auto ≢ auto → lci2 ≡ auto)
unfolding alloc_backend
alloc_backend-IsBuilt_example = alloc_backend-IsBuilt both (some is_lci2) auto lci2 refl

alloc_backend-auto_example : alloc_backend both (some is_other) auto ≡ ok mpi
alloc_backend-auto_example = alloc_backend-auto both (some is_other) (inr refl)
