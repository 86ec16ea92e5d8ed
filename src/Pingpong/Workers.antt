-- ===== src/Pingpong/Workers.antt =====
-- examples/pingpong_mt.cpp: which worker uses and allocates which device, which progress thread
-- serves which, the tags, the peer, and the threads that main spawns.
pub mod Division
use lcw.Base.{
  ℤ, pos, to_int, ℕ, zero, suc, ◌+◌, ◌-◌, ◌*◌, ◌/◌, ◌%◌, Bool, true, false, ◌||◌, List, [], ◌∷◌,
  ltb, ◌==◌, if◌then◌else◌,
}

-- The options that the division of labour reads; devices.size() is `ndevices`.
pub record Config : Type 0 where
  pub ndevices : ℕ
  pub nthreads : ℕ
  pub nprgthreads : ℕ

unfoldable pub nworkers : Config → ℕ
nworkers c = c.nthreads - c.nprgthreads

-- (a + b - 1) / b
unfoldable pub ceil_div : ℕ → ℕ → ℕ
ceil_div a b = (a + b - 1) / b

unfoldable pub nworkers_per_device : Config → ℕ
unfolding nworkers ceil_div
nworkers_per_device c = ceil_div (nworkers c) c.ndevices

unfoldable pub device_idx : Config → ℕ → ℕ
unfolding nworkers_per_device
device_idx c worker_id = worker_id / nworkers_per_device c

-- The thread that allocates its device and frees it.
unfoldable pub is_responsible : Config → ℕ → Bool
unfolding nworkers_per_device
is_responsible c worker_id = worker_id % nworkers_per_device c == 0

-- An int, which is taken to wrap around where it overflows.
unfoldable pub get_tag : Config → ℕ → ℕ → ℤ
unfolding nworkers
get_tag c worker_id idx = to_int (pos (worker_id + idx * nworkers c))

unfoldable pub peer_rank : ℕ → ℕ → ℕ
peer_rank nranks rank = (rank + nranks / 2) % nranks

unfoldable pub is_sender : ℕ → ℕ → Bool
is_sender nranks rank = nranks == 1 || ltb rank (nranks / 2)

unfoldable pub ndevices_per_prgthread : Config → ℕ
unfolding ceil_div
ndevices_per_prgthread c = ceil_div c.ndevices c.nprgthreads

-- The devices that one round of a progress thread serves: `n` rounds of its loop from `i` on, up to
-- the `break`.
served_from : Config → ℕ → ℕ → ℕ → List ℕ
unfolding ndevices_per_prgthread
served_from c progress_id i zero = []
served_from c progress_id i (suc n) =
    let rest = served_from c progress_id (i + 1) n in
    let idx = progress_id * ndevices_per_prgthread c + i in
    if ltb idx c.ndevices then idx ∷ rest else []

unfoldable pub served : Config → ℕ → List ℕ
unfolding served_from
served c progress_id = served_from c progress_id 0 (ndevices_per_prgthread c)
