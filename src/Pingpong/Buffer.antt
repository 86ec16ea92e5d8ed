-- ===== src/Pingpong/Buffer.antt =====
-- examples/comm_exp.hpp: write_buffer fills a message from a seed, check_buffer checks one.
pub mod Roundtrip
use lcw.Base.{
  ℕ, zero, suc, ◌-◌, ◌+◌, ◌*◌, ◌/◌, ◌%◌, Bool, true, false, ◌&&◌, List, [], ◌∷◌, ◌++◌, leb, ◌==◌,
  if◌then◌else◌,
}

-- POSIX's rand_r: the value, and the seed that it leaves.
abbrev pub RandR : Type 0
RandR = ℕ → ℕ × ℕ

-- sizeof(unsigned int)
abbrev pub seed_size : ℕ
seed_size = 4

-- The bytes of an unsigned int in memory, least significant first.
unfoldable pub seed_bytes : ℕ → List ℕ
seed_bytes s = (s % 256) ∷ (s / 256 % 256) ∷ (s / 65536 % 256) ∷ (s / 16777216 % 256) ∷ []

-- What stands after the first bytes.
keep_tail : ℕ → List ℕ → List ℕ
keep_tail zero bs = bs
keep_tail (suc n) [] = []
keep_tail (suc n) (b ∷ bs) = keep_tail n bs

-- memcpy of the first four bytes into the seed, and the bytes after them.
unfoldable pub load_seed : List ℕ → ℕ × List ℕ
load_seed (a ∷ b ∷ c ∷ d ∷ bs) = (a + b * 256 + c * 65536 + d * 16777216, bs)
load_seed _ = (0, [])

module _ (rand_r : RandR) where
  -- The loop over `n` bytes; a char is its value modulo 256.
  unfoldable pub fill : ℕ → ℕ → List ℕ
  fill zero seed = []
  fill (suc n) seed = ((rand_r seed).0 % 256) ∷ fill n (rand_r seed).1

  -- `buf` holds `size` bytes at least; what stands after them is not touched.
  unfoldable pub write_buffer : List ℕ → ℕ → ℕ → List ℕ
  unfolding keep_tail
  write_buffer buf size seed =
      if leb size seed_size
      then buf
      else seed_bytes seed ++ (fill (size - seed_size) seed ++ keep_tail size buf)

  unfoldable pub check_loop : ℕ → ℕ → List ℕ → Bool
  check_loop zero seed bs = true
  check_loop (suc n) seed [] = false
  check_loop (suc n) seed (b ∷ bs) = (b == (rand_r seed).0 % 256) && check_loop n (rand_r seed).1 bs

  -- `false` where the source prints the difference and aborts.
  unfoldable pub check_buffer : List ℕ → ℕ → Bool
  unfolding load_seed check_loop
  check_buffer buf size =
      if leb size seed_size
      then true
      else check_loop (size - seed_size) (load_seed buf).0 (load_seed buf).1
