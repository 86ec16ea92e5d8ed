-- ===== src/Pingpong/Buffer/Roundtrip.antt =====
-- What check_buffer accepts of a message.
use lcw.Base.{
  ℕ, zero, suc, ◌-◌, ◌%◌, ◌^◌, ◌<◌, ◌≤◌, ◌≡◌, refl, ap, ap₂, sym, ◌∙◌, Bool, true, false, List, [],
  ◌∷◌, ◌++◌, leb, if◌then◌else◌, arith, length,
}
use lcw.Pingpong.Buffer.{
  RandR, seed_size, seed_bytes, fill, write_buffer, check_loop, check_buffer, keep_tail, load_seed,
}

-- Chars as bytes.
abbrev pub AreBytes : List ℕ → Type 0
AreBytes [] = Unit
AreBytes (b ∷ bs) = (b < 256) × AreBytes bs

load_seed-bytes :
    (seed : ℕ) (bs : List ℕ) → seed < 2 ^ 32 → load_seed (seed_bytes seed ++ bs) ≡ (seed, bs)
unfolding load_seed seed_bytes
load_seed-bytes seed bs h = ap (λ n. (n, bs)) (omega arith)

module _ (rand_r : RandR) where
  check_loop-fill :
      (n seed : ℕ) (rest : List ℕ) → check_loop rand_r n seed (fill rand_r n seed ++ rest) ≡ true
  unfolding check_loop fill
  check_loop-fill zero seed rest = refl
  check_loop-fill (suc n) seed rest = ground (arith, check_loop-fill n (rand_r seed).1 rest)

  checked :
      (r : ℕ × List ℕ) (n seed : ℕ) (rest : List ℕ)
      → r ≡ (seed, fill rand_r n seed ++ rest)
      → check_loop rand_r n r.0 r.1 ≡ true
  checked r n seed rest e = rw e (check_loop-fill n seed rest)

  -- Whatever rand_r computes, check_buffer accepts every message that write_buffer has filled from a
  -- 32-bit seed, at the same size, for any size and whatever the buffer held.
  pub check_buffer-write_buffer :
      (buf : List ℕ) (size seed : ℕ)
      → seed < 2 ^ 32
      → check_buffer rand_r (write_buffer rand_r buf size seed) size ≡ true
  unfolding check_buffer write_buffer
  check_buffer-write_buffer buf size seed h = go (leb size seed_size)
    where
      go :
          (b : Bool)
          → (if b
              then true
              else check_loop rand_r
                  (size - seed_size)
                  (load_seed (
                    if b
                    then buf
                    else seed_bytes seed
                      ++ (fill rand_r (size - seed_size) seed ++ keep_tail size buf))).0
                  (load_seed (
                    if b
                    then buf
                    else seed_bytes seed
                      ++ (fill rand_r (size - seed_size) seed ++ keep_tail size buf))).1)
            ≡ true
      go true = refl
      go false =
          checked
            (load_seed
              (seed_bytes seed ++ (fill rand_r (size - seed_size) seed ++ keep_tail size buf)))
            (size - seed_size) seed (keep_tail size buf) (load_seed-bytes seed _ h)

  check_loop-eq :
      (n seed : ℕ) (bs : List ℕ)
      → check_loop rand_r n seed bs ≡ true
      → bs ≡ fill rand_r n seed ++ keep_tail n bs
  unfolding check_loop fill keep_tail
  check_loop-eq zero seed bs h = refl
  check_loop-eq (suc n) seed [] h = cc
  check_loop-eq (suc n) seed (b ∷ bs) h =
      let head : b ≡ (rand_r seed).0 % 256 = ground arith in
      let tail : check_loop rand_r n (rand_r seed).1 bs ≡ true = ground arith in
      ap₂ ◌∷◌ head (check_loop-eq n (rand_r seed).1 bs tail)

  seed_bytes-load :
      (a b c d : ℕ) (bs : List ℕ)
      → AreBytes (a ∷ b ∷ c ∷ d ∷ [])
      → seed_bytes (load_seed (a ∷ b ∷ c ∷ d ∷ bs)).0 ≡ a ∷ b ∷ c ∷ d ∷ []
  unfolding seed_bytes load_seed
  seed_bytes-load a b c d bs h =
      ap₂ ◌∷◌ (omega arith)
        (ap₂ ◌∷◌ (omega arith) (ap₂ ◌∷◌ (omega arith) (ap (λ x. x ∷ []) (omega arith))))

  accepted :
      (a b c d n : ℕ) (bs : List ℕ)
      → AreBytes (a ∷ b ∷ c ∷ d ∷ [])
      → check_loop rand_r n (load_seed (a ∷ b ∷ c ∷ d ∷ bs)).0 bs ≡ true
      → a ∷ b ∷ c ∷ d ∷ bs
        ≡ seed_bytes (load_seed (a ∷ b ∷ c ∷ d ∷ bs)).0
          ++ (fill rand_r n (load_seed (a ∷ b ∷ c ∷ d ∷ bs)).0 ++ keep_tail n bs)
  accepted a b c d n bs h k =
      ap (λ t. a ∷ b ∷ c ∷ d ∷ t) (check_loop-eq n _ bs k)
      ∙ ap (λ t. t ++ (fill rand_r n (load_seed (a ∷ b ∷ c ∷ d ∷ bs)).0 ++ keep_tail n bs))
          (sym (seed_bytes-load a b c d bs h))

  -- It accepts nothing else: a buffer of bytes, at least `size` long, that it accepts at a size of
  -- more than four is, byte for byte, what write_buffer makes of it from the seed that its first four
  -- bytes hold.
  pub check_buffer_exact :
      (buf : List ℕ) (size : ℕ)
      → AreBytes buf
      → seed_size < size
      → size ≤ length buf
      → check_buffer rand_r buf size ≡ true
      → buf ≡ write_buffer rand_r buf size (load_seed buf).0
  unfolding check_buffer write_buffer load_seed keep_tail
  check_buffer_exact (a ∷ b ∷ c ∷ d ∷ bs) (suc (suc (suc (suc n)))) h lt le ok =
      go (leb (suc (suc (suc (suc n)))) seed_size) refl ok
    where
      go :
          (t : Bool)
          → leb (suc (suc (suc (suc n)))) seed_size ≡ t
          → (if t
              then true
              else check_loop rand_r
                  (suc (suc (suc (suc n))) - seed_size)
                  (load_seed (a ∷ b ∷ c ∷ d ∷ bs)).0
                  bs)
            ≡ true
          → a ∷ b ∷ c ∷ d ∷ bs ≡ (
              if t
              then a ∷ b ∷ c ∷ d ∷ bs
              else seed_bytes (load_seed (a ∷ b ∷ c ∷ d ∷ bs)).0
                ++ (fill rand_r
                      (suc (suc (suc (suc n))) - seed_size)
                      (load_seed (a ∷ b ∷ c ∷ d ∷ bs)).0
                    ++ keep_tail n bs))
      go true e k = refl
      go false e k =
          let q : suc (suc (suc (suc n))) - seed_size ≡ n = omega arith in
          rw q (accepted a b c d n bs (h.0, (h.1.0, (h.1.1.0, (h.1.1.1.0, tt)))) (rw q at k))
  check_buffer_exact _ _ h lt le ok = absurd (omega arith)
