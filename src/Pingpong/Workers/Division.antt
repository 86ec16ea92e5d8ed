-- ===== src/Pingpong/Workers/Division.antt =====
-- The division of workers over devices and of devices over progress threads.
use native.Mathlib.Nat.{
  mod-lt, div-lt_iff_lt-mul, div-add-mod', div-eq_of_eq-mul_left, div-eq_of_lt-le, mod-eq_of_lt,
  mod-eq-sub-mod,
}
use lcw.Base.{
  pos, to_int-pos, ◌^◌, ℕ, zero, suc, ◌+◌, ◌-◌, ◌*◌, ◌/◌, ◌%◌, ◌<◌, ◌≤◌, ◌≡◌, ◌≢◌, ◌↔◌, refl, sym,
  ap, ◌∙◌, true, not, Bool-cases, inl, inr, arith, ltb, ltb→lt, lt→ltb, le→ltb, ◌==◌, ==_iff,
  if◌then◌else◌, total, leb, ◌&&◌,
}
use lcw.Pingpong.Workers.{
  Config, nworkers, ceil_div, nworkers_per_device, device_idx, is_responsible, get_tag, peer_rank,
  is_sender, ndevices_per_prgthread, served_from, served,
}

-- Enough groups of the ceiling cover everything, and one fewer does not.
pub ceil_div-mul : (a b : ℕ) → 0 < b → (a ≤ b * ceil_div a b) × (b * ceil_div a b < a + b)
unfolding ceil_div
ceil_div-mul a b h = grind arith

per_pos : (c : Config) → 0 < c.ndevices → 0 < nworkers c → 0 < nworkers_per_device c
unfolding nworkers_per_device
per_pos c h k =
    let q = (ceil_div-mul (nworkers c) c.ndevices h).0 in go (ceil_div (nworkers c) c.ndevices) q
  where
    go : (m : ℕ) → nworkers c ≤ c.ndevices * m → 0 < m
    go zero q = absurd (grind arith)
    go (suc m) q = omega arith

-- Where there are devices, every worker gets one that there is: its assertion does not fail.
pub device_idx_lt :
    (c : Config) (worker_id : ℕ)
    → 0 < c.ndevices
    → worker_id < nworkers c
    → device_idx c worker_id < c.ndevices
unfolding device_idx
device_idx_lt c w h lt =
    (div-lt_iff_lt-mul (per_pos c h (omega arith))).1
      (omega (arith, lt, (ceil_div-mul (nworkers c) c.ndevices h).0))

times-div : (d m : ℕ) → 0 < m → (d * m / m ≡ d) × (d * m % m ≡ 0)
times-div d m h =
    let q : d * m / m ≡ d = div-eq_of_eq-mul_left h refl in
    (q, omega (arith, div-add-mod' (d * m) m, ap (λ (k : ℕ). k * m) q))

-- Where there are devices, a worker is the one that allocates and frees a device exactly when it is
-- the first of those that use it.
pub is_responsible_iff :
    (c : Config) (device worker_id : ℕ)
    → 0 < c.ndevices
    → worker_id < nworkers c
    → ((is_responsible c worker_id ≡ true) × (device_idx c worker_id ≡ device))
      ↔ (worker_id ≡ device * nworkers_per_device c)
unfolding is_responsible device_idx
is_responsible_iff c d w h lt = (
  λ (r, e). omega (
    arith,
    div-add-mod' w (nworkers_per_device c),
    (==_iff (w % nworkers_per_device c) 0).0 r,
    ap (λ (k : ℕ). k * nworkers_per_device c) e,
  ),
  λ e.
      let q = times-div d (nworkers_per_device c) (per_pos c h (omega arith)) in
      ((==_iff _ 0).1 (rw e q.1), rw e q.0),
)

pos-injective : {a b : ℕ} → pos a ≡ pos b → a ≡ b
pos-injective e = cc

-- Different workers and different places in the window have different tags, as long as the numbers
-- they are made of are below 2 ^ 31, so that the int does not overflow.
pub get_tag_injective :
    (c : Config) (worker_id worker_id' idx idx' : ℕ)
    → worker_id < nworkers c
    → worker_id' < nworkers c
    → worker_id + idx * nworkers c < 2 ^ 31
    → worker_id' + idx' * nworkers c < 2 ^ 31
    → get_tag c worker_id idx ≡ get_tag c worker_id' idx'
    → (worker_id ≡ worker_id') × (idx ≡ idx')
unfolding get_tag
get_tag_injective c w w' i i' h h' b b' e' =
    (omega (arith, e, ap (λ (k : ℕ). k * nworkers c) same), same)
  where
    e : w + i * nworkers c ≡ w' + i' * nworkers c
    e = pos-injective (sym (to_int-pos _ b) ∙ e' ∙ to_int-pos _ b')

    place : (w i : ℕ) → w < nworkers c → (w + i * nworkers c) / nworkers c ≡ i
    place w i h = div-eq_of_lt-le (nworkers c) (omega arith) (grind arith)

    same : i ≡ i'
    same = sym (place w i h) ∙ ap (λ t. t / nworkers c) e ∙ place w' i' h'

half_of_double : (n : ℕ) → 2 * n / 2 ≡ n
half_of_double n = omega arith

peer_rank_low : (half rank : ℕ) → rank < half → peer_rank (2 * half) rank ≡ rank + half
unfolding peer_rank
peer_rank_low half rank h = rw (half_of_double half) (mod-eq_of_lt (omega arith))

peer_rank_high :
    (half rank : ℕ) → half ≤ rank → rank < 2 * half → peer_rank (2 * half) rank ≡ rank - half
unfolding peer_rank
peer_rank_high half rank h k = rw (half_of_double half) (
    mod-eq-sub-mod {n = rank + half} {m = 2 * half} (omega arith)
    ∙ mod-eq_of_lt (omega arith)
    ∙ omega arith)

is_sender-eq : (half rank : ℕ) → is_sender (2 * half) rank ≡ ltb rank half
unfolding is_sender
is_sender-eq half rank = ground (arith, half_of_double half)

-- With an even number of ranks, for each of them, the peer of the peer is the rank itself, and of the two one sends
-- first and the other receives first.
pub peer_rank_involutive :
    (half rank : ℕ)
    → rank < 2 * half
    → (peer_rank (2 * half) (peer_rank (2 * half) rank) ≡ rank)
      × (is_sender (2 * half) (peer_rank (2 * half) rank) ≡ not (is_sender (2 * half) rank))
peer_rank_involutive half rank h = elim (Bool-cases (ltb rank half)) [
  | inl low ↦
      let e = peer_rank_low half rank (ltb→lt _ _ low) in
      rw (e, is_sender-eq half rank, is_sender-eq half (rank + half), low)
        (
          peer_rank_high half (rank + half) (omega arith) (omega (arith, ltb→lt _ _ low))
              ∙ omega arith,
          le→ltb (rank + half) half (omega arith),
        )
  | inr high ↦
      let k : half ≤ rank = ground arith in
      let e = peer_rank_high half rank k h in
      rw (e, is_sender-eq half rank, is_sender-eq half (rank - half), high)
        (
          peer_rank_low half (rank - half) (omega arith) ∙ omega arith,
          lt→ltb (rank - half) half (omega arith),
        )
]

-- 1 at the device.
abbrev pub is_device : ℕ → ℕ → ℕ
is_device d x = if x == d then 1 else 0

served_from-once :
    (c : Config) (p d i n : ℕ)
    → d < c.ndevices
    → total (is_device d) (served_from c p i n) ≡ (
        if leb (p * ndevices_per_prgthread c + i) d && ltb d (p * ndevices_per_prgthread c + i + n)
        then 1
        else 0)
unfolding served_from
served_from-once c p d i zero h = ground arith
served_from-once c p d i (suc n) h = ground (arith, served_from-once c p d (i + 1) n h)

in_share : (p k d : ℕ) → 0 < k → (leb (p * k + 0) d && ltb d (p * k + 0 + k)) ≡ (d / k == p)
in_share p k d h = elim (Bool-cases (d / k == p)) [
  | inl same ↦
      let q = (==_iff (d / k) p).0 same in
      let e = ap (λ (t : ℕ). t * k) q in
      let m = div-add-mod' d k in let l = mod-lt d h in rw same (ground arith)
  | inr other ↦
      let q : d / k ≢ p = λ q. cc (sym ((==_iff (d / k) p).1 q) ∙ other) in
      elim (Bool-cases (leb (p * k + 0) d && ltb d (p * k + 0 + k))) [
        | inl there ↦
            let low : p * k ≤ d = ground arith in
            let high : d < p * k + k = ground arith in
            absurd (q (div-eq_of_lt-le k low (grind arith)))
        | inr away ↦ away ∙ sym other
      ]
]

-- Where there are progress threads, in each of their rounds every device is served once, by one of the threads, and by
-- no other.
pub served_once :
    (c : Config) (progress_id device : ℕ)
    → 0 < c.nprgthreads
    → device < c.ndevices
    → (device / ndevices_per_prgthread c < c.nprgthreads)
      × (total (is_device device) (served c progress_id)
          ≡ (if device / ndevices_per_prgthread c == progress_id then 1 else 0))
unfolding served
served_once c p d h lt = (
  (div-lt_iff_lt-mul k_pos).1 (omega (arith, lt, enough)),
  served_from-once c p d 0 (ndevices_per_prgthread c) lt
      ∙ ap (λ b. if b then 1 else 0) (in_share p (ndevices_per_prgthread c) d k_pos),
)
  where
    enough : c.ndevices ≤ c.nprgthreads * ndevices_per_prgthread c
    enough = unfold ndevices_per_prgthread in (ceil_div-mul c.ndevices c.nprgthreads h).0

    k_pos : 0 < ndevices_per_prgthread c
    k_pos = go (ndevices_per_prgthread c) enough
      where
        go : (m : ℕ) → c.ndevices ≤ c.nprgthreads * m → 0 < m
        go zero q = absurd (grind arith)
        go (suc m) q = omega arith
