-- ===== src/Pingpong/Options.antt =====
-- The options of examples/pingpong_mt.cpp with their defaults, and what main checks of them.
use lcw.Base.{
  ℕ, ℤ, pos, negsuc, ◌+◌, ◌<◌, ◌≡◌, Bool, true, false, not, ◌&&◌, ◌||◌, ltb, ltb_ℤ, leb_ℤ,
  difference, to_size_t, arith,
}
use lcw.Api.{OpT, send, recv, put, put_signal}
use lcw.Pingpong.Workers.{Config, nworkers}

-- config_t, with int for each option but the operation.
pub record Options : Type 0 where
  pub op : OpT
  pub ndevices : ℤ
  pub nthreads : ℤ
  pub min_size : ℤ
  pub max_size : ℤ
  pub niters : ℤ
  pub test_mode : ℤ
  pub pin_thread : ℤ
  pub nprgthreads : ℤ
  pub send_window : ℤ
  pub recv_window : ℤ
  pub compute_us : ℤ
  pub compute_us_std : ℤ
  pub max_progress_steps : ℤ

abbrev pub defaults : Options
defaults = record {
  op = send;
  ndevices = pos 2;
  nthreads = pos 4;
  min_size = pos 8;
  max_size = pos 8192;
  niters = pos 10;
  test_mode = pos 1;
  pin_thread = pos 1;
  nprgthreads = pos 1;
  send_window = pos 1;
  recv_window = pos 1;
  compute_us = pos 0;
  compute_us_std = pos 0;
  max_progress_steps = pos 1000;
}

-- The three assertions of main.
unfoldable pub is_accepted : Options → Bool
is_accepted o =
    ltb_ℤ o.nprgthreads o.nthreads && ltb_ℤ (pos 0) o.nthreads && leb_ℤ (pos 0) o.nprgthreads

-- The warning about more threads than processors, which compares a size_t.
unfoldable pub warns_of_threads : ℕ → Options → Bool
warns_of_threads nprocessors o = ltb nprocessors (to_size_t o.nthreads)

is_put : OpT → Bool
is_put put = true
is_put send = false
is_put recv = false
is_put put_signal = false

is_same : ℤ → ℤ → Bool
is_same a b = leb_ℤ a b && leb_ℤ b a

minus_ℤ : ℤ → ℤ → ℤ
minus_ℤ (pos a) (pos b) = difference a b
minus_ℤ (pos a) (negsuc b) = pos (a + b + 1)
minus_ℤ (negsuc a) (pos b) = negsuc (a + b)
minus_ℤ (negsuc a) (negsuc b) = difference b a

-- The warning about puts with windows, which asks for a device of its own for each worker.
unfoldable pub warns_of_windows : Options → Bool
unfolding is_put is_same minus_ℤ
warns_of_windows o =
    is_put o.op
    && not (is_same o.ndevices (minus_ℤ o.nthreads o.nprgthreads))
    && (ltb_ℤ (pos 1) o.send_window || ltb_ℤ (pos 1) o.recv_window)

-- The options as the division of labour reads them, for counts from 0 on.
abbrev pub to_ℕ : ℤ → ℕ
to_ℕ (pos n) = n
to_ℕ (negsuc n) = 0

abbrev pub config_of : Options → Config
config_of o = record {
  ndevices = to_ℕ o.ndevices;
  nthreads = to_ℕ o.nthreads;
  nprgthreads = to_ℕ o.nprgthreads;
}

positive : (a b : ℤ) → (ltb_ℤ b a && ltb_ℤ (pos 0) a && leb_ℤ (pos 0) b) ≡ true → to_ℕ b < to_ℕ a
positive (pos a) (pos b) h = ground arith
positive (pos a) (negsuc b) h = ground arith
positive (negsuc a) b h = ground arith

-- Where main accepts the options there is a worker.
pub is_accepted-nworkers : (o : Options) → is_accepted o ≡ true → 0 < nworkers (config_of o)
unfolding is_accepted nworkers
is_accepted-nworkers o h = omega (arith, positive o.nthreads o.nprgthreads h)
