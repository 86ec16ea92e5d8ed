-- ===== src/Checks/Pcounter.antt =====
-- Counters over a registry that numbers its handles in the order of registration.
use lcw.Base.{ℕ, ◌+◌, ◌==◌, ltb, if◌then◌else◌, ◌≡◌, refl, arith, [], ◌∷◌, List}
use lcw.Pcounter.{send_start, progress, send_timer}
use lcw.Pcounter.Registry.{LctApi, trend, initialize}
use lcw.Pcounter.Handles.{IsRegistry, reading, loaded}
use lcw.Pcounter.Reading.{Event, adds, starts, ends, acts, counts, zeros, reading-counts}

abbrev Toy : Type 0
Toy = ℕ × (ℕ → ℕ)

abbrev toy : LctApi Toy
toy = record {
  ctx_alloc = λ w. (7, w);
  ctx_free = λ c w. w;
  register = λ c n k w. (w.0, (w.0 + 1, λ h. if w.0 == h then 0 else w.1 h));
  add = λ c h v w. (w.0, λ g. if h == g then w.1 g + v else w.1 g);
  start = λ c h w. w;
  finish = λ c h w. w;
  now = λ w. (0, w);
}

abbrev toy_value : ℕ → ℕ → Toy → ℕ
toy_value c h w = w.1 h

toy-IsRegistry : IsRegistry toy toy_value (λ c h w. ltb h w.0)
toy-IsRegistry = record {
  is_new = λ c n w. ground arith;
  registers = λ c n w. (ground arith, ground arith);
  register_keeps = λ c n w h r. (ground arith, ground arith);
  adds = λ c h v w r. ground arith;
  add_others = λ c h v g w d. ground arith;
  add_keeps = λ c h v g w r. r;
  start_others = λ c h g w d. refl;
  start_keeps = λ c h g w r. r;
  finish_others = λ c h g w d. refl;
  finish_keeps = λ c h g w r. r;
}

abbrev events : List Event
events =
    adds send_start ∷ starts send_timer ∷ adds progress ∷ ends send_timer ∷ adds send_start ∷ []

reading-counts_example :
    reading toy toy_value
      (λ c h w. ltb h w.0)
      (trend send_start)
      (acts toy events (initialize toy (loaded (3, λ h. 5))))
    ≡ (counts events zeros).trend send_start
reading-counts_example =
    reading-counts toy toy_value (λ c h w. ltb h w.0) toy-IsRegistry events (3, λ h. 5) send_start
