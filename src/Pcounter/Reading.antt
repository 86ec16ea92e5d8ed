-- ===== src/Pcounter/Reading.antt =====
-- What LCT reports of a counter of src/util/pcounter.cpp is what the program has added under its name.
use lcw.Base.{
  ℕ, ◌+◌, ◌==◌, ◌<◌, ◌≡◌, ◌≢◌, ap, ◌∙◌, Bool, true, false, List, [], ◌∷◌, arith, ==_iff,
  if◌then◌else◌, inl, inr, Bool-cases,
}
use lcw.Pcounter.{Counters, Trend, Timer, trend_id, timer_id}
use lcw.Pcounter
use lcw.Pcounter.Registry.{
  LctApi, State, Name, trend, timer, name_id, register, register_all, initialize,
}
use lcw.Pcounter.Registry
use lcw.Pcounter.Handles.{IsRegistry, Registered, Zero, reading, loaded, initialize-Ready}

pub data Event : Type 0 where
  adds : Trend → Event
  starts ends : Timer → Event

ne_of : (a b : ℕ) → (a == b) ≡ false → a ≢ b
ne_of a b h q = ground arith

-- The program's calls, over the counters of the model.
unfoldable pub counted : Event → Counters → Counters
counted (adds t) c = Pcounter.add t c
counted (starts t) c = Pcounter.start t c
counted (ends t) c = Pcounter.finish t c

unfoldable pub counts : List Event → Counters → Counters
unfolding counted
counts [] c = c
counts (e ∷ es) c = counts es (counted e c)

abbrev pub zeros : Counters
zeros = record { enabled = true; trend = λ _. 0; started = λ _. 0; ended = λ _. 0 }

ids_ne : (t : Timer) (u : Trend) → name_id (timer t) ≢ name_id (trend u)
ids_ne t u e = ground arith

module _ {W : Type 0} (lct : LctApi W) where
  -- The program's calls, through the handles.
  unfoldable pub act : Event → State W → State W
  act (adds t) s = Registry.add lct (trend t) 1 s
  act (starts t) s = Registry.start lct (timer t) s
  act (ends t) s = Registry.finish lct (timer t) s

  unfoldable pub acts : List Event → State W → State W
  unfolding act
  acts [] s = s
  acts (e ∷ es) s = acts es (act e s)

module _ {W : Type 0} (lct : LctApi W) (value : ℕ → ℕ → W → ℕ) (registered : ℕ → ℕ → W → Bool)
    (law : IsRegistry lct value registered) where
  id_lt : (n : Name) → name_id n < 17
  id_lt (trend t) = ground arith
  id_lt (timer t) = ground arith

  abbrev at : ℕ → (Name → ℕ) → W → State W
  at ctx handle w = record { enabled = true; pcounter_ctx = ctx; handle = handle; world = w }

  abbrev tally : (Trend → ℕ) → (Timer → ℕ) → (Timer → ℕ) → Counters
  tally f g h = record { enabled = true; trend = f; started = g; ended = h }

  module _ (ctx : ℕ) (handle : Name → ℕ) where
    abbrev IsReady : W → Type 0
    IsReady w = Registered lct value registered 17 (at ctx handle w)

    timer_ne : (t : Timer) (u : Trend) (w : W) → IsReady w → handle (timer t) ≢ handle (trend u)
    timer_ne t u w r = r.differ (timer t) (trend u) (id_lt (timer t)) (id_lt (trend u)) (ids_ne t u)

    added :
        (t u : Trend) (w : W) (f : Trend → ℕ)
        → IsReady w
        → value ctx (handle (trend u)) w ≡ f u
        → value ctx (handle (trend u)) (lct.add ctx (handle (trend t)) 1 w)
          ≡ (if trend_id t == trend_id u then f u + 1 else f u)
    added t u w f r e = elim (Bool-cases (trend_id t == trend_id u)) [
      | inl q ↦
          rw
            (
              q,
              r.same (trend t) (trend u) (id_lt (trend t)) (id_lt (trend u))
                  ((==_iff (trend_id t) (trend_id u)).0 q),
            )
            (law.adds ctx (handle (trend u)) 1 w (r.is_registered (trend u) (id_lt (trend u)))
              ∙ ap (λ n. n + 1) e)
      | inr q ↦ rw q (
          law.add_others ctx (handle (trend t)) 1 (handle (trend u)) w (
            r.differ (trend t) (trend u) (id_lt (trend t)) (id_lt (trend u))
              (ne_of (trend_id t) (trend_id u) q))
          ∙ e)
    ]

    kept :
        {w w' : W}
        → IsReady w
        → ((n : ℕ) → registered ctx n w ≡ true → registered ctx n w' ≡ true)
        → IsReady w'
    kept r k = record {
      is_registered = λ n l. k (handle n) (r.is_registered n l);
      same = r.same;
      differ = r.differ;
    }

    acts-reading :
        (es : List Event) (w : W) (f : Trend → ℕ) (g h : Timer → ℕ)
        → IsReady w
        → ((t : Trend) → value ctx (handle (trend t)) w ≡ f t)
        → (t : Trend)
        → reading lct value registered (trend t) (acts lct es (at ctx handle w))
          ≡ (counts es (tally f g h)).trend t
    unfolding acts counts Registry.add Registry.start Registry.finish Pcounter.add Pcounter.start
        Pcounter.finish
    acts-reading [] w f g h r e t = e t
    acts-reading (adds u ∷ es) w f g h r e t =
        acts-reading es (lct.add ctx (handle (trend u)) 1 w) _ g h
          (kept r (λ n. law.add_keeps ctx (handle (trend u)) 1 n w)) (λ v. added u v w f r (e v)) t
    acts-reading (starts u ∷ es) w f g h r e t =
        acts-reading es (lct.start ctx (handle (timer u)) w) f _ h
          (kept r (λ n. law.start_keeps ctx (handle (timer u)) n w))
          (λ v.
            law.start_others ctx (handle (timer u)) (handle (trend v)) w (timer_ne u v w r) ∙ e v)
          t
    acts-reading (ends u ∷ es) w f g h r e t =
        acts-reading es (lct.finish ctx (handle (timer u)) w) f g _
          (kept r (λ n. law.finish_keeps ctx (handle (timer u)) n w))
          (λ v.
            law.finish_others ctx (handle (timer u)) (handle (trend v)) w (timer_ne u v w r) ∙ e v)
          t

  -- In a build with LCW_ENABLE_PCOUNTER, where LCT behaves as documented: after initialize and any
  -- sequence of add, start and end, LCT reports of every trend counter the number of times that the
  -- program has added to it by that name, whatever handles LCT has given out.
  pub reading-counts :
      (es : List Event) (w : W) (t : Trend)
      → reading lct value registered (trend t) (acts lct es (initialize lct (loaded w)))
        ≡ (counts es zeros).trend t
  unfolding initialize register_all register Zero
  reading-counts es w t =
      let s = initialize lct (loaded w) in
      let r = initialize-Ready lct value registered law w in
      acts-reading s.pcounter_ctx s.handle es s.world (λ _. 0) (λ _. 0) (λ _. 0) r.0
        (λ u. r.1 (trend u) (id_lt (trend u))) t
