-- ===== src/Pcounter/Handles.antt =====
-- The handles that src/util/pcounter.cpp gets from LCT: after initialize the counters have registered
-- handles, one each, which read as zero.
use lcw.Base.{
  ℕ, ◌+◌, ◌<◌, ◌==◌, ◌≡◌, ◌≢◌, refl, sym, ap, ◌∙◌, subst, Bool, true, false, List, [], ◌∷◌, map,
  length, arith, ◌⊎◌, inl, inr, Bool-cases,
}
use lcw.Pcounter.Registry.{
  LctApi, State, Name, trend, timer, name_id, kind_of, trends, timers, register, register_all,
  initialize,
}

-- Documented behaviour of LCT: `value` is what it reports of a handle of a context, and `registered`
-- tells which handles it has given out.
pub record IsRegistry {W : Type 0} (lct : LctApi W) (value : ℕ → ℕ → W → ℕ)
    (registered : ℕ → ℕ → W → Bool) : Type 0 where
  pub is_new :
      (c : ℕ) (n : Name) (w : W) → registered c (lct.register c n (kind_of n) w).0 w ≡ false
  pub registers :
      (c : ℕ) (n : Name) (w : W)
      → let r = lct.register c n (kind_of n) w in
        (registered c r.0 r.1 ≡ true) × (value c r.0 r.1 ≡ 0)
  pub register_keeps :
      (c : ℕ) (n : Name) (w : W) (h : ℕ)
      → registered c h w ≡ true
      → let r = lct.register c n (kind_of n) w in
        (registered c h r.1 ≡ true) × (value c h r.1 ≡ value c h w)
  pub adds :
      (c h v : ℕ) (w : W) → registered c h w ≡ true → value c h (lct.add c h v w) ≡ value c h w + v
  pub add_others : (c h v g : ℕ) (w : W) → h ≢ g → value c g (lct.add c h v w) ≡ value c g w
  pub add_keeps :
      (c h v g : ℕ) (w : W) → registered c g w ≡ true → registered c g (lct.add c h v w) ≡ true
  pub start_others : (c h g : ℕ) (w : W) → h ≢ g → value c g (lct.start c h w) ≡ value c g w
  pub start_keeps :
      (c h g : ℕ) (w : W) → registered c g w ≡ true → registered c g (lct.start c h w) ≡ true
  pub finish_others : (c h g : ℕ) (w : W) → h ≢ g → value c g (lct.finish c h w) ≡ value c g w
  pub finish_keeps :
      (c h g : ℕ) (w : W) → registered c g w ≡ true → registered c g (lct.finish c h w) ≡ true

-- The names of the list are the next ones from `k` on.
Follow : ℕ → List Name → Type 0
Follow k [] = Unit
Follow k (n ∷ ns) = (name_id n ≡ k) × Follow (k + 1) ns

last_or_below : (a b : ℕ) → a < b + 1 → (b ≡ a) ⊎ ((b ≢ a) × (a < b))
last_or_below a b l = elim (Bool-cases (b == a)) [
  | inl e ↦ inl (ground arith)
  | inr e ↦ inr ((λ q. ground arith), ground arith)
]

trends-Follow : Follow 0 (map trend trends)
unfolding Follow
trends-Follow = (
  refl,
  (
    refl,
    (
      refl,
      (refl, (refl, (refl, (refl, (refl, (refl, (refl, (refl, (refl, (refl, (refl, tt))))))))))),
    ),
  ),
)

timers-Follow : Follow 14 (map timer timers)
unfolding Follow
timers-Follow = (refl, (refl, (refl, tt)))

-- The globals when the program is loaded, with LCW_ENABLE_PCOUNTER.
abbrev pub loaded : {W : Type 0} → W → State W
loaded w = record { enabled = true; pcounter_ctx = 0; handle = λ _. 0; world = w }

module _ {W : Type 0} (lct : LctApi W) (value : ℕ → ℕ → W → ℕ) (registered : ℕ → ℕ → W → Bool) where
  -- LCT's report of a counter.
  abbrev pub reading : Name → State W → ℕ
  reading n s = value s.pcounter_ctx (s.handle n) s.world

  -- The names below `k` have registered handles, all different.
  pub record Registered (k : ℕ) (s : State W) : Type 0 where
    pub is_registered :
        (n : Name) → name_id n < k → registered s.pcounter_ctx (s.handle n) s.world ≡ true
    pub same :
        (n m : Name)
        → name_id n < k
        → name_id m < k
        → name_id n ≡ name_id m
        → s.handle n ≡ s.handle m
    pub differ :
        (n m : Name)
        → name_id n < k
        → name_id m < k
        → name_id n ≢ name_id m
        → s.handle n ≢ s.handle m

  -- They read as zero, before anything is added.
  unfoldable pub Zero : ℕ → State W → Type 0
  Zero k s = (n : Name) → name_id n < k → reading n s ≡ 0

  abbrev pub Ready : ℕ → State W → Type 0
  Ready k s = Registered k s × Zero k s

  module _ (law : IsRegistry lct value registered) where
    module _ (n : Name) (s : State W) where
      given : ℕ × W
      given = lct.register s.pcounter_ctx n (kind_of n) s.world

      handle-new : (m : Name) → name_id n ≡ name_id m → (register lct n s).handle m ≡ given.0
      unfolding register given
      handle-new m e = ground arith

      handle-old : (m : Name) → name_id n ≢ name_id m → (register lct n s).handle m ≡ s.handle m
      unfolding register
      handle-old m e = ground arith

      module _ (r : Registered (name_id n) s) where
        -- A handle that LCT gives out is none of those it has given out before.
        old_ne : (m : Name) → name_id m < name_id n → s.handle m ≢ given.0
        unfolding given
        old_ne m l e =
            let a = r.is_registered m l in
            let b = law.is_new s.pcounter_ctx n s.world in
            let c = ap (λ g. registered s.pcounter_ctx g s.world) e in absurd (cc)

        register-is_registered :
            (m : Name)
            → name_id m < name_id n + 1
            → registered s.pcounter_ctx ((register lct n s).handle m) given.1 ≡ true
        unfolding given
        register-is_registered m l = elim (last_or_below (name_id m) (name_id n) l) [
          | inl e ↦ rw (handle-new m e) (law.registers s.pcounter_ctx n s.world).0
          | inr k ↦
              rw (handle-old m k.0)
                (law.register_keeps s.pcounter_ctx n s.world (s.handle m) (r.is_registered m k.1)).0
        ]

        register-same :
            (m k : Name)
            → name_id m < name_id n + 1
            → name_id k < name_id n + 1
            → name_id m ≡ name_id k
            → (register lct n s).handle m ≡ (register lct n s).handle k
        register-same m k l j d = elim (last_or_below (name_id m) (name_id n) l) [
          | inl e ↦ handle-new m e ∙ sym (handle-new k (e ∙ d))
          | inr g ↦
              rw (handle-old m g.0, handle-old k (λ q. g.0 (q ∙ sym d)))
                (r.same m k g.1 (omega (arith, g.1)) d)
        ]

        register-differ :
            (m k : Name)
            → name_id m < name_id n + 1
            → name_id k < name_id n + 1
            → name_id m ≢ name_id k
            → (register lct n s).handle m ≢ (register lct n s).handle k
        register-differ m k l j d = elim (last_or_below (name_id m) (name_id n) l) [
          | inl e ↦ elim (last_or_below (name_id k) (name_id n) j) [
            | inl f ↦ absurd (d (omega arith))
            | inr g ↦ rw (handle-new m e, handle-old k g.0) (λ q. old_ne k g.1 (sym q))
          ]
          | inr g ↦ elim (last_or_below (name_id k) (name_id n) j) [
            | inl f ↦ rw (handle-old m g.0, handle-new k f) (old_ne m g.1)
            | inr i ↦ rw (handle-old m g.0, handle-old k i.0) (r.differ m k g.1 i.1 d)
          ]
        ]

        register-Registered : Registered (name_id n + 1) (register lct n s)
        unfolding register given
        register-Registered = record {
          is_registered = register-is_registered;
          same = register-same;
          differ = register-differ;
        }

        register-Zero : Zero (name_id n) s → Zero (name_id n + 1) (register lct n s)
        unfolding register given Zero
        register-Zero z m l = elim (last_or_below (name_id m) (name_id n) l) [
          | inl e ↦ rw (handle-new m e) (law.registers s.pcounter_ctx n s.world).1
          | inr k ↦ rw (handle-old m k.0) (
              (law.register_keeps s.pcounter_ctx n s.world (s.handle m) (r.is_registered m k.1)).1
              ∙ z m k.1)
        ]

    register_all-Registered :
        (ns : List Name) (k : ℕ) (s : State W)
        → Follow k ns
        → Ready k s
        → Ready (k + length ns) (register_all lct ns s)
    unfolding register_all Follow
    register_all-Registered [] k s f r = subst (λ j. Ready j s) (omega arith) r
    register_all-Registered (n ∷ ns) k s f r =
        subst (λ j. Ready j (register_all lct ns (register lct n s))) (omega arith)
          (register_all-Registered ns (k + 1) (register lct n s) f.1 (
            subst (λ j. Ready (j + 1) (register lct n s)) f.0
              (let q = subst (λ j. Ready j s) (sym f.0) r in
                (register-Registered n s q.0, register-Zero n s q.0 q.1))))

    none-Ready : (s : State W) → Ready 0 s
    unfolding Zero
    none-Ready s = (
      record {
        is_registered = λ n l. absurd (omega (arith, l));
        same = λ n m l _ _. absurd (omega (arith, l));
        differ = λ n m l _ _. absurd (omega (arith, l));
      },
      λ n l. absurd (omega (arith, l)),
    )

    pub initialize-Ready : (w : W) → Ready 17 (initialize lct (loaded w))
    unfolding initialize
    initialize-Ready w =
        register_all-Registered (map timer timers) 14 _ timers-Follow
          (register_all-Registered (map trend trends) 0 _ trends-Follow (none-Ready _))
