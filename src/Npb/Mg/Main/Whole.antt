-- ===== src/Npb/Mg/Main/Whole.antt =====
-- The benchmark gives the iterates of the V-cycle from zero.
use hardposit_fpga.Base.{
  ℕ, zero, suc, ◌*◌, ◌%◌, ◌^◌, ◌≡◌, refl, ap, ◌∙◌, true, false, some, put_hit, times, ◌&&◌, arith,
}
use hardposit_fpga.Npb.Mg.{Grid, Arith, zero3, resid}
use hardposit_fpga.Npb.Mg.Cycle.{Levels, Setting, project, mg3_p}
use hardposit_fpga.Npb.Mg.Cycle.Same.{zero3-Same}
use hardposit_fpga.Npb.Mg.Cycle.Reference.{
  IsNested, SameAt, blank, vcycle, improved, project-Same, residual-Same, level-Same, vcycle-Same,
}
use hardposit_fpga.Npb.Mg.Cycle.Whole.{mg3_p_lem}
use hardposit_fpga.Npb.Mg.Charges.{Numbers}
use hardposit_fpga.Npb.Mg.Charges.Filling.{within, number_of}
use hardposit_fpga.Npb.Mg.Charges.Whole.{IsStrict, AreCharges, zran3_lem}
use hardposit_fpga.Npb.Mg.Main.{cleared, refreshed, iteration, benchmark}

module _ {A : Type 0} (o : Arith A) (g : Setting A) where
  -- The residual of an approximation at the finest level.
  abbrev pub residue : ℕ → Grid A → Grid A → Grid A
  residue lt v u = resid o g.junk u (some v) (g.m1 lt) (g.m2 lt) (g.m3 lt) g.a (blank o g)

  -- The approximations for a right-hand side, from zero.
  unfoldable pub iterate : ℕ → Grid A → ℕ → Grid A
  iterate n v zero = blank o g
  iterate n v (suc it) = let u = iterate n v it in improved o g n v u (residue (suc (suc n)) v u)

  module _ (nested : IsNested g) (n : ℕ) (v : Grid A) where
    abbrev finest : ℕ
    finest = suc (suc n)

    -- The finest level has an approximation and its residual.
    record IsAt (u : Grid A) (s : Levels A) : Type 0 where
      pub approximation : SameAt o g finest (s.u finest) u
      pub residual : SameAt o g finest (s.r finest) (residue finest v u)

    refreshed-IsAt :
        (u : Grid A) (s : Levels A)
        → SameAt o g finest (s.u finest) u
        → IsAt u (refreshed o g (g.m1 finest) (g.m2 finest) (g.m3 finest) finest v s)
    refreshed-IsAt u s same = record {
      approximation = same;
      residual = λ a b c la lb lc.
          ap (λ w. w a b c)
            (put_hit finest finest
              (resid o g.junk (s.u finest) (some v) (g.m1 finest) (g.m2 finest) (g.m3 finest) g.a
                (s.r finest))
              s.r (ground arith))
          ∙ residual-Same o g nested finest (omega arith) (s.u finest) u (s.r finest) (blank o g)
              (some v) (some v) same (λ a b c la lb lc. refl) a b c la lb lc;
    }

    improved-Same :
        (u t r s : Grid A)
        → SameAt o g finest u t
        → SameAt o g finest r s
        → SameAt o g finest (improved o g n v u r) (improved o g n v t s)
    improved-Same u t r s same same' =
        let j = suc n in
        let p = project o g j r (blank o g) in
        let q = project o g j s (blank o g) in
        level-Same o g nested j (omega arith) (vcycle o g n p) (vcycle o g n q) u t (blank o g)
          (blank o g) (some v) (some v)
          (vcycle-Same o g nested n p q
            (project-Same o g nested j (omega arith) r s (blank o g) (blank o g) same'))
          same (λ a b c la lb lc. refl)

    iteration-IsAt :
        (u : Grid A) (s : Levels A)
        → IsAt u s
        → IsAt
            (improved o g n v u (residue finest v u))
            (iteration o g (g.m1 finest) (g.m2 finest) (g.m3 finest) finest v s)
    iteration-IsAt u s h =
        refreshed-IsAt (improved o g n v u (residue finest v u))
          (mg3_p o g finest (g.m1 finest) (g.m2 finest) (g.m3 finest) v s)
          (λ a b c la lb lc.
            mg3_p_lem o g nested n v s a b c la lb lc
            ∙ improved-Same (s.u finest) u (s.r finest) (residue finest v u) h.approximation
                h.residual a b c la lb lc)

    cleared-IsAt :
        (s : Levels A)
        → IsAt (blank o g) (
            refreshed o g
              (g.m1 finest)
              (g.m2 finest)
              (g.m3 finest)
              finest
              v
              (cleared o g (g.m1 finest) (g.m2 finest) (g.m3 finest) finest s))
    cleared-IsAt s =
        refreshed-IsAt (blank o g) (cleared o g (g.m1 finest) (g.m2 finest) (g.m3 finest) finest s)
          (λ a b c la lb lc.
            ap (λ w. w a b c)
              (put_hit finest finest
                (zero3 g.null (g.m1 finest) (g.m2 finest) (g.m3 finest) (s.u finest)) s.u
                (ground arith))
            ∙ zero3-Same g.null (g.m1 finest) (g.m2 finest) (g.m3 finest) (s.u finest) a b c la lb
                lc)

    iterations-IsAt :
        (s : Levels A) (it : ℕ)
        → IsAt (iterate n v it) (
            times
              (λ i. iteration o g (g.m1 finest) (g.m2 finest) (g.m3 finest) finest v)
              it
              (refreshed o g
                (g.m1 finest)
                (g.m2 finest)
                (g.m3 finest)
                finest
                v
                (cleared o g (g.m1 finest) (g.m2 finest) (g.m3 finest) finest s)))
    unfolding times iterate
    iterations-IsAt s zero = cleared-IsAt s
    iterations-IsAt s (suc it) =
        iteration-IsAt (iterate n v it)
          (times (λ i. iteration o g (g.m1 finest) (g.m2 finest) (g.m3 finest) finest v) it
            (refreshed o g (g.m1 finest) (g.m2 finest) (g.m3 finest) finest v
              (cleared o g (g.m1 finest) (g.m2 finest) (g.m3 finest) finest s)))
          (iterations-IsAt s it)

-- The same at the sizes of the finest level.
at_finest :
    (o : Arith ℕ) (g : Setting ℕ) (k : Numbers)
    → IsNested g
    → (up : IsStrict k true) (low : IsStrict k false) (n ten nx ny nz x nit : ℕ) (v : Grid ℕ)
      (s : Levels ℕ)
    → (w : Grid ℕ) × (b : Grid ℕ) × (out : Levels ℕ) × (benchmark o g k
          (g.m1 (suc (suc n)))
          (g.m2 (suc (suc n)))
          (g.m3 (suc (suc n)))
          ten
          nx
          ny
          nz
          x
          (suc (suc n))
          nit
          v
          s
        ≡ some out)
      × ((i3 i2 i1 : ℕ)
          → (within nz i3 && (within ny i2 && within nx i1)) ≡ true
          → w i3 i2 i1 ≡ k.bits (k.a ^ number_of nx ny i3 i2 i1 * x % 2 ^ 46))
      × AreCharges k up low ten (g.m1 (suc (suc n))) (g.m2 (suc (suc n))) (g.m3 (suc (suc n))) w b
      × SameAt o g (suc (suc n)) (out.u (suc (suc n))) (iterate o g n b nit)
      × SameAt o g
          (suc (suc n))
          (out.r (suc (suc n)))
          (residue o g (suc (suc n)) b (iterate o g n b nit))
unfolding benchmark
at_finest o g k nested up low n ten nx ny nz x nit v s =
    let lt = suc (suc n) in
    let s1 = nested.size1 lt (omega arith) in
    let s2 = nested.size2 lt (omega arith) in
    let s3 = nested.size3 lt (omega arith) in
    let f = zran3_lem k up low ten (g.m1 lt) (g.m2 lt) (g.m3 lt) nx ny nz x v s1 s2 s3 in
    let h = zran3_lem k up low ten (g.m1 lt) (g.m2 lt) (g.m3 lt) nx ny nz x f.1 s1 s2 s3 in
    let t = iteration o g (g.m1 lt) (g.m2 lt) (g.m3 lt) lt f.1 (
      refreshed o g (g.m1 lt) (g.m2 lt) (g.m3 lt) lt f.1
        (cleared o g (g.m1 lt) (g.m2 lt) (g.m3 lt) lt s)) in
    let e = f.2 in
    let e' = h.2 in
    let at = iterations-IsAt o g nested n h.1 t nit in
    (
      h.0,
      h.1,
      times (λ it. iteration o g (g.m1 lt) (g.m2 lt) (g.m3 lt) lt h.1) nit
          (refreshed o g (g.m1 lt) (g.m2 lt) (g.m3 lt) lt h.1
            (cleared o g (g.m1 lt) (g.m2 lt) (g.m3 lt) lt t)),
      rw (benchmark, e, e') refl,
      λ a b c inside. h.3 a b c ∙ rw inside refl,
      h.4,
      at.approximation,
      at.residual,
    )

-- If the grids have at least three points on each side, each level has twice the points of the
-- next coarser one between the borders, the three sizes passed on are those of the finest level,
-- and the tests `>` and `<` are asymmetric with transitive negations, then the calls of main, for
-- any number of levels from two on, of cycles and of charges, give a result, whatever numbers the
-- grids held before: at the finest level the approximation is what that number of steps of the
-- recursive V-cycle makes from zero for a right-hand side b, and the residual is that of this
-- approximation; b is the grid of charges for the random numbers, in their order. The cycle made
-- before the time is taken leaves no trace.
pub benchmark_lem :
    (o : Arith ℕ) (g : Setting ℕ) (k : Numbers)
    → IsNested g
    → (up : IsStrict k true) (low : IsStrict k false) (n n1 n2 n3 ten nx ny nz x nit : ℕ)
    → n1 ≡ g.m1 (suc (suc n))
    → n2 ≡ g.m2 (suc (suc n))
    → n3 ≡ g.m3 (suc (suc n))
    → (v : Grid ℕ) (s : Levels ℕ)
    → (w : Grid ℕ) × (b : Grid ℕ) × (out : Levels ℕ) × (benchmark o g k n1 n2 n3 ten nx ny nz x
          (suc (suc n))
          nit
          v
          s
        ≡ some out)
      × ((i3 i2 i1 : ℕ)
          → (within nz i3 && (within ny i2 && within nx i1)) ≡ true
          → w i3 i2 i1 ≡ k.bits (k.a ^ number_of nx ny i3 i2 i1 * x % 2 ^ 46))
      × AreCharges k up low ten n1 n2 n3 w b
      × SameAt o g (suc (suc n)) (out.u (suc (suc n))) (iterate o g n b nit)
      × SameAt o g
          (suc (suc n))
          (out.r (suc (suc n)))
          (residue o g (suc (suc n)) b (iterate o g n b nit))
benchmark_lem o g k nested up low n n1 n2 n3 ten nx ny nz x nit e1 e2 e3 v s =
    rw (e1, e2, e3) (at_finest o g k nested up low n ten nx ny nz x nit v s)
