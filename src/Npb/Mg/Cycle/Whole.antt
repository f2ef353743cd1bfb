-- ===== src/Npb/Mg/Cycle/Whole.antt =====
-- `mg3P` gives what the recursive V-cycle gives.
use hardposit_fpga.Base.{
  ℕ, zero, suc, ◌-◌, ◌<◌, ◌≡◌, refl, ap, ◌∙◌, none, some, put, put_hit, put_miss, times, arith,
}
use hardposit_fpga.Npb.Mg.{Grid, Arith, resid}
use hardposit_fpga.Npb.Mg.Cycle.{
  Levels, Setting, clear, smooth, project, prolongate, down, climb, mg3_p,
}
use hardposit_fpga.Npb.Mg.Cycle.Same.{zero3-Same}
use hardposit_fpga.Npb.Mg.Cycle.Reference.{
  IsNested, blank, SameAt, vcycle, improved, smooth-Same, level-Same, vcycle-Same, down-above,
  down-next,
}

module _ {A : Type 0} (o : Arith A) (g : Setting A) where
  module _ (nested : IsNested g) where
    -- After i rounds of the up cycle: the level reached has the V-cycle of its residual, and the
    -- finer levels are as they were.
    record IsClimbed (i : ℕ) (s t : Levels A) : Type 0 where
      reached : SameAt o g (suc i) (t.u (suc i)) (vcycle o g i (s.r (suc i)))
      ahead_u : (k : ℕ) → suc i < k → t.u k ≡ s.u k
      ahead_r : (k : ℕ) → suc i < k → t.r k ≡ s.r k

    climbs-IsClimbed :
        (s : Levels A) (n : ℕ)
        → ((i : ℕ)
            → i < n
            → SameAt o g
                (suc i)
                (s.r (suc i))
                (project o g (suc i) (s.r (suc (suc i))) (blank o g)))
        → IsClimbed 0 s s
        → IsClimbed n s (times (λ i. climb o g (suc i)) n s)
    unfolding times climb vcycle
    climbs-IsClimbed s zero below start = start
    climbs-IsClimbed s (suc n) below start =
        let t = times (λ i. climb o g (suc i)) n s in
        let ih = climbs-IsClimbed s n (λ i lt. below i (omega (arith, lt))) start in
        let j = suc n in
        let k = suc j in
        let ru : t.u k ≡ s.u k = ih.ahead_u k (omega arith) in
        let rr : t.r k ≡ s.r k = ih.ahead_r k (omega arith) in
        let coarse = project o g j (s.r k) (blank o g) in
        let below_same : SameAt o g j (t.u j) (vcycle o g n coarse) = λ a b c la lb lc.
          ih.reached a b c la lb lc
          ∙ vcycle-Same o g nested n (s.r j) coarse (below n (omega arith)) a b c la lb lc in
        let level =
          level-Same o g nested j (omega arith) (t.u j) (vcycle o g n coarse) (clear o g k (t.u k))
            (blank o g) (t.r k) (blank o g) none (some (s.r k)) below_same
            (zero3-Same g.null (g.m1 k) (g.m2 k) (g.m3 k) (t.u k))
            (λ a b c la lb lc. ap (λ w. w a b c) rr) in
        let x = prolongate o g j (t.u j) (clear o g k (t.u k)) in
        let y = resid o g.junk x none (g.m1 k) (g.m2 k) (g.m3 k) g.a (t.r k) in
        let z = smooth o g k y x in
        record {
          reached = λ a b c la lb lc.
              ap (λ w. w a b c) (put_hit k k z t.u (ground arith)) ∙ level a b c la lb lc;
          ahead_u =
              λ l lt. put_miss k l z t.u (ground (arith, lt)) ∙ ih.ahead_u l (omega (arith, lt));
          ahead_r =
              λ l lt. put_miss k l y t.r (ground (arith, lt)) ∙ ih.ahead_r l (omega (arith, lt));
        }

    -- The levels before the up cycle.
    abbrev first_levels : (ℕ → Grid A) → (ℕ → Grid A) → Levels A
    first_levels u r = record { u = put 1 (smooth o g 1 (r 1) (clear o g 1 (u 1))) u; r = r }

    first_levels-IsClimbed : (u r : ℕ → Grid A) → IsClimbed 0 (first_levels u r) (first_levels u r)
    unfolding vcycle
    first_levels-IsClimbed u r = record {
      reached = λ a b c la lb lc.
          ap (λ w. w a b c) (put_hit 1 1 (smooth o g 1 (r 1) (clear o g 1 (u 1))) u refl)
          ∙ smooth-Same o g nested 1 (omega arith) (r 1) (r 1) (clear o g 1 (u 1)) (blank o g)
              (λ a b c la lb lc. refl) (zero3-Same g.null (g.m1 1) (g.m2 1) (g.m3 1) (u 1)) a b c la
              lb lc;
      ahead_u = λ l lt. refl;
      ahead_r = λ l lt. refl;
    }

    -- If the grids have at least three points on each side and each level has twice the points of
    -- the next coarser one between the borders, then `mg3P`, with its loops down and up over any
    -- number of levels from two on, leaves at the finest level the approximation that one step of
    -- the V-cycle written as a recursion over the levels gives from the approximation, the
    -- right-hand side and the residual at the finest level before the call; what the coarser
    -- levels and the work rows held does not matter.
    pub mg3_p_lem :
        (n : ℕ) (v : Grid A) (s : Levels A)
        → SameAt o g
            (suc (suc n))
            ((mg3_p o g
                (suc (suc n))
                (g.m1 (suc (suc n)))
                (g.m2 (suc (suc n)))
                (g.m3 (suc (suc n)))
                v
                s).u
              (suc (suc n)))
            (improved o g n v (s.u (suc (suc n))) (s.r (suc (suc n))))
    unfolding mg3_p
    mg3_p_lem n v s =
        let j = suc n in
        let k = suc j in
        let minus1 : suc (suc n) - 1 ≡ suc n = omega arith in
        let minus2 : suc (suc n) - 2 ≡ n = omega arith in
        let r = down o g (suc n) s.r in
        let start = first_levels s.u r in
        let climbed =
          climbs-IsClimbed start n (λ i lt. down-next o g nested (suc n) i s.r (omega (arith, lt)))
            (first_levels-IsClimbed s.u r) in
        let t = times (λ i. climb o g (suc i)) n start in
        let coarse = project o g j (s.r k) (blank o g) in
        let top_r : r k ≡ s.r k = down-above o g nested (suc n) k s.r (omega arith) in
        let below : SameAt o g j (r j) coarse =
          rw top_r at (down-next o g nested (suc n) n s.r (omega arith)) in
        let u_same : t.u k ≡ s.u k =
          climbed.ahead_u k (omega arith)
          ∙ put_miss 1 k (smooth o g 1 (r 1) (clear o g 1 (s.u 1))) s.u (ground arith) in
        let level =
          level-Same o g nested j (omega arith) (t.u j) (vcycle o g n coarse) (t.u k) (s.u k)
            (t.r k) (blank o g) (some v) (some v)
            (λ a b c la lb lc.
              climbed.reached a b c la lb lc
              ∙ vcycle-Same o g nested n (r j) coarse below a b c la lb lc)
            (λ a b c la lb lc. ap (λ w. w a b c) u_same) (λ a b c la lb lc. refl) in
        let x = prolongate o g j (t.u j) (t.u k) in
        let y = resid o g.junk x (some v) (g.m1 k) (g.m2 k) (g.m3 k) g.a (t.r k) in
        let z = smooth o g k y x in
        rw (minus1, minus2)
          (λ a b c la lb lc.
            ap (λ w. w a b c) (put_hit k k z t.u (ground arith)) ∙ level a b c la lb lc)
