-- ===== src/Npb/Mg/Cycle/Reference.antt =====
-- `mg3P` against the V-cycle written as a recursion over the levels.
use hardposit_fpga.Base.{
  ℕ, zero, suc, ◌-◌, ◌*◌, ◌≤◌, ◌<◌, ◌≡◌, refl, ◌∙◌, inl, inr, Bool-cases, Option, some, ◌==◌, put,
  put_hit, put_miss, arith,
}
use hardposit_fpga.Npb.Mg.{Grid, Arith, source_of, resid}
use hardposit_fpga.Npb.Mg.Cycle.{Setting, smooth, project, prolongate, down}
use hardposit_fpga.Npb.Mg.Cycle.Same.{Same, psinv-Same, resid-Same, rprj3-Same, interp-Same}

-- Every level has twice the points of the next coarser one between the borders.
pub record IsNested {A : Type 0} (g : Setting A) : Type 0 where
  pub size1 : (k : ℕ) → 1 ≤ k → 3 ≤ g.m1 k
  pub size2 : (k : ℕ) → 1 ≤ k → 3 ≤ g.m2 k
  pub size3 : (k : ℕ) → 1 ≤ k → 3 ≤ g.m3 k
  pub double1 : (k : ℕ) → 1 ≤ k → g.m1 (suc k) ≡ 2 * (g.m1 k - 1)
  pub double2 : (k : ℕ) → 1 ≤ k → g.m2 (suc k) ≡ 2 * (g.m2 k - 1)
  pub double3 : (k : ℕ) → 1 ≤ k → g.m3 (suc k) ≡ 2 * (g.m3 k - 1)

module _ {A : Type 0} (o : Arith A) (g : Setting A) where
  abbrev pub blank : Grid A
  blank a b c = g.null

  -- The same points at a level.
  abbrev pub SameAt : ℕ → Grid A → Grid A → Type 0
  SameAt k u v = Same (g.m1 k) (g.m2 k) (g.m3 k) u v

  -- The correction at level n + 1 for a residual: from the next coarser level, by recursion, and
  -- smoothed; the coarsest level is only smoothed.
  unfoldable pub vcycle : ℕ → Grid A → Grid A
  vcycle zero r = smooth o g 1 r blank
  vcycle (suc n) r =
      let j = suc n in
      let k = suc j in
      let x = prolongate o g j (vcycle n (project o g j r blank)) blank in
      smooth o g k (resid o g.junk x (some r) (g.m1 k) (g.m2 k) (g.m3 k) g.a blank) x

  -- The new approximation at the finest level n + 2.
  abbrev pub improved : ℕ → Grid A → Grid A → Grid A → Grid A
  improved n v u r =
      let j = suc n in
      let k = suc j in
      let x = prolongate o g j (vcycle n (project o g j r blank)) u in
      smooth o g k (resid o g.junk x (some v) (g.m1 k) (g.m2 k) (g.m3 k) g.a blank) x

  module _ (nested : IsNested g) where
    pub smooth-Same :
        (k : ℕ)
        → 1 ≤ k
        → (r s u v : Grid A) → SameAt k r s
        → SameAt k u v
        → SameAt k (smooth o g k r u) (smooth o g k s v)
    smooth-Same k lo r s u v =
        psinv-Same o (g.m1 k) (g.m2 k) (g.m3 k) (nested.size1 k lo) (nested.size2 k lo)
          (nested.size3 k lo) g.junk g.c r s u v

    pub project-Same :
        (j : ℕ)
        → 1 ≤ j
        → (r s p q : Grid A) → SameAt (suc j) r s
        → SameAt j (project o g j r p) (project o g j s q)
    project-Same j lo r s p q same =
        let e1 = nested.double1 j lo in
        let e2 = nested.double2 j lo in
        let e3 = nested.double3 j lo in
        rw (e1, e2, e3)
          (rprj3-Same o (g.m1 j) (g.m2 j) (g.m3 j) (nested.size1 j lo) (nested.size2 j lo)
            (nested.size3 j lo) r s (rw (e1, e2, e3) at same) g.junk g.w p q)

    prolongate-Same :
        (j : ℕ)
        → 1 ≤ j
        → (z t u v : Grid A) → SameAt j z t
        → SameAt (suc j) u v
        → SameAt (suc j) (prolongate o g j z u) (prolongate o g j t v)
    prolongate-Same j lo z t u v same same' =
        let e1 = nested.double1 j lo in
        let e2 = nested.double2 j lo in
        let e3 = nested.double3 j lo in
        rw (e1, e2, e3)
          (interp-Same o (g.m1 j) (g.m2 j) (g.m3 j) g.w z t same g.junk u v
            (rw (e1, e2, e3) at same'))

    pub residual-Same :
        (k : ℕ)
        → 1 ≤ k
        → (u t r s : Grid A) (v w : Option (Grid A)) → SameAt k u t
        → SameAt k (source_of v r) (source_of w s)
        → SameAt k
            (resid o g.junk u v (g.m1 k) (g.m2 k) (g.m3 k) g.a r)
            (resid o g.junk t w (g.m1 k) (g.m2 k) (g.m3 k) g.a s)
    residual-Same k lo =
        resid-Same o (g.m1 k) (g.m2 k) (g.m3 k) (nested.size1 k lo) (nested.size2 k lo)
          (nested.size3 k lo) g.junk g.a

    -- One level: interpolation, residual and smoothing.
    pub level-Same :
        (j : ℕ)
        → 1 ≤ j
        → (z t u v r s : Grid A) (p q : Option (Grid A)) → SameAt j z t
        → SameAt (suc j) u v
        → SameAt (suc j) (source_of p r) (source_of q s)
        → SameAt
            (suc j)
            (smooth o g
              (suc j)
              (resid o g.junk
                (prolongate o g j z u)
                p
                (g.m1 (suc j))
                (g.m2 (suc j))
                (g.m3 (suc j))
                g.a
                r)
              (prolongate o g j z u))
            (smooth o g
              (suc j)
              (resid o g.junk
                (prolongate o g j t v)
                q
                (g.m1 (suc j))
                (g.m2 (suc j))
                (g.m3 (suc j))
                g.a
                s)
              (prolongate o g j t v))
    level-Same j lo z t u v r s p q same same' source =
        let x = prolongate-Same j lo z t u v same same' in
        let k = suc j in
        smooth-Same k (omega arith)
          (resid o g.junk (prolongate o g j z u) p (g.m1 k) (g.m2 k) (g.m3 k) g.a r)
          (resid o g.junk (prolongate o g j t v) q (g.m1 k) (g.m2 k) (g.m3 k) g.a s)
          (prolongate o g j z u) (prolongate o g j t v)
          (residual-Same k (omega arith) (prolongate o g j z u) (prolongate o g j t v) r s p q x
            source)
          x

    pub vcycle-Same :
        (n : ℕ) (r s : Grid A) → SameAt (suc n) r s → SameAt (suc n) (vcycle n r) (vcycle n s)
    unfolding vcycle
    vcycle-Same zero r s same =
        smooth-Same 1 (omega arith) r s blank blank same (λ a b c la lb lc. refl)
    vcycle-Same (suc n) r s same =
        let j = suc n in
        level-Same j (omega arith) (vcycle n (project o g j r blank))
          (vcycle n (project o g j s blank)) blank blank blank blank (some r) (some s)
          (vcycle-Same n (project o g j r blank) (project o g j s blank)
            (project-Same j (omega arith) r s blank blank same))
          (λ a b c la lb lc. refl) same

    pub down-above : (n k : ℕ) (r : ℕ → Grid A) → n < k → down o g n r k ≡ r k
    unfolding down
    down-above zero k r lt = refl
    down-above (suc n) k r lt =
        let next = put (suc n) (project o g (suc n) (r (suc (suc n))) (r (suc n))) r in
        down-above n k next (omega (arith, lt))
        ∙ put_miss (suc n) k (project o g (suc n) (r (suc (suc n))) (r (suc n))) r
            (ground (arith, lt))

    -- After the down cycle each level has the projection of the level above.
    pub down-next :
        (n i : ℕ) (r : ℕ → Grid A)
        → i < n
        → SameAt
            (suc i)
            (down o g n r (suc i))
            (project o g (suc i) (down o g n r (suc (suc i))) blank)
    unfolding down
    down-next zero i r lt = absurd (omega (arith, lt))
    down-next (suc n) i r lt =
        let p = project o g (suc n) (r (suc (suc n))) (r (suc n)) in
        let next = put (suc n) p r in
        elim (Bool-cases (i == n)) [
          | inl e ↦
              let e' : i ≡ n = ground (arith, e) in
              let here : down o g n next (suc n) ≡ p =
                down-above n (suc n) next (omega arith)
                ∙ put_hit (suc n) (suc n) p r (ground arith) in
              let above : down o g n next (suc (suc n)) ≡ r (suc (suc n)) =
                down-above n (suc (suc n)) next (omega arith)
                ∙ put_miss (suc n) (suc (suc n)) p r (ground arith) in
              rw (e', here, above)
                (project-Same (suc n) (omega arith) (r (suc (suc n))) (r (suc (suc n))) (r (suc n))
                  blank (λ a b c la lb lc. refl))
          | inr ne ↦ down-next n i next (ground (arith, lt, ne))
        ]
