-- ===== src/Npb/Mg/Stencils.antt =====
-- The smoother, the residual and the projection, with their border exchange, point by point: the work
-- rows are what they are filled with.
use hardposit_fpga.Base.{
  ℕ, zero, suc, ◌+◌, ◌-◌, ◌*◌, ◌≤◌, ◌<◌, ◌≡◌, refl, ap, subst, ◌∙◌, true, inl, inr, Bool-cases,
  ◌&&◌, ◌==◌, Option, none, some, put, times, arith,
}
use hardposit_fpga.Npb.Mg.{
  Grid, Arith, filled, sweep, comm3, cross, corners, psinv_point, psinv, source_of, resid_point,
  resid, offset, filled_odd, middle, outer, rprj3_point, rprj3,
}
use hardposit_fpga.Npb.Mg.Sweep.{visited, sweep-Updates, filled_lem}
use hardposit_fpga.Npb.Mg.Borders.{wrap, wrap_range, comm3_lem}

same_source :
    {A : Type 0} (v : Option (Grid A)) (r : Grid A) (a b c : ℕ)
    → source_of v (λ i j k. r a b c) a b c ≡ source_of v r a b c
same_source none r a b c = refl
same_source (some v) r a b c = refl

module _ {A : Type 0} (o : Arith A) where
  -- The smoother at an interior point: the grid and three sums of the residual around the point.
  abbrev pub smoothed_by_rows : (ℕ → A) → Grid A → Grid A → Grid A
  smoothed_by_rows c r u a b i =
      psinv_point o c (r a b) (cross o r a b) (corners o r a b) i (u a b i)

  -- The residual at an interior point.
  abbrev pub residual_by_rows : (ℕ → A) → Grid A → Grid A → Grid A
  residual_by_rows a u v i3 i2 i1 =
      resid_point o a (u i3 i2) (cross o u i3 i2) (corners o u i3 i2) i1 (v i3 i2 i1)

  -- The projection at an interior point of the coarse grid.
  abbrev pub projected_by_rows : (ℕ → A) → Grid A → ℕ → ℕ → ℕ → Grid A
  projected_by_rows w r d1 d2 d3 j3 j2 j1 =
      let i3 = 2 * j3 - d3 in
      let i2 = 2 * j2 - d2 in
      rprj3_point o w r (middle o r i3 i2) (outer o r i3 i2) i3 i2 (2 * j1 - d1)

  -- The sweep over the interior and the exchange after it.
  exchanged :
      (n1 n2 n3 : ℕ)
      → 3 ≤ n1
      → 3 ≤ n2
      → 3 ≤ n3
      → (f : ℕ → ℕ → ℕ → A → A) (u : Grid A) (a b c : ℕ) → a < n3
      → b < n2
      → c < n1
      → comm3 n1 n2 n3 (sweep f 1 (n3 - 2) (n2 - 2) (n1 - 2) u) a b c
        ≡ f (wrap n3 a) (wrap n2 b) (wrap n1 c) (u (wrap n3 a) (wrap n2 b) (wrap n1 c))
  exchanged n1 n2 n3 size1 size2 size3 f u a b c la lb lc =
      let w = sweep f 1 (n3 - 2) (n2 - 2) (n1 - 2) u in
      let r3 = wrap_range n3 a size3 la in
      let r2 = wrap_range n2 b size2 lb in
      let r1 = wrap_range n1 c size1 lc in
      let inside : (visited 1 (n3 - 2) (wrap n3 a)
            && (visited 1 (n2 - 2) (wrap n2 b) && visited 1 (n1 - 2) (wrap n1 c)))
          ≡ true =
        ground (arith, r3.0, r3.1, r2.0, r2.1, r1.0, r1.1) in
      comm3_lem n1 n2 n3 size1 size2 size3 w a b c la lb lc
      ∙ sweep-Updates f 1 (n1 - 2) (n2 - 2) (n3 - 2) u (wrap n3 a) (wrap n2 b) (wrap n1 c)
      ∙ rw inside refl

  module _ (n1 n2 n3 : ℕ) (size1 : 3 ≤ n1) (size2 : 3 ≤ n2) (size3 : 3 ≤ n3) where
    -- `psinv` with the borders exchanged, without its work rows.
    pub psinv_by_rows :
        (junk c : ℕ → A) (r u : Grid A) (i3 i2 i1 : ℕ)
        → i3 < n3
        → i2 < n2
        → i1 < n1
        → psinv o junk r n1 n2 n3 c u i3 i2 i1
          ≡ smoothed_by_rows c r u (wrap n3 i3) (wrap n2 i2) (wrap n1 i1)
    unfolding psinv
    psinv_by_rows junk c r u i3 i2 i1 l3 l2 l1 =
        let w = wrap n1 i1 in
        let range = wrap_range n1 i1 size1 l1 in
        let x = filled_lem n1 (cross o r (wrap n3 i3) (wrap n2 i2)) junk in
        let y = filled_lem n1 (corners o r (wrap n3 i3) (wrap n2 i2)) junk in
        exchanged n1 n2 n3 size1 size2 size3
          (λ i3 i2.
            psinv_point o c (r i3 i2) (filled n1 (cross o r i3 i2) junk)
              (filled n1 (corners o r i3 i2) junk))
          u i3 i2 i1 l3 l2 l1
        ∙ rw
            (
              x w (omega (arith, range.1)),
              x (w - 1) (omega (arith, range.1)),
              x (w + 1) (omega (arith, range.1)),
              y w (omega (arith, range.1)),
              psinv_point,
            )
            refl

    -- `resid` with the borders exchanged, without its work rows.
    pub resid_by_rows :
        (junk a : ℕ → A) (u r : Grid A) (v : Option (Grid A)) (i3 i2 i1 : ℕ)
        → i3 < n3
        → i2 < n2
        → i1 < n1
        → resid o junk u v n1 n2 n3 a r i3 i2 i1
          ≡ residual_by_rows a u (source_of v r) (wrap n3 i3) (wrap n2 i2) (wrap n1 i1)
    unfolding resid
    resid_by_rows junk a u r v i3 i2 i1 l3 l2 l1 =
        let w = wrap n1 i1 in
        let range = wrap_range n1 i1 size1 l1 in
        let x = filled_lem n1 (cross o u (wrap n3 i3) (wrap n2 i2)) junk in
        let y = filled_lem n1 (corners o u (wrap n3 i3) (wrap n2 i2)) junk in
        exchanged n1 n2 n3 size1 size2 size3
          (λ i3 i2 i1 x.
            resid_point o a (u i3 i2) (filled n1 (cross o u i3 i2) junk)
              (filled n1 (corners o u i3 i2) junk) i1 (source_of v (λ a b c. x) i3 i2 i1))
          r i3 i2 i1 l3 l2 l1
        ∙ rw
            (
              x (w - 1) (omega (arith, range.1)),
              x (w + 1) (omega (arith, range.1)),
              y w (omega (arith, range.1)),
              y (w - 1) (omega (arith, range.1)),
              y (w + 1) (omega (arith, range.1)),
              same_source v r (wrap n3 i3) (wrap n2 i2) w,
              resid_point,
            )
            refl

  -- A row filled at the places 2 * j - d.
  filled_places :
      (d : ℕ) (row junk : ℕ → A) (j k : ℕ)
      → 1 ≤ j
      → j ≤ k
      → d ≤ 2
      → times (λ m. put (2 * suc m - d) (row (2 * suc m - d))) k junk (2 * j - d) ≡ row (2 * j - d)
  unfolding times
  filled_places d row junk j zero lo hi small = absurd (omega (arith, lo, hi))
  filled_places d row junk j (suc k) lo hi small = elim (Bool-cases (2 * j - d == 2 * suc k - d)) [
    | inl hit ↦ let e : 2 * suc k - d ≡ 2 * j - d = ground (arith, hit) in rw hit (ap row e)
    | inr miss ↦ rw miss (filled_places d row junk j k lo (ground (arith, hi, miss)) small)
  ]

  module _ (m1 m2 m3 : ℕ) (size1 : 3 ≤ m1) (size2 : 3 ≤ m2) (size3 : 3 ≤ m3) where
    -- `rprj3` with the borders exchanged, without its work rows.
    pub rprj3_by_rows :
        (junk w : ℕ → A) (r s : Grid A) (m1k m2k m3k j3 j2 j1 : ℕ)
        → j3 < m3
        → j2 < m2
        → j1 < m1
        → rprj3 o junk w r m1k m2k m3k m1 m2 m3 s j3 j2 j1
          ≡ projected_by_rows w r
              (offset o m1k)
              (offset o m2k)
              (offset o m3k)
              (wrap m3 j3)
              (wrap m2 j2)
              (wrap m1 j1)
    unfolding rprj3
    rprj3_by_rows junk w r s m1k m2k m3k j3 j2 j1 l3 l2 l1 =
        let d = offset o m1k in
        let small : (1 ≤ d) × (d ≤ 2) = (ground arith, ground arith) in
        let j = wrap m1 j1 in
        let range = wrap_range m1 j1 size1 l1 in
        let i3 = 2 * wrap m3 j3 - offset o m3k in
        let i2 = 2 * wrap m2 j2 - offset o m2k in
        let place : 2 * suc j - d ≡ 2 * j - d + 2 = omega (arith, range.0, small.1) in
        let x = λ (row : ℕ → A) (k : ℕ) (lo : 1 ≤ k) (hi : k ≤ m1 - 1).
          filled_places d row junk k (m1 - 1) lo hi small.1 in
        let next = λ (row : ℕ → A).
          subst (λ q. filled_odd o d m1 row junk q ≡ row q) place
            (x row (suc j) (omega arith) (omega (arith, range.1))) in
        exchanged m1 m2 m3 size1 size2 size3
          (λ j3 j2 j1 x.
            let i3 = 2 * j3 - offset o m3k in
            let i2 = 2 * j2 - offset o m2k in
            rprj3_point o w r (filled_odd o (offset o m1k) m1 (middle o r i3 i2) junk)
              (filled_odd o (offset o m1k) m1 (outer o r i3 i2) junk) i3 i2 (2 * j1 - offset o m1k))
          s j3 j2 j1 l3 l2 l1
        ∙ rw
            (
              x (middle o r i3 i2) j range.0 (omega (arith, range.1)),
              next (middle o r i3 i2),
              x (outer o r i3 i2) j range.0 (omega (arith, range.1)),
              next (outer o r i3 i2),
              rprj3_point,
            )
            refl
