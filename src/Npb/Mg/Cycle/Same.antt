-- ===== src/Npb/Mg/Cycle/Same.antt =====
-- The operators read nothing beyond the grids: equal points give equal results.
use hardposit_fpga.Base.{
  ℕ, ◌+◌, ◌-◌, ◌*◌, ◌/◌, ◌%◌, ◌≤◌, ◌<◌, ◌≡◌, refl, sym, ap, ◌∙◌, true, inl, inr, Bool-cases, Option,
  ltb, ◌==◌, ◌&&◌, arith,
}
use hardposit_fpga.Npb.Mg.{
  Grid, Arith, zero3, cross, corners, psinv_point, psinv, source_of, resid_point, resid, offset,
  middle, outer, rprj3_point, rprj3, interp,
}
use hardposit_fpga.Npb.Mg.Sweep.{visited, sweep-Updates}
use hardposit_fpga.Npb.Mg.Borders.{wrap, wrap_range}
use hardposit_fpga.Npb.Mg.Stencils.{
  smoothed_by_rows, residual_by_rows, projected_by_rows, psinv_by_rows, resid_by_rows,
  rprj3_by_rows,
}
use hardposit_fpga.Npb.Mg.Pairs.{pair}
use hardposit_fpga.Npb.Mg.Interpolation.{along2, along3, along23, correction, interp_lem}

module _ {A : Type 0} where
  -- Two grids with the same points.
  abbrev pub Same : ℕ → ℕ → ℕ → Grid A → Grid A → Type 0
  Same n1 n2 n3 u v = (a b c : ℕ) → a < n3 → b < n2 → c < n1 → u a b c ≡ v a b c

  pub zero3-Same :
      (null : A) (n1 n2 n3 : ℕ) (u : Grid A) → Same n1 n2 n3 (zero3 null n1 n2 n3 u) (λ a b c. null)
  zero3-Same null n1 n2 n3 u a b c la lb lc =
      let all : (visited 0 n3 a && (visited 0 n2 b && visited 0 n1 c)) ≡ true =
        ground (arith, la, lb, lc) in
      sweep-Updates (λ i3 i2 i1 x. null) 0 n1 n2 n3 u a b c ∙ rw all refl

  module _ (o : Arith A) (n1 n2 n3 : ℕ) (size1 : 3 ≤ n1) (size2 : 3 ≤ n2) (size3 : 3 ≤ n3) where
    module _ (r s : Grid A) (same : Same n1 n2 n3 r s) (a b : ℕ) where
      cross-Same :
          (1 ≤ a) × (a < n3 - 1)
          → (1 ≤ b) × (b < n2 - 1)
          → (i : ℕ) → i < n1
          → cross o r a b i ≡ cross o s a b i
      cross-Same ra rb i li =
          rw
            (
              same a (b - 1) i (omega (arith, ra.1)) (omega (arith, rb.1)) li,
              same a (b + 1) i (omega (arith, ra.1)) (omega (arith, rb.1)) li,
              same (a - 1) b i (omega (arith, ra.1)) (omega (arith, rb.1)) li,
              same (a + 1) b i (omega (arith, ra.1)) (omega (arith, rb.1)) li,
              cross,
            )
            refl

      corners-Same :
          (1 ≤ a) × (a < n3 - 1)
          → (1 ≤ b) × (b < n2 - 1)
          → (i : ℕ) → i < n1
          → corners o r a b i ≡ corners o s a b i
      corners-Same ra rb i li =
          rw
            (
              same (a - 1) (b - 1) i (omega (arith, ra.1)) (omega (arith, rb.1)) li,
              same (a - 1) (b + 1) i (omega (arith, ra.1)) (omega (arith, rb.1)) li,
              same (a + 1) (b - 1) i (omega (arith, ra.1)) (omega (arith, rb.1)) li,
              same (a + 1) (b + 1) i (omega (arith, ra.1)) (omega (arith, rb.1)) li,
              corners,
            )
            refl

    pub psinv-Same :
        (junk c : ℕ → A) (r s u v : Grid A)
        → Same n1 n2 n3 r s
        → Same n1 n2 n3 u v
        → Same n1 n2 n3 (psinv o junk r n1 n2 n3 c u) (psinv o junk s n1 n2 n3 c v)
    psinv-Same junk c r s u v same same' i3 i2 i1 l3 l2 l1 =
        let a = wrap n3 i3 in
        let b = wrap n2 i2 in
        let i = wrap n1 i1 in
        let ra = wrap_range n3 i3 size3 l3 in
        let rb = wrap_range n2 i2 size2 l2 in
        let ri = wrap_range n1 i1 size1 l1 in
        let la : a < n3 = omega (arith, ra.1) in
        let lb : b < n2 = omega (arith, rb.1) in
        let x = cross-Same r s same a b ra rb in
        let y = corners-Same r s same a b ra rb in
        psinv_by_rows o n1 n2 n3 size1 size2 size3 junk c r u i3 i2 i1 l3 l2 l1
        ∙ rw
            (
              same a b i la lb (omega (arith, ri.1)),
              same a b (i - 1) la lb (omega (arith, ri.1)),
              same a b (i + 1) la lb (omega (arith, ri.1)),
              x i (omega (arith, ri.1)),
              x (i - 1) (omega (arith, ri.1)),
              x (i + 1) (omega (arith, ri.1)),
              y i (omega (arith, ri.1)),
              same' a b i la lb (omega (arith, ri.1)),
              smoothed_by_rows,
              psinv_point,
            )
            refl
        ∙ sym (psinv_by_rows o n1 n2 n3 size1 size2 size3 junk c s v i3 i2 i1 l3 l2 l1)

    pub resid-Same :
        (junk a : ℕ → A) (u t r s : Grid A) (v w : Option (Grid A))
        → Same n1 n2 n3 u t
        → Same n1 n2 n3 (source_of v r) (source_of w s)
        → Same n1 n2 n3 (resid o junk u v n1 n2 n3 a r) (resid o junk t w n1 n2 n3 a s)
    resid-Same junk c u t r s v w same same' i3 i2 i1 l3 l2 l1 =
        let a = wrap n3 i3 in
        let b = wrap n2 i2 in
        let i = wrap n1 i1 in
        let ra = wrap_range n3 i3 size3 l3 in
        let rb = wrap_range n2 i2 size2 l2 in
        let ri = wrap_range n1 i1 size1 l1 in
        let la : a < n3 = omega (arith, ra.1) in
        let lb : b < n2 = omega (arith, rb.1) in
        let x = cross-Same u t same a b ra rb in
        let y = corners-Same u t same a b ra rb in
        resid_by_rows o n1 n2 n3 size1 size2 size3 junk c u r v i3 i2 i1 l3 l2 l1
        ∙ rw
            (
              same a b i la lb (omega (arith, ri.1)),
              x (i - 1) (omega (arith, ri.1)),
              x (i + 1) (omega (arith, ri.1)),
              y i (omega (arith, ri.1)),
              y (i - 1) (omega (arith, ri.1)),
              y (i + 1) (omega (arith, ri.1)),
              same' a b i la lb (omega (arith, ri.1)),
              residual_by_rows,
              resid_point,
            )
            refl
        ∙ sym (resid_by_rows o n1 n2 n3 size1 size2 size3 junk c t s w i3 i2 i1 l3 l2 l1)

  module _ (o : Arith A) (m1 m2 m3 : ℕ) (size1 : 3 ≤ m1) (size2 : 3 ≤ m2) (size3 : 3 ≤ m3)
      (r s : Grid A) (same : Same (2 * (m1 - 1)) (2 * (m2 - 1)) (2 * (m3 - 1)) r s) where
    -- The reads of one row of the projection.
    middle-Same :
        (a b i : ℕ)
        → a + 2 < 2 * (m3 - 1)
        → b + 2 < 2 * (m2 - 1)
        → i < 2 * (m1 - 1)
        → middle o r a b i ≡ middle o s a b i
    middle-Same a b i la lb li =
        rw
          (
            same (a + 1) b i (omega (arith, la)) (omega (arith, lb)) li,
            same (a + 1) (b + 2) i (omega (arith, la)) lb li,
            same a (b + 1) i (omega (arith, la)) (omega (arith, lb)) li,
            same (a + 2) (b + 1) i la (omega (arith, lb)) li,
            middle,
          )
          refl

    outer-Same :
        (a b i : ℕ)
        → a + 2 < 2 * (m3 - 1)
        → b + 2 < 2 * (m2 - 1)
        → i < 2 * (m1 - 1)
        → outer o r a b i ≡ outer o s a b i
    outer-Same a b i la lb li =
        rw
          (
            same a b i (omega (arith, la)) (omega (arith, lb)) li,
            same (a + 2) b i la (omega (arith, lb)) li,
            same a (b + 2) i (omega (arith, la)) lb li,
            same (a + 2) (b + 2) i la lb li,
            outer,
          )
          refl

    pub rprj3-Same :
        (junk w : ℕ → A) (p q : Grid A)
        → Same m1 m2 m3
            (rprj3 o junk w r (2 * (m1 - 1)) (2 * (m2 - 1)) (2 * (m3 - 1)) m1 m2 m3 p)
            (rprj3 o junk w s (2 * (m1 - 1)) (2 * (m2 - 1)) (2 * (m3 - 1)) m1 m2 m3 q)
    rprj3-Same junk w p q j3 j2 j1 l3 l2 l1 =
        let d1 = offset o (2 * (m1 - 1)) in
        let d2 = offset o (2 * (m2 - 1)) in
        let d3 = offset o (2 * (m3 - 1)) in
        let a = 2 * wrap m3 j3 - d3 in
        let b = 2 * wrap m2 j2 - d2 in
        let i = 2 * wrap m1 j1 - d1 in
        let ra = wrap_range m3 j3 size3 l3 in
        let rb = wrap_range m2 j2 size2 l2 in
        let ri = wrap_range m1 j1 size1 l1 in
        let one1 : d1 ≡ 1 = ground (arith, size1) in
        let one2 : d2 ≡ 1 = ground (arith, size2) in
        let one3 : d3 ≡ 1 = ground (arith, size3) in
        let la : a + 2 < 2 * (m3 - 1) = omega (arith, ra.0, ra.1, one3) in
        let lb : b + 2 < 2 * (m2 - 1) = omega (arith, rb.0, rb.1, one2) in
        let li : i + 2 < 2 * (m1 - 1) = omega (arith, ri.0, ri.1, one1) in
        rprj3_by_rows o m1 m2 m3 size1 size2 size3 junk w r p (2 * (m1 - 1)) (2 * (m2 - 1))
          (2 * (m3 - 1)) j3 j2 j1 l3 l2 l1
        ∙ rw
            (
              same (a + 1) (b + 1) (i + 1) (omega (arith, la)) (omega (arith, lb))
                  (omega (arith, li)),
              same (a + 1) (b + 1) i (omega (arith, la)) (omega (arith, lb)) (omega (arith, li)),
              same (a + 1) (b + 1) (i + 2) (omega (arith, la)) (omega (arith, lb)) li,
              middle-Same a b i la lb (omega (arith, li)),
              middle-Same a b (i + 1) la lb (omega (arith, li)),
              middle-Same a b (i + 2) la lb li,
              outer-Same a b i la lb (omega (arith, li)),
              outer-Same a b (i + 1) la lb (omega (arith, li)),
              outer-Same a b (i + 2) la lb li,
              projected_by_rows,
              rprj3_point,
            )
            refl
        ∙ sym (
            rprj3_by_rows o m1 m2 m3 size1 size2 size3 junk w s q (2 * (m1 - 1)) (2 * (m2 - 1))
              (2 * (m3 - 1)) j3 j2 j1 l3 l2 l1)

  module _ (o : Arith A) (m1 m2 m3 : ℕ) (w : ℕ → A) (z t : Grid A) (same : Same m1 m2 m3 z t) where
    along2-Same :
        (a b i : ℕ)
        → z a b i ≡ t a b i
        → z a (b + 1) i ≡ t a (b + 1) i
        → along2 o w z a b i ≡ along2 o w t a b i
    along2-Same a b i e f = ap (λ v. o.add v (z a b i)) f ∙ ap (o.add (t a (b + 1) i)) e

    along3-Same :
        (a b i : ℕ)
        → z a b i ≡ t a b i
        → z (a + 1) b i ≡ t (a + 1) b i
        → along3 o w z a b i ≡ along3 o w t a b i
    along3-Same a b i e f = ap (λ v. o.add v (z a b i)) f ∙ ap (o.add (t (a + 1) b i)) e

    along23-Same :
        (a b i : ℕ)
        → z (a + 1) (b + 1) i ≡ t (a + 1) (b + 1) i
        → z (a + 1) b i ≡ t (a + 1) b i
        → along2 o w z a b i ≡ along2 o w t a b i
        → along23 o w z a b i ≡ along23 o w t a b i
    along23-Same a b i e f p =
        ap (λ v. o.add (o.add v (z (a + 1) b i)) (along2 o w z a b i)) e
        ∙ ap (λ v. o.add (o.add (t (a + 1) (b + 1) i) v) (along2 o w z a b i)) f
        ∙ ap (o.add (o.add (t (a + 1) (b + 1) i) (t (a + 1) b i))) p

    correction-Same :
        (x y c : ℕ)
        → x / 2 < m3 - 1
        → y / 2 < m2 - 1
        → c / 2 < m1 - 1
        → correction o w z x y c ≡ correction o w t x y c
    correction-Same x y c la lb lc =
        let a = x / 2 in
        let b = y / 2 in
        let i = c / 2 in
        let e = same a b i (omega (arith, la)) (omega (arith, lb)) (omega (arith, lc)) in
        let e1 = same a b (i + 1) (omega (arith, la)) (omega (arith, lb)) (omega (arith, lc)) in
        let f = same a (b + 1) i (omega (arith, la)) (omega (arith, lb)) (omega (arith, lc)) in
        let f1 =
          same a (b + 1) (i + 1) (omega (arith, la)) (omega (arith, lb)) (omega (arith, lc)) in
        let g = same (a + 1) b i (omega (arith, la)) (omega (arith, lb)) (omega (arith, lc)) in
        let g1 =
          same (a + 1) b (i + 1) (omega (arith, la)) (omega (arith, lb)) (omega (arith, lc)) in
        let h =
          same (a + 1) (b + 1) i (omega (arith, la)) (omega (arith, lb)) (omega (arith, lc)) in
        let h1 =
          same (a + 1) (b + 1) (i + 1) (omega (arith, la)) (omega (arith, lb))
            (omega (arith, lc)) in
        let p = along2-Same a b i e f in
        let p1 = along2-Same a b (i + 1) e1 f1 in
        let q = along3-Same a b i e g in
        let q1 = along3-Same a b (i + 1) e1 g1 in
        let r = along23-Same a b i h g p in
        let r1 = along23-Same a b (i + 1) h1 g1 p1 in
        elim (Bool-cases (x % 2 == 0)) [
          | inl ex ↦ elim (Bool-cases (y % 2 == 0)) [
            | inl ey ↦ rw (ex, ey, correction) (rw (e, e1, pair) refl)
            | inr ey ↦ rw (ex, ey, correction) (rw (p, p1, pair) refl)
          ]
          | inr ex ↦ elim (Bool-cases (y % 2 == 0)) [
            | inl ey ↦ rw (ex, ey, correction) (rw (q, q1, pair) refl)
            | inr ey ↦ rw (ex, ey, correction) (rw (r, r1, pair) refl)
          ]
        ]

    pub interp-Same :
        (junk : ℕ → A) (u v : Grid A)
        → Same (2 * (m1 - 1)) (2 * (m2 - 1)) (2 * (m3 - 1)) u v
        → Same
            (2 * (m1 - 1))
            (2 * (m2 - 1))
            (2 * (m3 - 1))
            (interp o junk w z m1 m2 m3 u)
            (interp o junk w t m1 m2 m3 v)
    interp-Same junk u v same' x y c la lb lc =
        let met : (ltb (x / 2) (m3 - 1) && (ltb (y / 2) (m2 - 1) && ltb c (2 * (m1 - 1)))) ≡ true =
          ground (arith, la, lb, lc) in
        let e = correction-Same x y c (omega (arith, la)) (omega (arith, lb)) (omega (arith, lc)) in
        interp_lem o w z junk m1 m2 m3 u x y c
        ∙ rw (met, same' x y c la lb lc, e) refl
        ∙ sym (interp_lem o w t junk m1 m2 m3 v x y c)
