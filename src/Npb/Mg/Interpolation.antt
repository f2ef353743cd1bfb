-- ===== src/Npb/Mg/Interpolation.antt =====
-- The interpolation adds one correction to each point of the fine grid.
use hardposit_fpga.Base.{
  ℕ, ◌+◌, ◌-◌, ◌*◌, ◌/◌, ◌%◌, ◌<◌, ◌≡◌, refl, ap, ◌∙◌, Bool, true, false, inl, inr, Bool-cases, ltb,
  ◌&&◌, ◌||◌, ◌==◌, if◌then◌else◌, times, arith,
}
use hardposit_fpga.Npb.Mg.{Grid, Arith, filled, add_pairs, interp_rows, interp}
use hardposit_fpga.Npb.Mg.Sweep.{Updates, times-Updates, filled_lem}
use hardposit_fpga.Npb.Mg.Pairs.{pair, add_pairs-Updates}

module _ {A : Type 0} (o : Arith A) where
  module _ (w : ℕ → A) (z : Grid A) where
    -- The sums of two and of four points of the coarse grid.
    abbrev pub along2 : Grid A
    along2 i3 i2 i = o.add (z i3 (i2 + 1) i) (z i3 i2 i)

    abbrev pub along3 : Grid A
    along3 i3 i2 i = o.add (z (i3 + 1) i2 i) (z i3 i2 i)

    abbrev pub along23 : Grid A
    along23 i3 i2 i = o.add (o.add (z (i3 + 1) (i2 + 1) i) (z (i3 + 1) i2 i)) (along2 i3 i2 i)

    -- What a row of the fine grid gets, by the parity of its two indices.
    abbrev pub correction : Grid A
    correction x y c =
        let i3 = x / 2 in
        let i2 = y / 2 in
        if x % 2 == 0
        then if y % 2 == 0
          then pair (z i3 i2) (λ i. o.mul (w 1) (o.add (z i3 i2 (i + 1)) (z i3 i2 i))) c
          else pair (λ i. o.mul (w 1) (along2 i3 i2 i))
              (λ i. o.mul (w 2) (o.add (along2 i3 i2 i) (along2 i3 i2 (i + 1)))) c
        else if y % 2 == 0
        then pair (λ i. o.mul (w 1) (along3 i3 i2 i))
            (λ i. o.mul (w 2) (o.add (along3 i3 i2 i) (along3 i3 i2 (i + 1)))) c
        else pair (λ i. o.mul (w 2) (along23 i3 i2 i))
            (λ i. o.mul (w 3) (o.add (along23 i3 i2 i) (along23 i3 i2 (i + 1)))) c

    abbrev pub corrected : ℕ → ℕ → ℕ → A → A
    corrected x y c v = o.add v (correction x y c)

    row-Updates :
        (a b : ℕ) (even odd : ℕ → A) (n : ℕ)
        → ((c : ℕ) → c < 2 * n → pair even odd c ≡ correction a b c)
        → Updates
            (λ x y c. (x == a) && ((y == b) && ltb c (2 * n)))
            corrected
            (add_pairs o a b even odd n)
    row-Updates a b even odd n same u x y c =
        let r = add_pairs-Updates o a b even odd n u x y c in
        elim (Bool-cases ((x == a) && ((y == b) && ltb c (2 * n)))) [
          | inl hit ↦
              let ex : x ≡ a = ground (arith, hit) in
              let ey : y ≡ b = ground (arith, hit) in
              let e : pair even odd c ≡ correction x y c =
                rw (ex, ey) (same c (ground (arith, hit))) in
              r ∙ rw hit (ap (o.add (u x y c)) e)
          | inr miss ↦ r ∙ rw miss refl
        ]

    -- Two steps that come to different points.
    both-Updates :
        (s t r : ℕ → ℕ → ℕ → Bool) (p q : Grid A → Grid A)
        → Updates s corrected p
        → Updates t corrected q
        → ((x y c : ℕ) → t x y c ≡ true → s x y c ≡ false)
        → ((x y c : ℕ) → r x y c ≡ (s x y c || t x y c))
        → Updates r corrected (λ u. q (p u))
    both-Updates s t r p q f g apart either u x y c = elim (Bool-cases (t x y c)) [
      | inl hit ↦
          let old : p u x y c ≡ u x y c = f u x y c ∙ rw (apart x y c hit) refl in
          let met : r x y c ≡ true = ground (arith, either x y c, hit) in
          g (p u) x y c ∙ rw (hit, met) (ap (corrected x y c) old)
      | inr miss ↦
          let same : r x y c ≡ s x y c = ground (arith, either x y c, miss) in
          g (p u) x y c ∙ rw (miss, same) (f u x y c)
    ]

    module _ (junk : ℕ → A) (mm1 i3 i2 : ℕ) where
      -- The three rows that the loop over `i1` fills.
      abbrev row1 : ℕ → A
      row1 = filled mm1 (along2 i3 i2) junk

      abbrev row2 : ℕ → A
      row2 = filled mm1 (along3 i3 i2) junk

      abbrev row3 : ℕ → A
      row3 = filled mm1 (λ i. o.add (o.add (z (i3 + 1) (i2 + 1) i) (z (i3 + 1) i2 i)) (row1 i)) junk

      row00 :
          (c : ℕ)
          → pair (z i3 i2) (λ i. o.mul (w 1) (o.add (z i3 i2 (i + 1)) (z i3 i2 i))) c
            ≡ correction (2 * i3) (2 * i2) c
      row00 c =
          let h3 : 2 * i3 / 2 ≡ i3 = omega arith in
          let h2 : 2 * i2 / 2 ≡ i2 = omega arith in
          let p3 : (2 * i3 % 2 == 0) ≡ true = ground arith in
          let p2 : (2 * i2 % 2 == 0) ≡ true = ground arith in rw (h3, h2, p3, p2, correction) refl

      row01 :
          (c : ℕ)
          → c < 2 * (mm1 - 1)
          → pair (λ i. o.mul (w 1) (row1 i)) (λ i. o.mul (w 2) (o.add (row1 i) (row1 (i + 1)))) c
            ≡ correction (2 * i3) (2 * i2 + 1) c
      row01 c lt =
          let h3 : 2 * i3 / 2 ≡ i3 = omega arith in
          let h2 : (2 * i2 + 1) / 2 ≡ i2 = omega arith in
          let p3 : (2 * i3 % 2 == 0) ≡ true = ground arith in
          let p2 : ((2 * i2 + 1) % 2 == 0) ≡ false = ground arith in
          let e = filled_lem mm1 (along2 i3 i2) junk (c / 2) (omega (arith, lt)) in
          let e' = filled_lem mm1 (along2 i3 i2) junk (c / 2 + 1) (omega (arith, lt)) in
          rw (h3, h2, p3, p2, e, e', pair, correction) refl

      row10 :
          (c : ℕ)
          → c < 2 * (mm1 - 1)
          → pair (λ i. o.mul (w 1) (row2 i)) (λ i. o.mul (w 2) (o.add (row2 i) (row2 (i + 1)))) c
            ≡ correction (2 * i3 + 1) (2 * i2) c
      row10 c lt =
          let h3 : (2 * i3 + 1) / 2 ≡ i3 = omega arith in
          let h2 : 2 * i2 / 2 ≡ i2 = omega arith in
          let p3 : ((2 * i3 + 1) % 2 == 0) ≡ false = ground arith in
          let p2 : (2 * i2 % 2 == 0) ≡ true = ground arith in
          let e = filled_lem mm1 (along3 i3 i2) junk (c / 2) (omega (arith, lt)) in
          let e' = filled_lem mm1 (along3 i3 i2) junk (c / 2 + 1) (omega (arith, lt)) in
          rw (h3, h2, p3, p2, e, e', pair, correction) refl

      row3_lem : (i : ℕ) → i < mm1 → row3 i ≡ along23 i3 i2 i
      row3_lem i lt =
          filled_lem mm1 (λ i. o.add (o.add (z (i3 + 1) (i2 + 1) i) (z (i3 + 1) i2 i)) (row1 i))
            junk i lt
          ∙ ap (o.add (o.add (z (i3 + 1) (i2 + 1) i) (z (i3 + 1) i2 i)))
              (filled_lem mm1 (along2 i3 i2) junk i lt)

      row11 :
          (c : ℕ)
          → c < 2 * (mm1 - 1)
          → pair (λ i. o.mul (w 2) (row3 i)) (λ i. o.mul (w 3) (o.add (row3 i) (row3 (i + 1)))) c
            ≡ correction (2 * i3 + 1) (2 * i2 + 1) c
      row11 c lt =
          let h3 : (2 * i3 + 1) / 2 ≡ i3 = omega arith in
          let h2 : (2 * i2 + 1) / 2 ≡ i2 = omega arith in
          let p3 : ((2 * i3 + 1) % 2 == 0) ≡ false = ground arith in
          let p2 : ((2 * i2 + 1) % 2 == 0) ≡ false = ground arith in
          let e = row3_lem (c / 2) (omega (arith, lt)) in
          let e' = row3_lem (c / 2 + 1) (omega (arith, lt)) in
          rw (h3, h2, p3, p2, e, e', pair, correction) refl

      abbrev on_row : ℕ → ℕ → ℕ → ℕ → ℕ → Bool
      on_row a b x y c = (x == a) && ((y == b) && ltb c (2 * (mm1 - 1)))

      -- The two rows of one plane of the fine grid.
      abbrev on_plane : ℕ → ℕ → ℕ → ℕ → Bool
      on_plane a x y c = (x == a) && ((y / 2 == i2) && ltb c (2 * (mm1 - 1)))

      interp_rows-Updates :
          Updates
            (λ x y c. (x / 2 == i3) && ((y / 2 == i2) && ltb c (2 * (mm1 - 1))))
            corrected
            (interp_rows o junk w z mm1 i3 i2)
      unfolding interp_rows
      interp_rows-Updates =
          let n = mm1 - 1 in
          let a = 2 * i3 in
          let b = 2 * i2 in
          let e1 = λ (i : ℕ). o.mul (w 1) (o.add (z i3 i2 (i + 1)) (z i3 i2 i)) in
          let e2 = λ (i : ℕ). o.mul (w 1) (row1 i) in
          let o2 = λ (i : ℕ). o.mul (w 2) (o.add (row1 i) (row1 (i + 1))) in
          let e3 = λ (i : ℕ). o.mul (w 1) (row2 i) in
          let o3 = λ (i : ℕ). o.mul (w 2) (o.add (row2 i) (row2 (i + 1))) in
          let e4 = λ (i : ℕ). o.mul (w 2) (row3 i) in
          let o4 = λ (i : ℕ). o.mul (w 3) (o.add (row3 i) (row3 (i + 1))) in
          let low =
            both-Updates (on_row a b) (on_row a (b + 1)) (on_plane a)
              (add_pairs o a b (z i3 i2) e1 n) (add_pairs o a (b + 1) e2 o2 n)
              (row-Updates a b (z i3 i2) e1 n (λ c lt. row00 c))
              (row-Updates a (b + 1) e2 o2 n row01) (λ x y c e. ground (arith, e))
              (λ x y c. ground arith) in
          let high =
            both-Updates (on_row (a + 1) b) (on_row (a + 1) (b + 1)) (on_plane (a + 1))
              (add_pairs o (a + 1) b e3 o3 n) (add_pairs o (a + 1) (b + 1) e4 o4 n)
              (row-Updates (a + 1) b e3 o3 n row10) (row-Updates (a + 1) (b + 1) e4 o4 n row11)
              (λ x y c e. ground (arith, e)) (λ x y c. ground arith) in
          both-Updates (on_plane a) (on_plane (a + 1))
            (λ x y c. (x / 2 == i3) && ((y / 2 == i2) && ltb c (2 * n)))
            (λ u. add_pairs o a (b + 1) e2 o2 n (add_pairs o a b (z i3 i2) e1 n u))
            (λ u. add_pairs o (a + 1) (b + 1) e4 o4 n (add_pairs o (a + 1) b e3 o3 n u)) low high
            (λ x y c e. ground (arith, e)) (λ x y c. ground arith)

    -- `interp`, for sides other than 3, adds to each point of the fine grid below twice the sides
    -- of the coarse grid less one the trilinear correction for the parities of its indices, once,
    -- and leaves the other points alone.
    pub interp_lem :
        (junk : ℕ → A) (mm1 mm2 mm3 : ℕ) (u : Grid A) (x y c : ℕ)
        → interp o junk w z mm1 mm2 mm3 u x y c ≡ (
            if ltb (x / 2) (mm3 - 1) && (ltb (y / 2) (mm2 - 1) && ltb c (2 * (mm1 - 1)))
            then o.add (u x y c) (correction x y c)
            else u x y c)
    unfolding interp
    interp_lem junk mm1 mm2 mm3 =
        let columns = λ (i3 : ℕ).
          times-Updates (interp_rows o junk w z mm1 i3)
            (λ k x y c. (x / 2 == i3) && ((y / 2 == k) && ltb c (2 * (mm1 - 1))))
            (λ k x y c. (x / 2 == i3) && (ltb (y / 2) k && ltb c (2 * (mm1 - 1)))) corrected
            (interp_rows-Updates junk mm1 i3) (λ x y c. ground arith) (λ k x y c. ground arith)
            (λ k x y c e. ground (arith, e)) (mm2 - 1) in
        times-Updates (λ i3. times (interp_rows o junk w z mm1 i3) (mm2 - 1))
          (λ k x y c. (x / 2 == k) && (ltb (y / 2) (mm2 - 1) && ltb c (2 * (mm1 - 1))))
          (λ k x y c. ltb (x / 2) k && (ltb (y / 2) (mm2 - 1) && ltb c (2 * (mm1 - 1)))) corrected
          columns (λ x y c. ground arith) (λ k x y c. ground arith) (λ k x y c e. ground (arith, e))
          (mm3 - 1)
