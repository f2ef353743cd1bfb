-- ===== src/Npb/Mg/Charges/Filling.antt =====
-- The random numbers with which `zran3` fills the grid: one row after the other, each from a seed of
-- its own.
use native.Mathlib.Nat.{mul_comm}
use hardposit_fpga.Base.{
  ℕ, zero, suc, ◌+◌, ◌-◌, ◌*◌, ◌%◌, ◌^◌, ◌≡◌, refl, ap, ◌∙◌, Bool, true, false, inl, inr,
  Bool-cases, some, leb, ◌&&◌, ◌==◌, if◌then◌else◌, times, arith,
}
use hardposit_fpga.Npb.Random.{randlc, vranlc}
use hardposit_fpga.Npb.Random.Jumps.{seed_at, jump, row-number}
use hardposit_fpga.Npb.Random.Sequence.{randlc_mod, mod-mul}
use hardposit_fpga.Npb.Powers.Exact.{power-ipow46}
use hardposit_fpga.Npb.Mg.{Grid}
use hardposit_fpga.Npb.Mg.Charges.{Fill, row_step, plane_step, fill}

next_start : (n k p : ℕ) → n + (n * k + p) ≡ n * suc k + p
next_start n k p = omega arith

abbrev pub within : ℕ → ℕ → Bool
within n c = leb 1 c && leb c n

-- The place of a point in the sequence.
abbrev pub number_of : ℕ → ℕ → ℕ → ℕ → ℕ → ℕ
number_of nx ny u q c = c + (nx * (q - 1) + nx * ny * (u - 1))

module _ (bits : ℕ → ℕ) (a nx x : ℕ) where
  -- The rows of a plane that starts at the number p.
  record AreFilled (i3 p k : ℕ) (s t : Fill) : Type 0 where
    at_row : t.x1 ≡ seed_at a x (nx * k + p)
    at_plane : t.x0 ≡ s.x0
    numbers :
        (u q c : ℕ)
        → t.grid u q c ≡ (
            if (u == i3) && (within k q && within nx c)
            then bits (seed_at a x (c + (nx * (q - 1) + p)))
            else s.grid u q c)

  row_step-AreFilled :
      (i3 p k : ℕ) (s t : Fill)
      → AreFilled i3 p k s t
      → AreFilled i3 p (suc k) s (row_step bits a nx (a ^ nx % 2 ^ 46) i3 (suc k) t)
  unfolding row_step
  row_step-AreFilled i3 p k s t g =
      let e = g.at_row in
      record {
        at_row =
            ap (λ v. randlc v (a ^ nx % 2 ^ 46)) e
            ∙ jump a nx (nx * k + p) x
            ∙ ap (seed_at a x) (next_start nx k p);
        at_plane = g.at_plane;
        numbers = λ u q c. elim (Bool-cases ((u == i3) && ((q == suc k) && within nx c))) [
          | inl hit ↦
              let now : ((u == i3) && (within (suc k) q && within nx c)) ≡ true =
                ground (arith, hit) in
              let place : nx * k + p ≡ nx * (q - 1) + p =
                let index : k ≡ q - 1 = ground (arith, hit) in ap (λ v. nx * v + p) index in
              let number : (vranlc nx t.x1 a (λ j. 0)).1 c ≡ seed_at a x (c + (nx * (q - 1) + p)) =
                rw (e, place)
                  (row-number a nx (nx * (q - 1) + p) x c (λ j. 0) (ground (arith, hit))
                    (ground (arith, hit))) in
              rw (hit, now) (ap bits number)
          | inr miss ↦
              let same : ((u == i3) && (within (suc k) q && within nx c))
                  ≡ ((u == i3) && (within k q && within nx c)) =
                ground (arith, miss) in
              rw (miss, same) (g.numbers u q c)
        ];
      }

  rows-AreFilled :
      (i3 p : ℕ) (s : Fill)
      → s.x1 ≡ seed_at a x p
      → (k : ℕ)
      → AreFilled i3 p k s (times (λ j. row_step bits a nx (a ^ nx % 2 ^ 46) i3 (suc j)) k s)
  unfolding times
  rows-AreFilled i3 p s e zero = record {
    at_row = e ∙ ap (seed_at a x) (omega arith);
    at_plane = refl;
    numbers = λ u q c.
        let none : ((u == i3) && (within 0 q && within nx c)) ≡ false = ground arith in
        rw none refl;
  }
  rows-AreFilled i3 p s e (suc k) =
      row_step-AreFilled i3 p k s (times (λ j. row_step bits a nx (a ^ nx % 2 ^ 46) i3 (suc j)) k s)
        (rows-AreFilled i3 p s e k)

  module _ (ny : ℕ) where
    -- The first k planes.
    record PlanesFilled (k : ℕ) (s t : Fill) : Type 0 where
      at_next : t.x0 ≡ seed_at a x (nx * ny * k)
      numbers :
          (u q c : ℕ)
          → t.grid u q c ≡ (
              if within k u && (within ny q && within nx c)
              then bits (seed_at a x (number_of nx ny u q c))
              else s.grid u q c)

    planes-PlanesFilled :
        (s : Fill)
        → s.x0 ≡ seed_at a x 0
        → (k : ℕ)
        → PlanesFilled k s (
            times
              (λ j. plane_step bits a nx ny (a ^ nx % 2 ^ 46) (a ^ (nx * ny) % 2 ^ 46) (suc j))
              k
              s)
    unfolding times plane_step
    planes-PlanesFilled s e zero = record {
      at_next = e ∙ ap (seed_at a x) (omega arith);
      numbers = λ u q c.
          let none : (within 0 u && (within ny q && within nx c)) ≡ false = ground arith in
          rw none refl;
    }
    planes-PlanesFilled s e (suc k) =
        let t =
          times (λ j. plane_step bits a nx ny (a ^ nx % 2 ^ 46) (a ^ (nx * ny) % 2 ^ 46) (suc j)) k
            s in
        let ih = planes-PlanesFilled s e k in
        let t' : Fill = record t { x1 = t.x0 } in
        let rows = rows-AreFilled (suc k) (nx * ny * k) t' ih.at_next ny in
        record {
          at_next =
              ap (λ v. randlc v (a ^ (nx * ny) % 2 ^ 46)) (rows.at_plane ∙ ih.at_next)
              ∙ jump a (nx * ny) (nx * ny * k) x
              ∙ ap (seed_at a x) (omega arith);
          numbers = λ u q c. elim (Bool-cases ((u == suc k) && (within ny q && within nx c))) [
            | inl hit ↦
                let now : (within (suc k) u && (within ny q && within nx c)) ≡ true =
                  ground (arith, hit) in
                let plane : k ≡ u - 1 = ground (arith, hit) in
                let number : bits (seed_at a x (c + (nx * (q - 1) + nx * ny * k)))
                    ≡ bits (seed_at a x (number_of nx ny u q c)) =
                  ap (λ v. bits (seed_at a x (c + (nx * (q - 1) + nx * ny * v)))) plane in
                rows.numbers u q c ∙ rw (hit, now) number
            | inr miss ↦
                let same : (within (suc k) u && (within ny q && within nx c))
                    ≡ (within k u && (within ny q && within nx c)) =
                  ground (arith, miss) in
                rows.numbers u q c ∙ rw (miss, same) (ih.numbers u q c)
          ];
        }

    -- The jumps are computed, and the points of nz planes of ny rows of nx numbers get the numbers of the
    -- sequence in this order; the other points are left alone.
    pub fill_lem :
        (nz : ℕ) (z : Grid ℕ)
        → (w : Grid ℕ) × (fill bits a nx ny nz x z ≡ some w)
          × ((u q c : ℕ)
              → w u q c ≡ (
                  if within nz u && (within ny q && within nx c)
                  then bits (a ^ number_of nx ny u q c * x % 2 ^ 46)
                  else z u q c))
    unfolding fill
    fill_lem nz z =
        let s : Fill = record { grid = z; x0 = randlc x (a ^ 0 % 2 ^ 46); x1 = 0 } in
        let start : s.x0 ≡ seed_at a x 0 =
          randlc_mod x (a ^ 0 % 2 ^ 46)
          ∙ ap (λ n. n % 2 ^ 46) (mul_comm (a ^ 0 % 2 ^ 46) x)
          ∙ mod-mul x (a ^ 0)
          ∙ ap (λ n. n % 2 ^ 46) (mul_comm x (a ^ 0)) in
        let p = planes-PlanesFilled s start nz in
        let e1 = (power-ipow46 a nx).0 in
        let e2 = (power-ipow46 a (nx * ny)).0 in
        let e3 = (power-ipow46 a 0).0 in
        let is_made : fill bits a nx ny nz x z
            ≡ some
                (times
                  (λ j. plane_step bits a nx ny (a ^ nx % 2 ^ 46) (a ^ (nx * ny) % 2 ^ 46) (suc j))
                  nz s).grid =
          rw (fill, e1, e2, e3) refl in
        (
          (times (λ j. plane_step bits a nx ny (a ^ nx % 2 ^ 46) (a ^ (nx * ny) % 2 ^ 46) (suc j))
              nz s).grid,
          is_made,
          p.numbers,
        )
