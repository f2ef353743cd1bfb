-- ===== src/Npb/Ft/Initial.antt =====
-- The numbers that `compute_initial_conditions` puts into the grid.
use native.Mathlib.Nat.{mul_comm, mul-le-mul_left}
use hardposit_fpga.Base.{
  ℕ, zero, suc, ◌+◌, ◌-◌, ◌*◌, ◌%◌, ◌^◌, ◌≤◌, ◌<◌, ◌≡◌, refl, ap, ◌∙◌, true, false, inl, inr,
  Bool-cases, some, ltb, ◌&&◌, ◌==◌, if◌then◌else◌, times, arith,
}
use hardposit_fpga.Npb.Random.{randlc, vranlc}
use hardposit_fpga.Npb.Random.Sequence.{randlc_mod, mod-mul}
use hardposit_fpga.Npb.Random.Jumps.{seed_at, jump, row-number}
use hardposit_fpga.Npb.Powers.Exact.{power-ipow46}
use hardposit_fpga.Npb.Ft.{
  Pcomplex, Cube, Scan, Planes, set_point, scan_plane, next_square, compute_initial_conditions,
}

-- The place of a point in the sequence of points of a plane, and of the grid.
abbrev pub point_of : ℕ → ℕ → ℕ → ℕ
point_of nx q c = 2 * (nx * q + c)

module _ (bits : ℕ → ℕ) where
  -- The two parts of a point, from the first index.
  abbrev taken : (ℕ → ℕ) → ℕ → Pcomplex
  taken tmp t = record { real = bits (tmp t); imag = bits (tmp (t + 1)) }

  module _ (tmp : ℕ → ℕ) (k : ℕ) where
    record RowScanned (j i : ℕ) (s t : Scan) : Type 0 where
      place : t.t ≡ s.t + 2 * i
      points :
          (u q c : ℕ)
          → t.u0 u q c
            ≡ (if (u == k) && ((q == j) && ltb c i) then taken tmp (s.t + 2 * c) else s.u0 u q c)

    row-RowScanned : (j i : ℕ) (s : Scan) → RowScanned j i s (times (set_point bits tmp k j) i s)
    unfolding times
    row-RowScanned j zero s = record {
      place = omega arith;
      points = λ u q c.
          let none : ((u == k) && ((q == j) && ltb c 0)) ≡ false = ground arith in rw none refl;
    }
    row-RowScanned j (suc i) s =
        let t = times (set_point bits tmp k j) i s in
        let ih = row-RowScanned j i s in
        record {
          place = let e = ih.place in omega (arith, e);
          points = λ u q c. elim (Bool-cases ((u == k) && ((q == j) && (c == i)))) [
            | inl hit ↦
                let now : ((u == k) && ((q == j) && ltb c (suc i))) ≡ true = ground (arith, hit) in
                let same : i ≡ c = ground (arith, hit) in
                rw (hit, now) (ap (taken tmp) (ih.place ∙ ap (λ v. s.t + 2 * v) same))
            | inr miss ↦
                let same : ((u == k) && ((q == j) && ltb c (suc i)))
                    ≡ ((u == k) && ((q == j) && ltb c i)) =
                  ground (arith, miss) in
                rw (miss, same) (ih.points u q c)
          ];
        }

    module _ (nx : ℕ) where
      record PlaneScanned (j : ℕ) (s t : Scan) : Type 0 where
        place : t.t ≡ s.t + 2 * (nx * j)
        points :
            (u q c : ℕ)
            → t.u0 u q c ≡ (
                if (u == k) && (ltb q j && ltb c nx)
                then taken tmp (s.t + point_of nx q c)
                else s.u0 u q c)

      plane-PlaneScanned :
          (s : Scan) (j : ℕ) → PlaneScanned j s (times (λ q. times (set_point bits tmp k q) nx) j s)
      unfolding times
      plane-PlaneScanned s zero = record {
        place = omega arith;
        points = λ u q c.
            let none : ((u == k) && (ltb q 0 && ltb c nx)) ≡ false = ground arith in rw none refl;
      }
      plane-PlaneScanned s (suc j) =
          let t = times (λ q. times (set_point bits tmp k q) nx) j s in
          let ih = plane-PlaneScanned s j in
          let row = row-RowScanned j nx t in
          record {
            place = let e = ih.place in let e' = row.place in omega (arith, e, e');
            points = λ u q c. elim (Bool-cases ((u == k) && ((q == j) && ltb c nx))) [
              | inl hit ↦
                  let now : ((u == k) && (ltb q (suc j) && ltb c nx)) ≡ true =
                    ground (arith, hit) in
                  let same : j ≡ q = ground (arith, hit) in
                  let sum : s.t + 2 * (nx * q) + 2 * c ≡ s.t + point_of nx q c = omega arith in
                  row.points u q c
                  ∙ rw (hit, now)
                      (ap (taken tmp)
                        (ap (λ v. v + 2 * c) (ih.place ∙ ap (λ v. s.t + 2 * (nx * v)) same) ∙ sum))
              | inr miss ↦
                  let same : ((u == k) && (ltb q (suc j) && ltb c nx))
                      ≡ ((u == k) && (ltb q j && ltb c nx)) =
                    ground (arith, miss) in
                  row.points u q c ∙ rw (miss, same) (ih.points u q c)
            ];
          }

  -- The number of the real part of a point; the imaginary part has the next.
  abbrev pub first_of : ℕ → ℕ → ℕ → ℕ → ℕ → ℕ
  first_of nx ny u q c = 1 + point_of nx q c + 2 * nx * ny * u

  module _ (a x nx ny : ℕ) where
    -- The point for its numbers in the sequence.
    abbrev pub drawn : ℕ → ℕ → ℕ → Pcomplex
    drawn u q c = record {
      real = bits (a ^ first_of nx ny u q c * x % 2 ^ 46);
      imag = bits (a ^ (first_of nx ny u q c + 1) * x % 2 ^ 46);
    }

    inside : (q c : ℕ) → q < ny → c < nx → 1 + point_of nx q c + 1 ≤ 2 * nx * ny
    inside q c lq lc =
        let rows : nx * suc q ≤ nx * ny = mul-le-mul_left nx (ground (arith, lq)) in
        let row : nx * suc q ≡ nx * q + nx = omega arith in
        let twice : 2 * nx * ny ≡ 2 * (nx * ny) = omega arith in omega (arith, rows, row, twice, lc)

    taken-drawn :
        (k q c : ℕ) (start : ℕ) (y : ℕ → ℕ)
        → start ≡ seed_at a x (2 * nx * ny * k)
        → q < ny
        → c < nx
        → taken (vranlc (2 * nx * ny) start a y).1 (1 + point_of nx q c) ≡ drawn k q c
    taken-drawn k q c start y e lq lc =
        let w = 2 * nx * ny in
        let p = 1 + point_of nx q c in
        let fits = inside q c lq lc in
        let one = row-number a w (w * k) x p y (omega arith) (omega (arith, fits)) in
        let two = row-number a w (w * k) x (p + 1) y (omega arith) fits in
        let next : p + 1 + w * k ≡ p + w * k + 1 = omega arith in rw (e, one, two, next) refl

    record AreDrawn (k : ℕ) (s t : Planes) : Type 0 where
      seed : t.start ≡ seed_at a x (2 * nx * ny * k)
      points :
          (u q c : ℕ)
          → t.cube u q c ≡ (if ltb u k && (ltb q ny && ltb c nx) then drawn u q c else s.cube u q c)

    planes-AreDrawn :
        (nz : ℕ) (s : Planes)
        → s.start ≡ seed_at a x 0
        → (k : ℕ) → k ≤ nz
        → AreDrawn k s (times (next_square bits a (a ^ (2 * nx * ny) % 2 ^ 46) nx ny nz) k s)
    unfolding times next_square scan_plane
    planes-AreDrawn nz s e zero le = record {
      seed = e ∙ ap (seed_at a x) (omega arith);
      points = λ u q c.
          let none : (ltb u 0 && (ltb q ny && ltb c nx)) ≡ false = ground arith in rw none refl;
    }
    planes-AreDrawn nz s e (suc k) le =
        let w = 2 * nx * ny in
        let t = times (next_square bits a (a ^ (2 * nx * ny) % 2 ^ 46) nx ny nz) k s in
        let ih = planes-AreDrawn nz s e k (omega (arith, le)) in
        let before : (k == nz) ≡ false = ground (arith, le) in
        let tmp = (vranlc (2 * nx * ny) t.start a t.tmp).1 in
        let plane = plane-PlaneScanned tmp k nx (record { u0 = t.cube; t = 1 }) ny in
        let further : w + w * k ≡ w * suc k = omega arith in
        record {
          seed = rw before (
              ap (λ v. randlc v (a ^ w % 2 ^ 46)) ih.seed
              ∙ jump a w (w * k) x
              ∙ ap (seed_at a x) further);
          points = λ u q c. elim (Bool-cases ((u == k) && (ltb q ny && ltb c nx))) [
            | inl hit ↦
                let now : (ltb u (suc k) && (ltb q ny && ltb c nx)) ≡ true = ground (arith, hit) in
                let same : k ≡ u = ground (arith, hit) in
                plane.points u q c
                ∙ rw (hit, now)
                    (taken-drawn k q c t.start t.tmp ih.seed (ground (arith, hit))
                        (ground (arith, hit))
                      ∙ ap (λ v. drawn v q c) same)
            | inr miss ↦
                let same : (ltb u (suc k) && (ltb q ny && ltb c nx))
                    ≡ (ltb u k && (ltb q ny && ltb c nx)) =
                  ground (arith, miss) in
                plane.points u q c ∙ rw (miss, same) (ih.points u q c)
          ];
        }

    -- `compute_initial_conditions` computes its jumps and gives a grid where, at the plane u
    -- below nz, the row q below ny and the column c below nx, the parts are the conversions of
    -- two numbers of the sequence that follow each other: a to the power 1 + 2 * (nx * q + c) + 2
    -- * nx * ny * u, and one more, times the seed, modulo 2^46; the other points are left alone.
    pub compute_initial_conditions_lem :
        (nz : ℕ) (u0 : Cube) (tmp : ℕ → ℕ)
        → (s : Planes) × (compute_initial_conditions bits a x nx ny nz u0 tmp ≡ some s)
          × ((u q c : ℕ)
              → s.cube u q c
                ≡ (if ltb u nz && (ltb q ny && ltb c nx) then drawn u q c else u0 u q c))
    unfolding compute_initial_conditions
    compute_initial_conditions_lem nz u0 tmp =
        let s : Planes = record { cube = u0; start = randlc x (a ^ 0 % 2 ^ 46); tmp = tmp } in
        let start : s.start ≡ seed_at a x 0 =
          randlc_mod x (a ^ 0 % 2 ^ 46)
          ∙ ap (λ n. n % 2 ^ 46) (mul_comm (a ^ 0 % 2 ^ 46) x)
          ∙ mod-mul x (a ^ 0)
          ∙ ap (λ n. n % 2 ^ 46) (mul_comm x (a ^ 0)) in
        let p = planes-AreDrawn nz s start nz (omega arith) in
        let first : (1 - 1) * 2 * nx * ny + (1 - 1) * 2 * nx ≡ 0 = omega arith in
        let e1 = (power-ipow46 a 0).1 in
        let e2 = (power-ipow46 a (2 * nx * ny)).1 in
        let is_made : compute_initial_conditions bits a x nx ny nz u0 tmp
            ≡ some (times (next_square bits a (a ^ (2 * nx * ny) % 2 ^ 46) nx ny nz) nz s) =
          rw (compute_initial_conditions, first, e1, e2) refl in
        (times (next_square bits a (a ^ (2 * nx * ny) % 2 ^ 46) nx ny nz) nz s, is_made, p.points)
