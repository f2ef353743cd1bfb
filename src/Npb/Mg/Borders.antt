-- ===== src/Npb/Mg/Borders.antt =====
-- The exchange of the border points.
use hardposit_fpga.Base.{
  ℕ, zero, suc, ◌-◌, ◌≤◌, ◌<◌, ◌≡◌, refl, ◌∙◌, Bool, true, false, inl, inr, Bool-cases, ltb, ◌&&◌,
  ◌||◌, ◌==◌, if◌then◌else◌, times, arith,
}
use hardposit_fpga.Npb.Mg.{Grid, axis1, axis2, axis3, comm3}
use hardposit_fpga.Npb.Mg.Sweep.{visited}

-- The interior index on the other side for a border index, or else the index itself.
abbrev pub wrap : ℕ → ℕ → ℕ
wrap n i = if i == 0 then n - 2 else if i == n - 1 then 1 else i

pub wrap_range : (n i : ℕ) → 3 ≤ n → i < n → (1 ≤ wrap n i) × (wrap n i < n - 1)
wrap_range n i size lt = (ground (arith, size, lt), ground (arith, size, lt))

abbrev Test : Type 0
Test = ℕ → ℕ → ℕ → Bool

module _ {A : Type 0} where
  -- The points that pass get the value of another point; the others keep theirs.
  abbrev Moves : Test → (ℕ → ℕ) → (ℕ → ℕ) → (ℕ → ℕ) → (Grid A → Grid A) → Type 0
  Moves t p3 p2 p1 body =
      (u : Grid A) (a b c : ℕ)
      → body u a b c ≡ (if t a b c then u (p3 a) (p2 b) (p1 c) else u a b c)

  -- A loop of such steps, none of which reads what an earlier one has changed.
  times-Moves :
      (body : ℕ → Grid A → Grid A) (t r : ℕ → ℕ → ℕ → ℕ → Bool) (p3 p2 p1 : ℕ → ℕ)
      → ((k : ℕ) → Moves (t k) p3 p2 p1 (body k))
      → ((a b c : ℕ) → r 0 a b c ≡ false)
      → ((k a b c : ℕ) → r (suc k) a b c ≡ (t k a b c || r k a b c))
      → ((k a b c : ℕ) → t k a b c ≡ true → r k (p3 a) (p2 b) (p1 c) ≡ false)
      → (k : ℕ) → Moves (r k) p3 p2 p1 (times body k)
  unfolding times
  times-Moves body t r p3 p2 p1 move none more apart zero u a b c = rw (none a b c) refl
  times-Moves body t r p3 p2 p1 move none more apart (suc k) u a b c =
      let w = times body k u in
      let ih = times-Moves body t r p3 p2 p1 move none more apart k u in
      elim (Bool-cases (t k a b c)) [
        | inl hit ↦
            move k w a b c
            ∙ rw (more k a b c, hit) (ih (p3 a) (p2 b) (p1 c) ∙ rw (apart k a b c hit) refl)
        | inr miss ↦ move k w a b c ∙ rw (more k a b c, miss) (ih a b c)
      ]

  either : (t : Bool) {x y : A} → x ≡ y → (if t then x else x) ≡ y
  either true e = e
  either false e = e

  module _ (n1 n2 n3 : ℕ) (size1 : 3 ≤ n1) (size2 : 3 ≤ n2) (size3 : 3 ≤ n3) where
    axis1-Moves :
        (i3 i2 : ℕ)
        → Moves (λ a b c. (a == i3) && (b == i2)) (λ a. a) (λ b. b) (wrap n1) (axis1 n1 i3 i2)
    axis1-Moves i3 i2 u a b c = elim (Bool-cases ((a == i3) && (b == i2))) [
      | inl hit ↦
          let e3 : i3 ≡ a = ground (arith, hit) in
          let e2 : i2 ≡ b = ground (arith, hit) in rw (e3, e2) (ground (arith, size1))
      | inr miss ↦ rw miss (ground (arith, miss))
    ]

    axis2-Moves :
        (i3 i1 : ℕ)
        → Moves (λ a b c. (a == i3) && (c == i1)) (λ a. a) (wrap n2) (λ c. c) (axis2 n2 i3 i1)
    axis2-Moves i3 i1 u a b c = elim (Bool-cases ((a == i3) && (c == i1))) [
      | inl hit ↦
          let e3 : i3 ≡ a = ground (arith, hit) in
          let e1 : i1 ≡ c = ground (arith, hit) in rw (e3, e1) (ground (arith, size2))
      | inr miss ↦ rw miss (ground (arith, miss))
    ]

    axis3-Moves :
        (i2 i1 : ℕ)
        → Moves (λ a b c. (b == i2) && (c == i1)) (wrap n3) (λ b. b) (λ c. c) (axis3 n3 i2 i1)
    axis3-Moves i2 i1 u a b c = elim (Bool-cases ((b == i2) && (c == i1))) [
      | inl hit ↦
          let e2 : i2 ≡ b = ground (arith, hit) in
          let e1 : i1 ≡ c = ground (arith, hit) in rw (e2, e1) (ground (arith, size3))
      | inr miss ↦ rw miss (ground (arith, miss))
    ]

    rows-Moves :
        (i3 k : ℕ)
        → Moves
            (λ a b c. (a == i3) && visited 1 k b)
            (λ a. a)
            (λ b. b)
            (wrap n1)
            (times (λ m. axis1 n1 i3 (suc m)) k)
    rows-Moves i3 =
        times-Moves (λ m. axis1 n1 i3 (suc m)) (λ m a b c. (a == i3) && (b == suc m))
          (λ k a b c. (a == i3) && visited 1 k b) (λ a. a) (λ b. b) (wrap n1)
          (λ m. axis1-Moves i3 (suc m)) (λ a b c. ground arith) (λ k a b c. ground arith)
          (λ k a b c e. ground (arith, e))

    columns-Moves :
        (i3 k : ℕ)
        → Moves (λ a b c. (a == i3) && ltb c k) (λ a. a) (wrap n2) (λ c. c) (times (axis2 n2 i3) k)
    columns-Moves i3 =
        times-Moves (axis2 n2 i3) (λ m a b c. (a == i3) && (c == m))
          (λ k a b c. (a == i3) && ltb c k) (λ a. a) (wrap n2) (λ c. c) (axis2-Moves i3)
          (λ a b c. ground arith) (λ k a b c. ground arith) (λ k a b c e. ground (arith, e))

    -- The two steps leave the points beyond the grid alone.
    plane_kept :
        (i3 : ℕ) (u : Grid A) (a b c : ℕ)
        → (ltb b n2 && ltb c n1) ≡ false
        → (let w = times (λ m. axis1 n1 i3 (suc m)) (n2 - 2) u in
            if (a == i3) && ltb c n1 then w a (wrap n2 b) c else w a b c)
          ≡ u a b c
    plane_kept i3 u a b c outside =
        let w = times (λ m. axis1 n1 i3 (suc m)) (n2 - 2) u in
        let y = rows-Moves i3 (n2 - 2) u a (wrap n2 b) c in
        let z = rows-Moves i3 (n2 - 2) u a b c in
        elim (Bool-cases (ltb c n1)) [
          | inl near ↦
              let far : wrap n2 b ≡ b = ground (arith, near, outside, size2) in
              let unseen : ((a == i3) && visited 1 (n2 - 2) b) ≡ false =
                ground (arith, near, outside) in
              let a1 : w a b c ≡ u a b c = z ∙ rw unseen refl in
              rw far (either ((a == i3) && ltb c n1) a1)
          | inr far ↦
              let out : wrap n1 c ≡ c = ground (arith, far, size1) in
              let a1 : w a b c ≡ u a b c =
                z ∙ rw out (either ((a == i3) && visited 1 (n2 - 2) b) refl) in
              let skipped : ((a == i3) && ltb c n1) ≡ false = ground (arith, far) in rw skipped a1
        ]

    plane : ℕ → Grid A → Grid A
    plane i3 u = times (axis2 n2 i3) n1 (times (λ m. axis1 n1 i3 (suc m)) (n2 - 2) u)

    plane-Moves :
        (i3 : ℕ)
        → Moves
            (λ a b c. (a == i3) && (ltb b n2 && ltb c n1))
            (λ a. a)
            (wrap n2)
            (wrap n1)
            (plane i3)
    unfolding plane
    plane-Moves i3 u a b c =
        let w = times (λ m. axis1 n1 i3 (suc m)) (n2 - 2) u in
        let x = columns-Moves i3 n1 w a b c in
        let y = rows-Moves i3 (n2 - 2) u a (wrap n2 b) c in
        let z = rows-Moves i3 (n2 - 2) u a b c in
        let test = λ (d : Bool). if d then w a (wrap n2 b) c else w a b c in
        elim (Bool-cases (a == i3)) [
          | inl on ↦ elim (Bool-cases (ltb b n2 && ltb c n1)) [
            | inl inside ↦
                let r = wrap_range n2 b size2 (ground (arith, inside)) in
                let col : ltb c n1 ≡ true = ground (arith, inside) in
                let seen : visited 1 (n2 - 2) (wrap n2 b) ≡ true = ground (arith, r.0, r.1) in
                let a1 : test ((a == i3) && ltb c n1) ≡ w a (wrap n2 b) c = rw (on, col) refl in
                let a2 : w a (wrap n2 b) c ≡ u a (wrap n2 b) (wrap n1 c) = y ∙ rw (on, seen) refl in
                rw (on, inside) (x ∙ a1 ∙ a2)
            | inr outside ↦ let kept = plane_kept i3 u a b c outside in rw (on, outside) (x ∙ kept)
          ]
          | inr off ↦
              let a1 : test ((a == i3) && ltb c n1) ≡ w a b c = rw off refl in
              let a2 : w a b c ≡ u a b c = z ∙ rw off refl in rw off (x ∙ a1 ∙ a2)
        ]

    layers-Moves :
        (i2 k : ℕ)
        → Moves (λ a b c. (b == i2) && ltb c k) (wrap n3) (λ b. b) (λ c. c) (times (axis3 n3 i2) k)
    layers-Moves i2 =
        times-Moves (axis3 n3 i2) (λ m a b c. (b == i2) && (c == m))
          (λ k a b c. (b == i2) && ltb c k) (wrap n3) (λ b. b) (λ c. c) (axis3-Moves i2)
          (λ a b c. ground arith) (λ k a b c. ground arith) (λ k a b c e. ground (arith, e))

    ends-Moves :
        (k : ℕ)
        → Moves
            (λ a b c. ltb b k && ltb c n1)
            (wrap n3)
            (λ b. b)
            (λ c. c)
            (times (λ i2. times (axis3 n3 i2) n1) k)
    ends-Moves =
        times-Moves (λ i2. times (axis3 n3 i2) n1) (λ m a b c. (b == m) && ltb c n1)
          (λ k a b c. ltb b k && ltb c n1) (wrap n3) (λ b. b) (λ c. c) (λ m. layers-Moves m n1)
          (λ a b c. ground arith) (λ k a b c. ground arith) (λ k a b c e. ground (arith, e))

    planes-Moves :
        (k : ℕ)
        → Moves
            (λ a b c. visited 1 k a && (ltb b n2 && ltb c n1))
            (λ a. a)
            (wrap n2)
            (wrap n1)
            (times (λ m. plane (suc m)) k)
    planes-Moves =
        times-Moves (λ m. plane (suc m)) (λ m a b c. (a == suc m) && (ltb b n2 && ltb c n1))
          (λ k a b c. visited 1 k a && (ltb b n2 && ltb c n1)) (λ a. a) (wrap n2) (wrap n1)
          (λ m. plane-Moves (suc m)) (λ a b c. ground arith) (λ k a b c. ground arith)
          (λ k a b c e. ground (arith, e))

    -- After the exchange every point of the grid has the value that the interior point at the
    -- wrapped indices had.
    pub comm3_lem :
        (u : Grid A) (a b c : ℕ)
        → a < n3
        → b < n2
        → c < n1
        → comm3 n1 n2 n3 u a b c ≡ u (wrap n3 a) (wrap n2 b) (wrap n1 c)
    unfolding comm3 plane
    comm3_lem u a b c la lb lc =
        let w = times (λ m. plane (suc m)) (n3 - 2) u in
        let x = ends-Moves n2 w a b c in
        let y = planes-Moves (n3 - 2) u (wrap n3 a) b c in
        let first : (ltb b n2 && ltb c n1) ≡ true = ground (arith, lb, lc) in
        let r = wrap_range n3 a size3 la in
        let second : visited 1 (n3 - 2) (wrap n3 a) ≡ true = ground (arith, r.0, r.1) in
        let before : w (wrap n3 a) b c ≡ u (wrap n3 a) (wrap n2 b) (wrap n1 c) =
          y ∙ rw (second, first) refl in
        x ∙ rw first before
