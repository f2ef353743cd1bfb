-- ===== src/Npb/Mg/Pairs.antt =====
-- The loops of `interp` over a row of the fine grid, which add to an even and an odd place.
use hardposit_fpga.Base.{
  ℕ, ◌+◌, ◌*◌, ◌/◌, ◌%◌, ◌≡◌, refl, sym, ap, ◌∙◌, true, false, inl, inr, Bool-cases, ltb, ◌&&◌,
  ◌==◌, if◌then◌else◌, arith,
}
use hardposit_fpga.Npb.Mg.{Grid, Arith, put3, add_pairs}
use hardposit_fpga.Npb.Mg.Sweep.{at_point, at_point-same, Updates, times-Updates}

-- The number for an even or an odd place.
abbrev pub pair {ℓ} : {A : Type ℓ} → (ℕ → A) → (ℕ → A) → ℕ → A
pair even odd c = if c % 2 == 0 then even (c / 2) else odd (c / 2)

module _ {A : Type 0} (o : Arith A) where
  module _ (a b : ℕ) (even odd : ℕ → A) where
    abbrev added : ℕ → ℕ → ℕ → A → A
    added x y c v = o.add v (pair even odd c)

    abbrev add_pair : ℕ → Grid A → Grid A
    add_pair i1 w =
        let w' = put3 a b (2 * i1) (o.add (w a b (2 * i1)) (even i1)) w in
        put3 a b (2 * i1 + 1) (o.add (w' a b (2 * i1 + 1)) (odd i1)) w'

    add_pair-Updates :
        (k : ℕ) → Updates (λ x y c. (x == a) && ((y == b) && (c / 2 == k))) added (add_pair k)
    add_pair-Updates k u x y c =
        let w : Grid A = put3 a b (2 * k) (o.add (u a b (2 * k)) (even k)) u in
        elim (Bool-cases (at_point a b (2 * k + 1) x y c)) [
          | inl hit ↦
              let (e3, e2, e1) = at_point-same a b (2 * k + 1) x y c hit in
              let here : ((x == a) && ((y == b) && (c / 2 == k))) ≡ true = ground (arith, hit) in
              let is_odd : (c % 2 == 0) ≡ false = ground (arith, hit) in
              let half : c / 2 ≡ k = omega (arith, e1) in
              let miss : at_point a b (2 * k) x y c ≡ false = ground (arith, hit) in
              let old : w x y c ≡ u x y c = rw miss refl in
              let same : w a b (2 * k + 1) ≡ w x y c = rw (e3, e2, e1) refl in
              let val : pair even odd c ≡ odd k = rw (is_odd, half, pair) refl in
              rw (hit, here)
                (ap (λ v. o.add v (odd k)) (same ∙ old) ∙ ap (o.add (u x y c)) (sym val))
          | inr odd_miss ↦ elim (Bool-cases (at_point a b (2 * k) x y c)) [
            | inl hit ↦
                let (e3, e2, e1) = at_point-same a b (2 * k) x y c hit in
                let here : ((x == a) && ((y == b) && (c / 2 == k))) ≡ true = ground (arith, hit) in
                let is_even : (c % 2 == 0) ≡ true = ground (arith, hit) in
                let half : c / 2 ≡ k = omega (arith, e1) in
                let same : u a b (2 * k) ≡ u x y c = rw (e3, e2, e1) refl in
                let val : pair even odd c ≡ even k = rw (is_even, half, pair) refl in
                rw (odd_miss, hit, here)
                  (ap (λ v. o.add v (even k)) same ∙ ap (o.add (u x y c)) (sym val))
            | inr miss ↦
                let away : ((x == a) && ((y == b) && (c / 2 == k))) ≡ false =
                  ground (arith, odd_miss, miss) in
                rw (odd_miss, miss, away) refl
          ]
        ]

    pub add_pairs-Updates :
        (n : ℕ)
        → Updates
            (λ x y c. (x == a) && ((y == b) && ltb c (2 * n)))
            added
            (add_pairs o a b even odd n)
    unfolding add_pairs
    add_pairs-Updates =
        times-Updates add_pair (λ k x y c. (x == a) && ((y == b) && (c / 2 == k)))
          (λ n x y c. (x == a) && ((y == b) && ltb c (2 * n))) added add_pair-Updates
          (λ x y c. ground arith) (λ k x y c. ground arith) (λ k x y c e. ground (arith, e))
