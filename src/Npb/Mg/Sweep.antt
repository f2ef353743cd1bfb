-- ===== src/Npb/Mg/Sweep.antt =====
-- What nested loops over the points of a grid leave.
use hardposit_fpga.Base.{
  ℕ, zero, suc, ◌+◌, ◌<◌, ◌≡◌, refl, sym, ap, ◌∙◌, Bool, true, false, inl, inr, Bool-cases, leb,
  ltb, ◌&&◌, ◌||◌, ◌==◌, if◌then◌else◌, times, arith,
}
use hardposit_fpga.Npb.Mg.{Grid, put3, sweep_row, sweep_plane, sweep, filled}

-- Whether the loops with these bounds come to an index.
abbrev pub visited : ℕ → ℕ → ℕ → Bool
visited low n i = leb low i && ltb i (low + n)

abbrev pub at_point : ℕ → ℕ → ℕ → ℕ → ℕ → ℕ → Bool
at_point i3 i2 i1 a b c = (a == i3) && ((b == i2) && (c == i1))

pub at_point-same :
    (i3 i2 i1 a b c : ℕ) → at_point i3 i2 i1 a b c ≡ true → (a ≡ i3) × (b ≡ i2) × (c ≡ i1)
at_point-same i3 i2 i1 a b c e = (ground (arith, e), ground (arith, e), ground (arith, e))

module _ {ℓ} {A : Type ℓ} where
  -- A point that passes is updated by its own value; the others keep theirs.
  abbrev pub Updates : (ℕ → ℕ → ℕ → Bool) → (ℕ → ℕ → ℕ → A → A) → (Grid A → Grid A) → Type ℓ
  Updates t f body =
      (u : Grid A) (a b c : ℕ) → body u a b c ≡ (if t a b c then f a b c (u a b c) else u a b c)

  -- A loop of such steps, no two of which come to the same point.
  pub times-Updates :
      (body : ℕ → Grid A → Grid A) (t r : ℕ → ℕ → ℕ → ℕ → Bool) (f : ℕ → ℕ → ℕ → A → A)
      → ((k : ℕ) → Updates (t k) f (body k))
      → ((a b c : ℕ) → r 0 a b c ≡ false)
      → ((k a b c : ℕ) → r (suc k) a b c ≡ (t k a b c || r k a b c))
      → ((k a b c : ℕ) → t k a b c ≡ true → r k a b c ≡ false)
      → (k : ℕ) → Updates (r k) f (times body k)
  unfolding times
  times-Updates body t r f step none more apart zero u a b c = rw (none a b c) refl
  times-Updates body t r f step none more apart (suc k) u a b c =
      let w = times body k u in
      let ih = times-Updates body t r f step none more apart k u a b c in
      elim (Bool-cases (t k a b c)) [
        | inl hit ↦
            let old : w a b c ≡ u a b c = ih ∙ rw (apart k a b c hit) refl in
            step k w a b c ∙ rw (more k a b c, hit) (ap (f a b c) old)
        | inr miss ↦ step k w a b c ∙ rw (more k a b c, miss) ih
      ]

  -- One assignment.
  put3-Updates :
      (i3 i2 i1 : ℕ) (f : ℕ → ℕ → ℕ → A → A)
      → Updates (at_point i3 i2 i1) f (λ u. put3 i3 i2 i1 (f i3 i2 i1 (u i3 i2 i1)) u)
  put3-Updates i3 i2 i1 f u a b c = elim (Bool-cases (at_point i3 i2 i1 a b c)) [
    | inl hit ↦
        let (e3, e2, e1) = at_point-same i3 i2 i1 a b c hit in rw (hit, sym e3, sym e2, sym e1) refl
    | inr miss ↦ rw miss refl
  ]

  sweep_row-Updates :
      (i3 i2 : ℕ) (f : ℕ → ℕ → ℕ → A → A) (low n : ℕ)
      → Updates
          (λ a b c. (a == i3) && ((b == i2) && visited low n c))
          f
          (sweep_row i3 i2 (f i3 i2) low n)
  unfolding sweep_row
  sweep_row-Updates i3 i2 f low =
      times-Updates (λ k w. put3 i3 i2 (low + k) (f i3 i2 (low + k) (w i3 i2 (low + k))) w)
        (λ k. at_point i3 i2 (low + k)) (λ k a b c. (a == i3) && ((b == i2) && visited low k c)) f
        (λ k. put3-Updates i3 i2 (low + k) f) (λ a b c. ground arith) (λ k a b c. ground arith)
        (λ k a b c e. ground (arith, e))

  sweep_plane-Updates :
      (i3 : ℕ) (f : ℕ → ℕ → ℕ → A → A) (low n1 n2 : ℕ)
      → Updates
          (λ a b c. (a == i3) && (visited low n2 b && visited low n1 c))
          f
          (sweep_plane i3 (f i3) low n2 n1)
  unfolding sweep_plane
  sweep_plane-Updates i3 f low n1 =
      times-Updates (λ k. sweep_row i3 (low + k) (f i3 (low + k)) low n1)
        (λ k a b c. (a == i3) && ((b == low + k) && visited low n1 c))
        (λ k a b c. (a == i3) && (visited low k b && visited low n1 c)) f
        (λ k. sweep_row-Updates i3 (low + k) f low n1) (λ a b c. ground arith)
        (λ k a b c. ground arith) (λ k a b c e. ground (arith, e))

  -- The loops change exactly the points that they visit, each once, by its old value.
  pub sweep-Updates :
      (f : ℕ → ℕ → ℕ → A → A) (low n1 n2 n3 : ℕ)
      → Updates
          (λ a b c. visited low n3 a && (visited low n2 b && visited low n1 c))
          f
          (sweep f low n3 n2 n1)
  unfolding sweep
  sweep-Updates f low n1 n2 =
      times-Updates (λ k. sweep_plane (low + k) (f (low + k)) low n2 n1)
        (λ k a b c. (a == low + k) && (visited low n2 b && visited low n1 c))
        (λ k a b c. visited low k a && (visited low n2 b && visited low n1 c)) f
        (λ k. sweep_plane-Updates (low + k) f low n1 n2) (λ a b c. ground arith)
        (λ k a b c. ground arith) (λ k a b c e. ground (arith, e))

  pub filled_lem : (n : ℕ) (row junk : ℕ → A) (x : ℕ) → x < n → filled n row junk x ≡ row x
  unfolding times
  filled_lem zero row junk x lt = absurd (omega (arith, lt))
  filled_lem (suc n) row junk x lt = elim (Bool-cases (x == n)) [
    | inl hit ↦ let e : x ≡ n = ground (arith, hit) in rw hit (ap row (sym e))
    | inr miss ↦ rw miss (filled_lem n row junk x (ground (arith, lt, miss)))
  ]
