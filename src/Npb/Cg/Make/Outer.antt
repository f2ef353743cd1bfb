-- ===== src/Npb/Cg/Make/Outer.antt =====
-- One round of `makea` adds the outer product of a sparse vector with itself.
use hardposit_fpga.Base.{
  ℕ, zero, suc, ◌+◌, ◌*◌, ◌≤◌, ◌≡◌, refl, sym, ◌∙◌, true, false, inl, inr, Bool-cases, ◌&&◌, ◌==◌,
  if◌then◌else◌, times, arith,
}
use hardposit_fpga.Npb.Cg.{Draw}
use hardposit_fpga.Npb.Cg.Vectors.{occurs, AreDistinct}
use hardposit_fpga.Npb.Cg.Sparse.Totals.{lookup}
use hardposit_fpga.Npb.Cg.Vectors.{AreDistinct-at}
use hardposit_fpga.Npb.Cg.Make.{made, Filled, Shape, between, make_column, make_outer}
use hardposit_fpga.Npb.Cg.Make.List.{IsInside, value_of, Gives, add_triple-Gives}

-- The value of the vector at an index, among its first k entries.
abbrev pub look : ℕ → Draw → ℕ → ℕ → ℕ
look null d x k = lookup null x k (λ l. d.v (suc l)) (λ l. d.iv (suc l))

other-row :
    (low high r irow : ℕ)
    → between low high r ≡ true
    → between low high irow ≡ false
    → (r == irow) ≡ false
other-row low high r irow e out = ground (arith, e, out)

module _ (add mul : ℕ → ℕ → ℕ) (null : ℕ) (g : Shape) (d : Draw) where
  -- What the first l rounds of the inner loop add to an element.
  abbrev column_value : ℕ → ℕ → ℕ → Filled → ℕ → ℕ → ℕ
  column_value jcol scale l m r i =
      if (i == jcol) && occurs r l d.iv
      then add (value_of add null g m r i) (mul (look null d r l) scale)
      else value_of add null g m r i

  -- The next entry is of another row.
  column-other :
      (jcol scale l r i : ℕ) (m : Filled)
      → (r == d.iv (suc l)) ≡ false
      → column_value jcol scale (suc l) m r i ≡ column_value jcol scale l m r i
  column-other jcol scale l r i m ne =
      let ne' : (d.iv (suc l) == r) ≡ false = ground (arith, ne) in rw (ne, ne') refl

  -- The next entry is of this row: it is the first one.
  column-this :
      (jcol scale l r i : ℕ) (m : Filled)
      → (r == d.iv (suc l)) ≡ true
      → occurs (d.iv (suc l)) l d.iv ≡ false
      → column_value jcol scale (suc l) m r i ≡ (
          if i == jcol
          then add (column_value jcol scale l m r i) (mul (d.v (suc l)) scale)
          else column_value jcol scale l m r i)
  column-this jcol scale l r i m e fresh =
      let e' : (d.iv (suc l) == r) ≡ true = ground (arith, e) in
      let same : r ≡ d.iv (suc l) = ground (arith, e) in
      let none : occurs r l d.iv ≡ false = rw same fresh in
      rw (e, e', none) (elim (Bool-cases (i == jcol)) [ inl c ↦ rw c refl | inr c ↦ rw c refl ])

  pub make_column-Gives :
      (jcol scale l : ℕ) (m : Filled)
      → between g.firstcol g.lastcol jcol ≡ true
      → AreDistinct d.nzv d.iv
      → l ≤ d.nzv
      → IsInside g m
      → m.nnza + l ≤ g.nz
      → Gives add null g
          (make_column mul g d jcol scale l (made m))
          (m.nnza + l)
          (column_value jcol scale l m)
  unfolding make_column times
  make_column-Gives jcol scale zero m col distinct le inside room = record {
    filled = m;
    is_made = refl;
    few = omega arith;
    inside = inside;
    values = λ r i e. ground arith;
  }
  make_column-Gives jcol scale (suc l) m col distinct le inside room =
      let ih =
        make_column-Gives jcol scale l m col distinct (omega (arith, le)) inside
          (omega (arith, room)) in
      let irow = d.iv (suc l) in
      let fresh = AreDistinct-at d.nzv l d.iv distinct le in
      elim (Bool-cases (between g.firstrow g.lastrow irow)) [
        | inl row ↦
            let h =
              add_triple-Gives add null g irow jcol (mul (d.v (suc l)) scale) ih.filled ih.inside
                (omega (arith, ih.few, room)) row col in
            record {
              filled = h.filled;
              is_made = rw (ih.is_made, row) h.is_made;
              few = omega (arith, h.few, ih.few);
              inside = h.inside;
              values = λ r i e. elim (Bool-cases (r == irow)) [
                | inl this ↦
                    let a = column-this jcol scale l r i m this fresh in
                    let b : (if (r == irow) && (i == jcol)
                          then add (value_of add null g ih.filled r i) (mul (d.v (suc l)) scale)
                          else value_of add null g ih.filled r i)
                        ≡ (if i == jcol
                            then add (column_value jcol scale l m r i) (mul (d.v (suc l)) scale)
                            else column_value jcol scale l m r i) =
                      rw (this, ih.values r i e) refl in
                    h.values r i e ∙ b ∙ sym a
                | inr other ↦
                    h.values r i e
                    ∙ (rw other (ih.values r i e))
                    ∙ sym (column-other jcol scale l r i m other)
              ];
            }
        | inr out ↦ record {
          filled = ih.filled;
          is_made = rw (ih.is_made, out) refl;
          few = omega (arith, ih.few);
          inside = ih.inside;
          values = λ r i e.
              ih.values r i e
              ∙ sym (column-other jcol scale l r i m (other-row g.firstrow g.lastrow r irow e out));
        }
      ]

  -- What the first k rounds of the outer loop add to an element.
  abbrev pub outer_value : ℕ → ℕ → Filled → ℕ → ℕ → ℕ
  outer_value size k m r i =
      if occurs i k d.iv && (between g.firstcol g.lastcol i && occurs r d.nzv d.iv)
      then add (value_of add null g m r i) (mul (look null d r d.nzv) (mul size (look null d i k)))
      else value_of add null g m r i

  outer-other :
      (size k r i : ℕ) (m : Filled)
      → (i == d.iv (suc k)) ≡ false
      → outer_value size (suc k) m r i ≡ outer_value size k m r i
  outer-other size k r i m ne =
      let ne' : (d.iv (suc k) == i) ≡ false = ground (arith, ne) in rw (ne, ne') refl

  outer-this :
      (size k r i : ℕ) (m : Filled)
      → (i == d.iv (suc k)) ≡ true
      → between g.firstcol g.lastcol (d.iv (suc k)) ≡ true
      → occurs (d.iv (suc k)) k d.iv ≡ false
      → outer_value size (suc k) m r i ≡ (
          if occurs r d.nzv d.iv
          then add (outer_value size k m r i) (mul (look null d r d.nzv) (mul size (d.v (suc k))))
          else outer_value size k m r i)
  outer-this size k r i m e col fresh =
      let e' : (d.iv (suc k) == i) ≡ true = ground (arith, e) in
      let same : i ≡ d.iv (suc k) = ground (arith, e) in
      let none : occurs i k d.iv ≡ false = rw same fresh in
      let col' : between g.firstcol g.lastcol i ≡ true = rw same col in
      rw (e, e', none, col')
        (elim (Bool-cases (occurs r d.nzv d.iv)) [ inl c ↦ rw c refl | inr c ↦ rw c refl ])

  outer-outside :
      (size k r i : ℕ) (m : Filled)
      → between g.firstcol g.lastcol (d.iv (suc k)) ≡ false
      → occurs (d.iv (suc k)) k d.iv ≡ false
      → outer_value size (suc k) m r i ≡ outer_value size k m r i
  outer-outside size k r i m out fresh = elim (Bool-cases (i == d.iv (suc k))) [
    | inl e ↦
        let e' : (d.iv (suc k) == i) ≡ true = ground (arith, e) in
        let same : i ≡ d.iv (suc k) = ground (arith, e) in
        let none : occurs i k d.iv ≡ false = rw same fresh in
        let out' : between g.firstcol g.lastcol i ≡ false = rw same out in
        rw (e, e', none, out') refl
    | inr ne ↦ outer-other size k r i m ne
  ]

  pub make_outer-Gives :
      (size k : ℕ) (m : Filled)
      → AreDistinct d.nzv d.iv
      → k ≤ d.nzv
      → IsInside g m
      → m.nnza + k * d.nzv ≤ g.nz
      → Gives add null g
          (make_outer mul g d size k (made m))
          (m.nnza + k * d.nzv)
          (outer_value size k m)
  unfolding make_outer times
  make_outer-Gives size zero m distinct le inside room = record {
    filled = m;
    is_made = refl;
    few = omega arith;
    inside = inside;
    values = λ r i e. refl;
  }
  make_outer-Gives size (suc k) m distinct le inside room =
      let step : suc k * d.nzv ≡ k * d.nzv + d.nzv = omega arith in
      let ih =
        make_outer-Gives size k m distinct (omega (arith, le)) inside (omega (arith, room, step)) in
      let jcol = d.iv (suc k) in
      let fresh = AreDistinct-at d.nzv k d.iv distinct le in
      elim (Bool-cases (between g.firstcol g.lastcol jcol)) [
        | inl col ↦
            let scale = mul size (d.v (suc k)) in
            let h =
              make_column-Gives jcol scale d.nzv ih.filled col distinct (omega arith) ih.inside
                (omega (arith, ih.few, room, step)) in
            record {
              filled = h.filled;
              is_made = rw (ih.is_made, col) h.is_made;
              few = omega (arith, h.few, ih.few, step);
              inside = h.inside;
              values = λ r i e. elim (Bool-cases (i == jcol)) [
                | inl this ↦
                    let b : column_value jcol scale d.nzv ih.filled r i ≡ (
                        if occurs r d.nzv d.iv
                        then add (outer_value size k m r i) (mul (look null d r d.nzv) scale)
                        else outer_value size k m r i) =
                      rw (this, ih.values r i e) refl in
                    h.values r i e ∙ b ∙ sym (outer-this size k r i m this col fresh)
                | inr other ↦
                    let b : column_value jcol scale d.nzv ih.filled r i ≡ outer_value size k m r i =
                      rw (other, ih.values r i e) refl in
                    h.values r i e ∙ b ∙ sym (outer-other size k r i m other)
              ];
            }
        | inr out ↦ record {
          filled = ih.filled;
          is_made = rw (ih.is_made, out) refl;
          few = omega (arith, ih.few, step);
          inside = ih.inside;
          values = λ r i e. ih.values r i e ∙ sym (outer-outside size k r i m out fresh);
        }
      ]
