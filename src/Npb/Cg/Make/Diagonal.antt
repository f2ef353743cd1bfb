-- ===== src/Npb/Cg/Make/Diagonal.antt =====
-- The last loop of `makea` adds to the diagonal.
use hardposit_fpga.Base.{
  ℕ, zero, suc, ◌+◌, ◌-◌, ◌≤◌, ◌≡◌, refl, ◌∙◌, Bool, true, false, inl, inr, Bool-cases, ◌&&◌, ltb,
  ◌==◌, if◌then◌else◌, times, arith,
}
use hardposit_fpga.Npb.Cg.Make.{made, Filled, Shape, between, make_diagonal}
use hardposit_fpga.Npb.Cg.Make.List.{IsInside, value_of, Gives, add_triple-Gives}

module _ (add : ℕ → ℕ → ℕ) (null : ℕ) (g : Shape) (elt : ℕ) where
  abbrev pub is_met : ℕ → ℕ → ℕ → Bool
  is_met k r i = (r == i) && (between g.firstcol g.lastcol i && ltb r (g.firstrow + k))

  abbrev pub diagonal_value : ℕ → Filled → ℕ → ℕ → ℕ
  diagonal_value k m r i =
      if is_met k r i then add (value_of add null g m r i) elt else value_of add null g m r i

  pub make_diagonal-Gives :
      (k : ℕ) (m : Filled)
      → k ≤ g.lastrow + 1 - g.firstrow
      → IsInside g m
      → m.nnza + k ≤ g.nz
      → Gives add null g (make_diagonal g elt k (made m)) (m.nnza + k) (diagonal_value k m)
  unfolding make_diagonal times
  make_diagonal-Gives zero m rows inside room = record {
    filled = m;
    is_made = refl;
    few = omega arith;
    inside = inside;
    values = λ r i e. ground (arith, e);
  }
  make_diagonal-Gives (suc k) m rows inside room =
      let ih = make_diagonal-Gives k m (omega (arith, rows)) inside (omega (arith, room)) in
      let p = g.firstrow + k in
      elim (Bool-cases (between g.firstcol g.lastcol p)) [
        | inl col ↦
            let h =
              add_triple-Gives add null g p p elt ih.filled ih.inside (omega (arith, ih.few, room))
                (ground (arith, rows)) col in
            record {
              filled = h.filled;
              is_made = rw (ih.is_made, col) h.is_made;
              few = omega (arith, h.few, ih.few);
              inside = h.inside;
              values = λ r i e. elim (Bool-cases ((r == p) && (i == p))) [
                | inl at ↦
                    let old : is_met k r i ≡ false = ground (arith, at) in
                    let new : is_met (suc k) r i ≡ true = ground (arith, at, col) in
                    let same : value_of add null g ih.filled r i ≡ value_of add null g m r i =
                      ih.values r i e ∙ rw old refl in
                    h.values r i e ∙ rw (at, new, same) refl
                | inr off ↦
                    let same : is_met (suc k) r i ≡ is_met k r i = ground (arith, off) in
                    let kept : value_of add null g ih.filled r i ≡ diagonal_value k m r i =
                      ih.values r i e in
                    h.values r i e ∙ rw (off, same, kept) refl
              ];
            }
        | inr out ↦ record {
          filled = ih.filled;
          is_made = rw (ih.is_made, out) refl;
          few = omega (arith, ih.few);
          inside = ih.inside;
          values = λ r i e.
              let same : is_met k r i ≡ is_met (suc k) r i = ground (arith, out) in
              ih.values r i e ∙ rw same refl;
        }
      ]
