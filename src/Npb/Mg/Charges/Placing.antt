-- ===== src/Npb/Mg/Charges/Placing.antt =====
-- Where the charges are.
use hardposit_fpga.Base.{
  ℕ, ◌≤◌, ◌<◌, ◌≡◌, refl, ◌∙◌, Bool, false, inl, inr, Bool-cases, List, [], ◌∷◌, ◌&&◌, ◌||◌, ◌==◌,
  if◌then◌else◌, arith,
}
use hardposit_fpga.Npb.Bubble.{Row}
use hardposit_fpga.Npb.Mg.{Grid, zero3}
use hardposit_fpga.Npb.Mg.Borders.{wrap, wrap_range, comm3_lem}
use hardposit_fpga.Npb.Mg.Cycle.Same.{zero3-Same}
use hardposit_fpga.Npb.Mg.Charges.{Tens, put_charges, charge}

-- Whether one of the rows is at a point.
abbrev pub is_at : List Row → ℕ → ℕ → ℕ → Bool
is_at [] a b c = false
is_at (x ∷ rows) a b c = ((a == x.j3) && ((b == x.j2) && (c == x.j1))) || is_at rows a b c

put_charges_lem :
    (v : ℕ) (rows : List Row) (z : Grid ℕ) (a b c : ℕ)
    → put_charges v rows z a b c ≡ (if is_at rows a b c then v else z a b c)
unfolding put_charges
put_charges_lem v [] z a b c = refl
put_charges_lem v (x ∷ rows) z a b c =
    elim (Bool-cases ((a == x.j3) && ((b == x.j2) && (c == x.j1)))) [
      | inl e ↦ rw e refl
      | inr e ↦ rw e (put_charges_lem v rows z a b c)
    ]

-- On a grid with at least three points on each side, every point has the charge of the interior
-- point of the wrapped indices: 1 at a row of the largest, else -1 at one of the smallest, else zero.
pub charge_lem :
    (null one minus n1 n2 n3 : ℕ) (t : Tens) (z : Grid ℕ) (a b c : ℕ)
    → 3 ≤ n1
    → 3 ≤ n2
    → 3 ≤ n3
    → a < n3
    → b < n2
    → c < n1
    → charge null one minus n1 n2 n3 t z a b c ≡ (
        if is_at t.largest (wrap n3 a) (wrap n2 b) (wrap n1 c)
        then one
        else if is_at t.smallest (wrap n3 a) (wrap n2 b) (wrap n1 c)
        then minus
        else null)
unfolding charge
charge_lem null one minus n1 n2 n3 t z a b c s1 s2 s3 la lb lc =
    let x = wrap n3 a in
    let y = wrap n2 b in
    let i = wrap n1 c in
    let r3 = wrap_range n3 a s3 la in
    let r2 = wrap_range n2 b s2 lb in
    let r1 = wrap_range n1 c s1 lc in
    let clear = zero3 null n1 n2 n3 z in
    let low = put_charges minus t.smallest clear in
    comm3_lem n1 n2 n3 s1 s2 s3 (put_charges one t.largest low) a b c la lb lc
    ∙ put_charges_lem one t.largest low x y i
    ∙ rw
        (
          put_charges_lem minus t.smallest clear x y i,
          zero3-Same null n1 n2 n3 z x y i (omega (arith, r3.1)) (omega (arith, r2.1))
              (omega (arith, r1.1)),
        )
        refl
