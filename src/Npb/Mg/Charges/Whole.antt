-- ===== src/Npb/Mg/Charges/Whole.antt =====
-- `zran3` as a whole.
use hardposit_fpga.Base.{
  ℕ, zero, suc, ◌-◌, ◌*◌, ◌%◌, ◌^◌, ◌≤◌, ◌<◌, ◌≡◌, refl, Bool, true, false, inl, inr, Bool-cases,
  List, [], some, ◌&&◌, if◌then◌else◌, times, ◌∙◌, arith,
}
use hardposit_fpga.Npb.Bubble.{Row, out_of_order}
use hardposit_fpga.Npb.Bubble.Order.{InOrder}
use hardposit_fpga.Npb.Mg.{Grid, zero3}
use hardposit_fpga.Npb.Mg.Borders.{wrap}
use hardposit_fpga.Npb.Mg.Charges.{
  Tens, Numbers, blank_rows, search, place_charges, zran3, ask_best, first_best,
}
use hardposit_fpga.Npb.Mg.Charges.Search.{IsSelected, grid_points, search_lem}
use hardposit_fpga.Npb.Mg.Charges.Placing.{is_at, charge_lem}
use hardposit_fpga.Npb.Mg.Charges.Filling.{within, number_of, fill_lem}

-- The tests are strict orders: asymmetric, and their negations transitive.
pub record IsStrict (g : Numbers) (ind : Bool) : Type 0 where
  pub asymmetric :
      (x y : ℕ)
      → out_of_order g.greater g.less ind x y ≡ true
      → out_of_order g.greater g.less ind y x ≡ false
  pub transitive :
      (x y z : ℕ)
      → out_of_order g.greater g.less ind x y ≡ false
      → out_of_order g.greater g.less ind y z ≡ false
      → out_of_order g.greater g.less ind x z ≡ false

irreflexive :
    (g : Numbers) (ind : Bool)
    → IsStrict g ind
    → (x : ℕ) → out_of_order g.greater g.less ind x x ≡ false
irreflexive g ind strict x = elim (Bool-cases (out_of_order g.greater g.less ind x x)) [
  | inl e ↦ strict.asymmetric x x e
  | inr e ↦ e
]

blank_rows-InOrder :
    (g : Numbers) (ind : Bool)
    → IsStrict g ind
    → (v ten : ℕ) → InOrder g.greater g.less ind (blank_rows v ten)
unfolding blank_rows
blank_rows-InOrder g ind strict v zero = tt
blank_rows-InOrder g ind strict v (suc zero) = tt
blank_rows-InOrder g ind strict v (suc (suc ten)) =
    (irreflexive g ind strict v, blank_rows-InOrder g ind strict v (suc ten))

-- A number equals itself, so all rows are the best of all processors.
asked-best :
    (z : Grid ℕ) (rows : List Row) (k ten : ℕ) → times (λ i. ask_best z rows) k ten ≡ ten - k
unfolding times
asked-best z rows zero ten = omega arith
asked-best z rows (suc k) ten = let ih = asked-best z rows k ten in ground (arith, ih)

first_best-zero : (z : Grid ℕ) (rows : List Row) (ten : ℕ) → first_best z rows ten ≡ 0
unfolding first_best
first_best-zero z rows ten = asked-best z rows ten ten ∙ omega arith

module _ (g : Numbers) (up : IsStrict g true) (low : IsStrict g false) where
  -- The charges of a grid: those of the largest and of the smallest of the points.
  pub record AreCharges (ten n1 n2 n3 : ℕ) (w out : Grid ℕ) : Type 0 where
    pub positive : List Row
    pub negative : List Row
    pub are_largest :
        IsSelected g.greater g.less true
          (blank_rows g.null ten)
          (grid_points w (n1 - 2) (n2 - 2) (n3 - 2) [])
          positive
    pub are_smallest :
        IsSelected g.greater g.less false
          (blank_rows g.one ten)
          (grid_points w (n1 - 2) (n2 - 2) (n3 - 2) [])
          negative
    pub values :
        (i3 i2 i1 : ℕ)
        → i3 < n3
        → i2 < n2
        → i1 < n1
        → out i3 i2 i1 ≡ (
            if is_at positive (wrap n3 i3) (wrap n2 i2) (wrap n1 i1)
            then g.one
            else if is_at negative (wrap n3 i3) (wrap n2 i2) (wrap n1 i1)
            then g.minus
            else g.null)

  place_charges-AreCharges :
      (ten n1 n2 n3 : ℕ) (w : Grid ℕ)
      → 3 ≤ n1
      → 3 ≤ n2
      → 3 ≤ n3
      → AreCharges ten n1 n2 n3 w (place_charges g ten n1 n2 n3 w)
  unfolding place_charges
  place_charges-AreCharges ten n1 n2 n3 w s1 s2 s3 =
      let start : Tens = record {
        largest = blank_rows g.null ten;
        smallest = blank_rows g.one ten;
      } in
      let t = search g.greater g.less w n1 n2 n3 start in
      record {
        positive = t.largest;
        negative = t.smallest;
        are_largest =
            search_lem g.greater g.less true up.asymmetric up.transitive w n1 n2 n3 start
              (blank_rows-InOrder g true up g.null ten);
        are_smallest =
            search_lem g.greater g.less false low.asymmetric low.transitive w n1 n2 n3 start
              (blank_rows-InOrder g false low g.one ten);
        values =
            let up_all = first_best-zero w t.largest ten in
            let low_all = first_best-zero w t.smallest ten in
            rw (up_all, low_all)
              (λ a b c. charge_lem g.null g.one g.minus n1 n2 n3 t w a b c s1 s2 s3);
      }

  -- If the grid has at least three points on each side and the tests `>` and `<` are asymmetric
  -- with transitive negations, `zran3` gives a result. It is made from a grid w with, at each
  -- point of nz planes of ny rows of nx points, the conversion of a to the power of its place
  -- times the first seed, modulo 2^46, and zero3's values elsewhere: the result is 1 at the
  -- points of one list of rows, else -1 at those of a second, else zero, with the borders
  -- wrapped. Each list is in order and has as many rows as charges were asked for; it is what is
  -- left of the interior points of w and of the blank rows when some that do not beat its first
  -- row are dropped.
  pub zran3_lem :
      (ten n1 n2 n3 nx ny nz x : ℕ) (z : Grid ℕ)
      → 3 ≤ n1
      → 3 ≤ n2
      → 3 ≤ n3
      → (w : Grid ℕ) × (out : Grid ℕ) × (zran3 g ten n1 n2 n3 nx ny nz x z ≡ some out)
        × ((i3 i2 i1 : ℕ)
            → w i3 i2 i1 ≡ (
                if within nz i3 && (within ny i2 && within nx i1)
                then g.bits (g.a ^ number_of nx ny i3 i2 i1 * x % 2 ^ 46)
                else zero3 g.null n1 n2 n3 z i3 i2 i1))
        × AreCharges ten n1 n2 n3 w out
  unfolding zran3
  zran3_lem ten n1 n2 n3 nx ny nz x z s1 s2 s3 =
      let f = fill_lem g.bits g.a nx x ny nz (zero3 g.null n1 n2 n3 z) in
      let e = f.1 in
      (
        f.0,
        place_charges g ten n1 n2 n3 f.0,
        rw (zran3, e) refl,
        f.2,
        place_charges-AreCharges ten n1 n2 n3 f.0 s1 s2 s3,
      )
