-- ===== src/Npb/Mg/Charges/Search.antt =====
-- The search keeps the largest, or smallest, numbers that it has seen.
use mathlib.Core.List.{Perm, perm_middle}
use mathlib.Core.List.Perm
use hardposit_fpga.Base.{
  ℕ, zero, suc, ◌-◌, ◌≡◌, refl, ap, ◌∙◌, Bool, true, false, inl, inr, Bool-cases, List, [], ◌∷◌,
  ◌++◌, length, times,
}
use hardposit_fpga.Npb.Bubble.{Row, out_of_order, bubble}
use hardposit_fpga.Npb.Bubble.Order.{InOrder, bubble_lem}
use hardposit_fpga.Npb.Mg.{Grid}
use hardposit_fpga.Npb.Mg.Charges.{Tens, point, consider, consider_both, search}

-- The points of a row, of a plane and of the interior, before those seen already; the one seen last
-- is at the front.
abbrev pub row_points : Grid ℕ → ℕ → ℕ → ℕ → List Row → List Row
row_points z i3 i2 zero seen = seen
row_points z i3 i2 (suc k) seen = point z i3 i2 (suc k) ∷ row_points z i3 i2 k seen

abbrev pub plane_points : Grid ℕ → ℕ → ℕ → ℕ → List Row → List Row
plane_points z i3 n1 zero seen = seen
plane_points z i3 n1 (suc k) seen = row_points z i3 (suc k) n1 (plane_points z i3 n1 k seen)

abbrev pub grid_points : Grid ℕ → ℕ → ℕ → ℕ → List Row → List Row
grid_points z n1 n2 zero seen = seen
grid_points z n1 n2 (suc k) seen = plane_points z (suc k) n1 n2 (grid_points z n1 n2 k seen)

abbrev pub side : Bool → Tens → List Row
side true t = t.largest
side false t = t.smallest

Perm-nil : (xs : List Row) → Perm (xs ++ []) xs
Perm-nil [] = Perm.refl []
Perm-nil (x ∷ xs) = Perm.cons x (Perm-nil xs)

module _ (greater less : ℕ → ℕ → Bool) (ind : Bool) where
  -- None of the rows would take the place of the first.
  abbrev pub AreBeaten : List Row → List Row → Type 0
  AreBeaten [] ds = Unit {0}
  AreBeaten (x ∷ rows) [] = Unit {0}
  AreBeaten (x ∷ rows) (d ∷ ds) =
      (out_of_order greater less ind d.ten x.ten ≡ false) × AreBeaten (x ∷ rows) ds

  -- The rows are in order and as many as at the start, and they are what is left of the numbers seen and of the rows at the
  -- start when some that do not beat the first row are dropped.
  pub record IsSelected (start seen rows : List Row) : Type 0 where
    pub in_order : InOrder greater less ind rows
    pub size : length rows ≡ length start
    pub dropped : List Row
    pub all : Perm (rows ++ dropped) (seen ++ start)
    pub beaten : AreBeaten rows dropped

  AreBeaten-nil : (rows : List Row) → AreBeaten rows []
  AreBeaten-nil [] = tt
  AreBeaten-nil (x ∷ rows) = tt

  bubble-length : (rows : List Row) → length (bubble greater less ind rows) ≡ length rows
  unfolding bubble
  bubble-length [] = refl
  bubble-length (x ∷ []) = refl
  bubble-length (x ∷ y ∷ rows) = elim (Bool-cases (out_of_order greater less ind x.ten y.ten)) [
    | inl s ↦ rw (s, bubble) (ap suc (bubble-length (x ∷ rows)))
    | inr s ↦ rw (s, bubble) refl
  ]

  InOrder-tail :
      (x : Row) (rows : List Row)
      → InOrder greater less ind (x ∷ rows)
      → InOrder greater less ind rows
  InOrder-tail x [] o = tt
  InOrder-tail x (y ∷ rows) o = o.1

  side-consider :
      (z : Grid ℕ) (i3 i2 i1 : ℕ) (t : Tens)
      → side ind (consider_both greater less z i3 i2 i1 t)
        ≡ consider greater less ind (point z i3 i2 i1) (side ind t)
  side-consider z i3 i2 i1 t = sides ind
    where
      sides :
          (ind : Bool)
          → side ind (consider_both greater less z i3 i2 i1 t)
            ≡ consider greater less ind (point z i3 i2 i1) (side ind t)
      sides true = refl
      sides false = refl

  module _
      (asymmetric : (x y : ℕ)
        → out_of_order greater less ind x y ≡ true
        → out_of_order greater less ind y x ≡ false)
      (transitive : (x y z : ℕ)
        → out_of_order greater less ind x y ≡ false
        → out_of_order greater less ind y z ≡ false
        → out_of_order greater less ind x z ≡ false) where
    -- A first row that others do not beat either.
    AreBeaten-next :
        (x y : Row) (xs ys ds : List Row)
        → out_of_order greater less ind x.ten y.ten ≡ false
        → AreBeaten (x ∷ xs) ds
        → AreBeaten (y ∷ ys) ds
    AreBeaten-next x y xs ys [] e b = tt
    AreBeaten-next x y xs ys (d ∷ ds) e b =
        (transitive d.ten x.ten y.ten b.0 e, AreBeaten-next x y xs ys ds e b.1)

    -- The row that is replaced does not beat the new first one.
    replaced_first :
        (x p : Row) (xs : List Row)
        → out_of_order greater less ind p.ten x.ten ≡ true
        → InOrder greater less ind (x ∷ xs)
        → (ds : List Row) → AreBeaten (x ∷ xs) ds
        → AreBeaten (bubble greater less ind (p ∷ xs)) (x ∷ ds)
    unfolding bubble
    replaced_first x p [] e o ds b =
        (asymmetric p.ten x.ten e, AreBeaten-next x p [] [] ds (asymmetric p.ten x.ten e) b)
    replaced_first x p (y ∷ ys) e o ds b =
        elim (Bool-cases (out_of_order greater less ind p.ten y.ten)) [
          | inl s ↦
              rw (s, bubble)
                (o.0, AreBeaten-next x y (y ∷ ys) (bubble greater less ind (p ∷ ys)) ds o.0 b)
          | inr s ↦
              rw (s, bubble)
                (
                  asymmetric p.ten x.ten e,
                  AreBeaten-next x p (y ∷ ys) (y ∷ ys) ds (asymmetric p.ten x.ten e) b,
                )
        ]

    consider-IsSelected :
        (start seen rows : List Row) (p : Row)
        → IsSelected start seen rows
        → IsSelected start (p ∷ seen) (consider greater less ind p rows)
    unfolding consider
    consider-IsSelected start seen [] p g = record {
      in_order = tt;
      size = g.size;
      dropped = p ∷ g.dropped;
      all = Perm.cons p g.all;
      beaten = tt;
    }
    consider-IsSelected start seen (x ∷ rows) p g =
        elim (Bool-cases (out_of_order greater less ind p.ten x.ten)) [
          | inl e ↦
              let b =
                bubble_lem greater less ind asymmetric p rows (InOrder-tail x rows g.in_order) in
              rw e (record {
                in_order = b.0;
                size = bubble-length (p ∷ rows) ∙ g.size;
                dropped = x ∷ g.dropped;
                all =
                    Perm.trans (Perm.append_right (x ∷ g.dropped) b.1)
                      (Perm.cons p (Perm.trans (perm_middle rows g.dropped) g.all));
                beaten = replaced_first x p rows e g.in_order g.dropped g.beaten;
              })
          | inr e ↦ rw e (record {
            in_order = g.in_order;
            size = g.size;
            dropped = p ∷ g.dropped;
            all = Perm.trans (perm_middle (x ∷ rows) g.dropped) (Perm.cons p g.all);
            beaten = (e, g.beaten);
          })
        ]

    row-IsSelected :
        (z : Grid ℕ) (i3 i2 : ℕ) (start seen : List Row) (k : ℕ) (t : Tens)
        → IsSelected start seen (side ind t)
        → IsSelected start
            (row_points z i3 i2 k seen)
            (side ind (times (λ i1. consider_both greater less z i3 i2 (suc i1)) k t))
    unfolding times
    row-IsSelected z i3 i2 start seen zero t g = g
    row-IsSelected z i3 i2 start seen (suc k) t g =
        let w = times (λ i1. consider_both greater less z i3 i2 (suc i1)) k t in
        rw (side-consider z i3 i2 (suc k) w) (
          consider-IsSelected start (row_points z i3 i2 k seen) (side ind w) (point z i3 i2 (suc k))
            (row-IsSelected z i3 i2 start seen k t g))

    plane-IsSelected :
        (z : Grid ℕ) (i3 n1 : ℕ) (start seen : List Row) (k : ℕ) (t : Tens)
        → IsSelected start seen (side ind t)
        → IsSelected start (plane_points z i3 n1 k seen) (
            side ind (
              times (λ i2. times (λ i1. consider_both greater less z i3 (suc i2) (suc i1)) n1) k t))
    unfolding times
    plane-IsSelected z i3 n1 start seen zero t g = g
    plane-IsSelected z i3 n1 start seen (suc k) t g =
        row-IsSelected z i3 (suc k) start (plane_points z i3 n1 k seen) n1
          (times (λ i2. times (λ i1. consider_both greater less z i3 (suc i2) (suc i1)) n1) k t)
          (plane-IsSelected z i3 n1 start seen k t g)

    planes-IsSelected :
        (z : Grid ℕ) (n1 n2 : ℕ) (start : List Row) (k : ℕ) (t : Tens)
        → IsSelected start [] (side ind t)
        → IsSelected start (grid_points z n1 n2 k []) (
            side ind (
              times
                (λ i3.
                  times
                    (λ i2. times (λ i1. consider_both greater less z (suc i3) (suc i2) (suc i1)) n1)
                    n2)
                k
                t))
    unfolding times
    planes-IsSelected z n1 n2 start zero t g = g
    planes-IsSelected z n1 n2 start (suc k) t g =
        plane-IsSelected z (suc k) n1 start (grid_points z n1 n2 k []) n2
          (times
            (λ i3.
              times (λ i2. times (λ i1. consider_both greater less z (suc i3) (suc i2) (suc i1)) n1)
                n2)
            k t)
          (planes-IsSelected z n1 n2 start k t g)

    -- If the rows are in order at the start, the search leaves a selection of the interior points and
    -- of those rows.
    pub search_lem :
        (z : Grid ℕ) (n1 n2 n3 : ℕ) (t : Tens)
        → InOrder greater less ind (side ind t)
        → IsSelected
            (side ind t)
            (grid_points z (n1 - 2) (n2 - 2) (n3 - 2) [])
            (side ind (search greater less z n1 n2 n3 t))
    unfolding search
    search_lem z n1 n2 n3 t o =
        planes-IsSelected z (n1 - 2) (n2 - 2) (side ind t) (n3 - 2) t (record {
          in_order = o;
          size = refl;
          dropped = [];
          all = Perm-nil (side ind t);
          beaten = AreBeaten-nil (side ind t);
        })
