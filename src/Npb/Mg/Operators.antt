-- ===== src/Npb/Mg/Operators.antt =====
-- The operators of the multigrid cycle against their stencils, written out by neighbours: six of a
-- point across a face, twelve across an edge, eight across a corner. A sum keeps the order in which
-- the source adds, since nothing is supposed of the addition.
use hardposit_fpga.Base.{ℕ, ◌+◌, ◌-◌, ◌*◌, ◌≤◌, ◌<◌, ◌≡◌, ◌==◌, Option, if◌then◌else◌}
use hardposit_fpga.Npb.Mg.{Grid, Arith, psinv, source_of, resid, rprj3}
use hardposit_fpga.Npb.Mg.Borders.{wrap}
use hardposit_fpga.Npb.Mg.Stencils.{psinv_by_rows, resid_by_rows, rprj3_by_rows}

module _ {A : Type 0} (o : Arith A) where
  -- The left sum of numbers.
  abbrev pub sum3 : A → A → A → A
  sum3 x y z = o.add (o.add x y) z

  abbrev pub sum4 : A → A → A → A → A
  sum4 x y z t = o.add (sum3 x y z) t

  -- The four neighbours of a point across a face in y and z, and across an edge between the two.
  abbrev pub faces_yz : Grid A → Grid A
  faces_yz g z y x = sum4 (g z (y - 1) x) (g z (y + 1) x) (g (z - 1) y x) (g (z + 1) y x)

  abbrev pub edges_yz : Grid A → Grid A
  edges_yz g z y x =
      sum4 (g (z - 1) (y - 1) x) (g (z - 1) (y + 1) x) (g (z + 1) (y - 1) x) (g (z + 1) (y + 1) x)

  -- The smoother: c0 at the point, c1 at the faces, c2 at the edges, nothing at the corners.
  abbrev pub smoothed : (ℕ → A) → Grid A → Grid A → Grid A
  smoothed c r u z y x =
      sum4 (u z y x) (o.mul (c 0) (r z y x))
        (o.mul (c 1) (sum3 (r z y (x - 1)) (r z y (x + 1)) (faces_yz r z y x)))
        (o.mul (c 2) (sum3 (edges_yz r z y x) (faces_yz r z y (x - 1)) (faces_yz r z y (x + 1))))

  -- The residual: a0 at the point, nothing at the faces, a2 at the edges, a3 at the corners.
  abbrev pub residual : (ℕ → A) → Grid A → Grid A → Grid A
  residual a u v z y x =
      let centre = o.mul (a 0) (u z y x) in
      let edges =
        o.mul (a 2) (sum3 (edges_yz u z y x) (faces_yz u z y (x - 1)) (faces_yz u z y (x + 1))) in
      let corners = o.mul (a 3) (o.add (edges_yz u z y (x - 1)) (edges_yz u z y (x + 1))) in
      o.sub (o.sub (o.sub (v z y x) centre) edges) corners

  -- The same neighbours in the fine grid, for the point one above a base in each direction, and in
  -- the order of `rprj3`.
  abbrev pub fine_faces_yz : Grid A → Grid A
  fine_faces_yz g z y x =
      sum4 (g (z + 1) y x) (g (z + 1) (y + 2) x) (g z (y + 1) x) (g (z + 2) (y + 1) x)

  abbrev pub fine_edges_yz : Grid A → Grid A
  fine_edges_yz g z y x = sum4 (g z y x) (g (z + 2) y x) (g z (y + 2) x) (g (z + 2) (y + 2) x)

  -- Full weighting: w1 at the point, w2 at the faces, w3 at the edges, w4 at the corners.
  abbrev pub weighted : (ℕ → A) → Grid A → Grid A
  weighted w r z y x =
      sum4 (o.mul (w 1) (r (z + 1) (y + 1) (x + 1)))
        (o.mul (w 2)
          (sum3 (r (z + 1) (y + 1) x) (r (z + 1) (y + 1) (x + 2)) (fine_faces_yz r z y (x + 1))))
        (o.mul (w 3) (
          sum3 (fine_faces_yz r z y x) (fine_faces_yz r z y (x + 2)) (fine_edges_yz r z y (x + 1))))
        (o.mul (w 4) (o.add (fine_edges_yz r z y x) (fine_edges_yz r z y (x + 2))))

  -- The base of a coarse index: twice the index less 1, or less 2 if the fine side is 3.
  abbrev pub base : ℕ → ℕ → ℕ
  base m j = 2 * j - (if m == 3 then 2 else 1)

  module _ (n1 n2 n3 : ℕ) (size1 : 3 ≤ n1) (size2 : 3 ≤ n2) (size3 : 3 ≤ n3) where
    -- On a grid with at least three points on each side: after `psinv`, with its exchange of
    -- borders, every point has, at the interior point of the wrapped indices, its old value plus
    -- c0 times the residual there, c1 times the sum of the residuals of the six neighbours across
    -- a face, and c2 times that of the twelve across an edge, each sum in the order written out;
    -- what the work rows held does not matter.
    pub psinv_lem :
        (junk c : ℕ → A) (r u : Grid A) (i3 i2 i1 : ℕ)
        → i3 < n3
        → i2 < n2
        → i1 < n1
        → psinv o junk r n1 n2 n3 c u i3 i2 i1
          ≡ smoothed c r u (wrap n3 i3) (wrap n2 i2) (wrap n1 i1)
    psinv_lem = psinv_by_rows o n1 n2 n3 size1 size2 size3

    -- On a grid with at least three points on each side: after `resid`, with its exchange of
    -- borders, every point has, at the interior point of the wrapped indices, the right-hand side
    -- less a0 times the approximation there, less a2 times the sum over the twelve neighbours
    -- across an edge, less a3 times that over the eight across a corner, from the grids before
    -- the call and each sum in the order written out; if v is the array r itself, the result is
    -- that for a copy of it.
    pub resid_lem :
        (junk a : ℕ → A) (u r : Grid A) (v : Option (Grid A)) (i3 i2 i1 : ℕ)
        → i3 < n3
        → i2 < n2
        → i1 < n1
        → resid o junk u v n1 n2 n3 a r i3 i2 i1
          ≡ residual a u (source_of v r) (wrap n3 i3) (wrap n2 i2) (wrap n1 i1)
    resid_lem = resid_by_rows o n1 n2 n3 size1 size2 size3

  module _ (m1 m2 m3 : ℕ) (size1 : 3 ≤ m1) (size2 : 3 ≤ m2) (size3 : 3 ≤ m3) where
    -- On a coarse grid with at least three points on each side: after `rprj3`, with its exchange
    -- of borders, every point has, for the interior point of the wrapped indices, the full
    -- weighting of the fine grid at twice the index, or one less if that side of the fine grid is
    -- 3: w1 times the point, w2 times its neighbours across a face, w3 times those across an edge
    -- and w4 times those across a corner, each sum in the order written out.
    pub rprj3_lem :
        (junk w : ℕ → A) (r s : Grid A) (m1k m2k m3k j3 j2 j1 : ℕ)
        → j3 < m3
        → j2 < m2
        → j1 < m1
        → rprj3 o junk w r m1k m2k m3k m1 m2 m3 s j3 j2 j1
          ≡ weighted w r (base m3k (wrap m3 j3)) (base m2k (wrap m2 j2)) (base m1k (wrap m1 j1))
    rprj3_lem = rprj3_by_rows o m1 m2 m3 size1 size2 size3
