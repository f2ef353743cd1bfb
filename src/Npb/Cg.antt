-- ===== src/Npb/Cg.antt =====
-- sw/NPBhardposit/CG/cg.cpp: the sparse vectors of which the matrix is made. The elements of `v` are
-- the numbers that the objects stand for; what a double becomes on its way there is a parameter.
pub mod Vectors
pub mod Loops
pub mod Set
pub mod Sparse
pub mod Make
pub mod Tests
use hardposit_fpga.Base.{
  ℕ, zero, suc, ◌+◌, ◌*◌, ◌/◌, ◌^◌, Bool, true, false, Option, none, some, ltb, ◌==◌, if◌then◌else◌,
  put,
}
use hardposit_fpga.Npb.Random.{randlc}

-- `do { nn1 = 2 * nn1; } while (nn1 < n);` from `nn1`, in at most `fuel` rounds.
unfoldable pub double_until : ℕ → ℕ → ℕ → ℕ
double_until zero nn1 n = nn1
double_until (suc fuel) nn1 n = elim (ltb (2 * nn1) n) [
  | true ↦ double_until fuel (2 * nn1) n
  | false ↦ 2 * nn1
]

-- `(int)(ipwr2 * x)` for x = r46 * seed.
abbrev pub icnvrt : ℕ → ℕ → ℕ
icnvrt seed ipwr2 = ipwr2 * seed / 2 ^ 46

-- The arrays and counters of `sprnvc`, with the seed of the generator.
pub record Draw : Type 0 where
  pub tran : ℕ
  pub v : ℕ → ℕ
  pub iv : ℕ → ℕ
  pub nzloc : ℕ → ℕ
  pub mark : ℕ → ℕ
  pub nzrow : ℕ
  pub nzv : ℕ

-- The index was not generated already.
abbrev pub record_element : ℕ → ℕ → Draw → Draw
record_element i elt s = record s {
  mark = put i 1 s.mark;
  nzrow = suc s.nzrow;
  nzloc = put (suc s.nzrow) i s.nzloc;
  nzv = suc s.nzv;
  v = put (suc s.nzv) elt s.v;
  iv = put (suc s.nzv) i s.iv;
}

module _ (bits : ℕ → ℕ) (amult n nn1 : ℕ) where
  -- One round of the loop.
  unfoldable pub sprnvc_round : Draw → Draw
  sprnvc_round s =
      let vecelt = randlc s.tran amult in
      let vecloc = randlc vecelt amult in
      let i = icnvrt vecloc nn1 + 1 in
      let s' = record s { tran = vecloc } in
      if ltb n i then s' else if s.mark i == 0 then record_element i (bits vecelt) s' else s'

  unfoldable pub sprnvc_rounds : ℕ → Draw → Draw
  sprnvc_rounds zero s = s
  sprnvc_rounds (suc k) s = sprnvc_rounds k (sprnvc_round s)

  -- `while (nzv < nz)`, whose length hangs on the generator: `none` if `fuel` rounds are too few.
  unfoldable pub sprnvc_loop : ℕ → ℕ → Draw → Option Draw
  sprnvc_loop zero nz s = if ltb s.nzv nz then none else some s
  sprnvc_loop (suc fuel) nz s = elim (ltb s.nzv nz) [
    | true ↦ sprnvc_loop fuel nz (sprnvc_round s)
    | false ↦ some s
  ]

-- The loop that resets `mark`, from the last index down; the order does not matter, since all are
-- set to zero.
unfoldable pub unmark : ℕ → (ℕ → ℕ) → (ℕ → ℕ) → ℕ → ℕ
unmark zero nzloc mark = mark
unmark (suc k) nzloc mark = unmark k nzloc (put (nzloc (suc k)) 0 mark)

-- `sprnvc`, in at most `fuel` rounds.
unfoldable pub sprnvc : (ℕ → ℕ) → ℕ → ℕ → ℕ → ℕ → Draw → Option Draw
sprnvc bits amult fuel n nz s =
    elim (sprnvc_loop bits amult n (double_until (suc n) 1 n) fuel nz
      (record s { nzv = 0; nzrow = 0 })) [
        | none ↦ none
        | some t ↦ some (record t { mark = unmark t.nzrow t.nzloc t.mark })
      ]

-- A sparse vector: its entries from 1 to `nzv`.
pub record Entries : Type 0 where
  pub v : ℕ → ℕ
  pub iv : ℕ → ℕ
  pub nzv : ℕ

-- The loop of `vecset` from entry `k` on, with `n` entries left.
unfoldable pub vecset_loop : ℕ → ℕ → (ℕ → ℕ) → ℕ → ℕ → (ℕ → ℕ) → Bool → (ℕ → ℕ) × Bool
vecset_loop zero k iv i val v set = (v, set)
vecset_loop (suc n) k iv i val v set =
    vecset_loop n (suc k) iv i val (if iv k == i then put k val v else v)
      (if iv k == i then true else set)

abbrev pub vecset_end : ℕ → ℕ → Entries → (ℕ → ℕ) → Bool → Entries
vecset_end i val e v set =
    if set
    then record e { v = v }
    else record { v = put (suc e.nzv) val v; iv = put (suc e.nzv) i e.iv; nzv = suc e.nzv }

-- `vecset`: the entries for the index take the value, or a new one does.
unfoldable pub vecset : ℕ → ℕ → Entries → Entries
vecset i val e = let r = vecset_loop e.nzv 1 e.iv i val e.v false in vecset_end i val e r.0 r.1
