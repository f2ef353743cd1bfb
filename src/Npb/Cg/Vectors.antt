-- ===== src/Npb/Cg/Vectors.antt =====
-- What the loop of `sprnvc` keeps: distinct indices in range, each marked, and no other mark.
use hardposit_fpga.Base.{
  ℕ, zero, suc, ◌+◌, ◌≤◌, ◌<◌, ◌≡◌, refl, sym, ap, ◌∙◌, inl, inr, Bool, true, false, ◌||◌, ltb,
  ◌==◌, if◌then◌else◌, put, Bool-cases, arith,
}
use hardposit_fpga.Npb.Random.{randlc}
use hardposit_fpga.Npb.Cg.{icnvrt, Draw, record_element, sprnvc_round, sprnvc_rounds, unmark}

-- Whether `x` is among the entries 1 to `k`.
abbrev pub occurs : ℕ → ℕ → (ℕ → ℕ) → Bool
occurs x zero iv = false
occurs x (suc k) iv = (x == iv (suc k)) || occurs x k iv

abbrev pub AreDistinct : ℕ → (ℕ → ℕ) → Type 0
AreDistinct zero iv = Unit {0}
AreDistinct (suc k) iv = (occurs (iv (suc k)) k iv ≡ false) × AreDistinct k iv

-- The loop's state: `nzloc` repeats `iv`.
pub record IsDrawn (n : ℕ) (s : Draw) : Type 0 where
  pub distinct : AreDistinct s.nzv s.iv
  pub in_range : (x : ℕ) → occurs x s.nzv s.iv ≡ true → (1 ≤ x) × (x ≤ n)
  pub marked : (x : ℕ) → s.mark x ≡ (if occurs x s.nzv s.iv then 1 else 0)
  pub same_count : s.nzrow ≡ s.nzv
  pub same_places : (x : ℕ) → occurs x s.nzrow s.nzloc ≡ occurs x s.nzv s.iv

-- An entry above leaves the entries below alone.
pub occurs-put : (x k i v : ℕ) (iv : ℕ → ℕ) → k < i → occurs x k (put i v iv) ≡ occurs x k iv
occurs-put x zero i v iv lt = refl
occurs-put x (suc k) i v iv lt = ground (arith, lt, occurs-put x k i v iv)

pub AreDistinct-at :
    (n m : ℕ) (iv : ℕ → ℕ) → AreDistinct n iv → m < n → occurs (iv (suc m)) m iv ≡ false
AreDistinct-at zero m iv d lt = absurd (omega (arith, lt))
AreDistinct-at (suc n) m iv d lt = elim (Bool-cases (m == n)) [
  | inl e ↦ let e' : m ≡ n = ground (arith, e) in rw e' d.0
  | inr ne ↦ AreDistinct-at n m iv d.1 (ground (arith, lt, ne))
]

pub AreDistinct-put :
    (k i v : ℕ) (iv : ℕ → ℕ) → k < i → AreDistinct k iv → AreDistinct k (put i v iv)
AreDistinct-put zero i v iv lt d = tt
AreDistinct-put (suc k) i v iv lt d = (
  ground (arith, lt, d.0, occurs-put (iv (suc k)) k i v iv),
  AreDistinct-put k i v iv (omega (arith, lt)) d.1,
)

occurs-new :
    (x k v : ℕ) (iv : ℕ → ℕ) → occurs x (suc k) (put (suc k) v iv) ≡ ((x == v) || occurs x k iv)
occurs-new x k v iv = ground (arith, occurs-put x k (suc k) v iv)

-- A new index, in range and not marked.
record_element-IsDrawn :
    (n i elt : ℕ) (s : Draw)
    → IsDrawn n s
    → 1 ≤ i
    → i ≤ n
    → s.mark i ≡ 0
    → IsDrawn n (record_element i elt s)
record_element-IsDrawn n i elt s d lo hi free = record {
  distinct = (
    ground (arith, occurs-put i s.nzv (suc s.nzv) i s.iv, d.marked i, free),
    AreDistinct-put s.nzv (suc s.nzv) i s.iv (omega arith) d.distinct,
  );
  in_range = λ x e. ground (arith, occurs-new x s.nzv i s.iv, d.in_range x, e, lo, hi);
  marked = λ x. ground (arith, occurs-new x s.nzv i s.iv, d.marked x);
  same_count = ap suc d.same_count;
  same_places = λ x.
      ground (arith, occurs-new x s.nzv i s.iv, occurs-new x s.nzrow i s.nzloc, d.same_places x);
}

module _ (bits : ℕ → ℕ) (amult n nn1 : ℕ) where
  pub round-IsDrawn : (s : Draw) → IsDrawn n s → IsDrawn n (sprnvc_round bits amult n nn1 s)
  unfolding sprnvc_round
  round-IsDrawn s d =
      let vecelt = randlc s.tran amult in
      let vecloc = randlc vecelt amult in
      let i = icnvrt vecloc nn1 + 1 in
      let s' : Draw = record s { tran = vecloc } in
      let d' : IsDrawn n s' = record {
        distinct = d.distinct;
        in_range = d.in_range;
        marked = d.marked;
        same_count = d.same_count;
        same_places = d.same_places;
      } in
      elim (Bool-cases (ltb n i)) [
        | inl far ↦ rw far d'
        | inr near ↦ elim (Bool-cases (s.mark i == 0)) [
          | inl free ↦
              rw (near, free)
                (record_element-IsDrawn n i (bits vecelt) s' d' (omega arith) (ground (arith, near))
                  (ground (arith, free)))
          | inr taken ↦ rw (near, taken) d'
        ]
      ]

  rounds-IsDrawn : (k : ℕ) (s : Draw) → IsDrawn n s → IsDrawn n (sprnvc_rounds bits amult n nn1 k s)
  unfolding sprnvc_rounds
  rounds-IsDrawn zero s d = d
  rounds-IsDrawn (suc k) s d =
      rounds-IsDrawn k (sprnvc_round bits amult n nn1 s) (round-IsDrawn s d)

-- Resetting clears the marks of the places, and no others.
pub unmark_lem :
    (k x : ℕ) (nzloc mark : ℕ → ℕ)
    → unmark k nzloc mark x ≡ (if occurs x k nzloc then 0 else mark x)
unfolding unmark
unmark_lem zero x nzloc mark = refl
unmark_lem (suc k) x nzloc mark = ground (arith, unmark_lem k x nzloc (put (nzloc (suc k)) 0 mark))

-- From a state without elements and without marks, after any number of rounds of the loop of
-- `sprnvc`, for every generator multiplier and scale: the indices drawn are distinct and lie
-- between 1 and n, and resetting the marks at the recorded places leaves no mark.
pub sprnvc_rounds_lem :
    (bits : ℕ → ℕ) (amult n nn1 k : ℕ) (s : Draw)
    → s.nzv ≡ 0
    → s.nzrow ≡ 0
    → ((x : ℕ) → s.mark x ≡ 0)
    → AreDistinct (sprnvc_rounds bits amult n nn1 k s).nzv (sprnvc_rounds bits amult n nn1 k s).iv
      × ((x : ℕ)
          → occurs x
              (sprnvc_rounds bits amult n nn1 k s).nzv
              (sprnvc_rounds bits amult n nn1 k s).iv
            ≡ true
          → (1 ≤ x) × (x ≤ n))
      × ((x : ℕ)
          → unmark
              (sprnvc_rounds bits amult n nn1 k s).nzrow
              (sprnvc_rounds bits amult n nn1 k s).nzloc
              (sprnvc_rounds bits amult n nn1 k s).mark
              x
            ≡ 0)
sprnvc_rounds_lem bits amult n nn1 k s e1 e2 clear =
    let d = rounds-IsDrawn bits amult n nn1 k s start in
    let t = sprnvc_rounds bits amult n nn1 k s in
    (
      d.distinct,
      d.in_range,
      λ x. unmark_lem t.nzrow x t.nzloc t.mark ∙ ground (arith, d.marked x, d.same_places x),
    )
  where
    nothing : (x : ℕ) → occurs x s.nzv s.iv ≡ false
    nothing x = rw e1 refl

    start : IsDrawn n s
    start = record {
      distinct = rw e1 tt;
      in_range = λ x e. absurd (ground (arith, nothing x, e));
      marked = λ x. rw e1 (clear x);
      same_count = e2 ∙ sym e1;
      same_places = λ x. rw (e1, e2) refl;
    }
