-- ===== src/Npb/Cg/Set.antt =====
-- `vecset` puts a value under an index.
use hardposit_fpga.Base.{
  ℕ, zero, suc, ◌+◌, ◌≤◌, ◌≡◌, refl, ap, ◌∙◌, inl, inr, Bool, true, false, ◌||◌, ◌==◌, ◌&&◌, ltb,
  leb, if◌then◌else◌, put, Bool-cases, arith,
}
use hardposit_fpga.Npb.Cg.{Entries, vecset_loop, vecset}
use hardposit_fpga.Npb.Cg.Vectors.{occurs, AreDistinct, occurs-put, AreDistinct-put}

-- Whether one of the `n` entries from `k` on is `x`.
abbrev occurs_from : ℕ → ℕ → ℕ → (ℕ → ℕ) → Bool
occurs_from x zero k iv = false
occurs_from x (suc n) k iv = (iv k == x) || occurs_from x n (suc k) iv

vecset_loop_lem :
    (n k : ℕ) (iv : ℕ → ℕ) (i val : ℕ) (v : ℕ → ℕ) (set : Bool)
    → ((vecset_loop n k iv i val v set).1 ≡ (set || occurs_from i n k iv))
      × ((j : ℕ)
          → (vecset_loop n k iv i val v set).0 j
            ≡ (if leb k j && ltb j (k + n) && (iv j == i) then val else v j))
unfolding vecset_loop
vecset_loop_lem zero k iv i val v set = (ground arith, λ j. ground arith)
vecset_loop_lem (suc n) k iv i val v set =
    let v' = if iv k == i then put k val v else v in
    let r = vecset_loop_lem n (suc k) iv i val v' (if iv k == i then true else set) in
    (r.0 ∙ ground arith, λ j. r.1 j ∙ ground arith)

occurs_from-occurs :
    (x n k m : ℕ) (iv : ℕ → ℕ)
    → m ≡ k + n
    → (occurs_from x n (suc k) iv || occurs x k iv) ≡ occurs x m iv
occurs_from-occurs x zero k m iv e = ap (λ j. occurs x j iv) (omega (arith, e))
occurs_from-occurs x (suc n) k m iv e =
    let ih = occurs_from-occurs x n (suc k) m iv (omega (arith, e)) in ground (arith, ih)

absent : (x j k : ℕ) (iv : ℕ → ℕ) → occurs x k iv ≡ false → 1 ≤ j → j ≤ k → (iv j == x) ≡ false
absent x j zero iv none lo hi = absurd (omega (arith, lo, hi))
absent x j (suc k) iv none lo hi = ground (arith, none, lo, hi, absent x j k iv)

module _ (i val : ℕ) (e : Entries) where
  abbrev looped : (ℕ → ℕ) × Bool
  looped = vecset_loop e.nzv 1 e.iv i val e.v false

  found : looped.1 ≡ occurs i e.nzv e.iv
  found =
      let r = vecset_loop_lem e.nzv 1 e.iv i val e.v false in
      let o = occurs_from-occurs i e.nzv 0 e.nzv e.iv (omega arith) in ground (arith, r.0, o)

  -- For every sparse vector, `vecset` leaves the index among the entries; it adds an entry
  -- exactly if the index was not there, and keeps the indices of the others; every entry then has
  -- the value if its index is the one set, and its old value if not; and distinct indices stay
  -- distinct.
  pub vecset_lem :
      (occurs i (vecset i val e).nzv (vecset i val e).iv ≡ true)
      × ((vecset i val e).nzv ≡ (if occurs i e.nzv e.iv then e.nzv else suc e.nzv))
      × ((j : ℕ) → 1 ≤ j → j ≤ e.nzv → (vecset i val e).iv j ≡ e.iv j)
      × ((j : ℕ)
          → 1 ≤ j
          → j ≤ (vecset i val e).nzv
          → (vecset i val e).v j ≡ (if (vecset i val e).iv j == i then val else e.v j))
      × (AreDistinct e.nzv e.iv → AreDistinct (vecset i val e).nzv (vecset i val e).iv)
  unfolding vecset
  vecset_lem =
      let r = vecset_loop_lem e.nzv 1 e.iv i val e.v false in
      elim (Bool-cases (occurs i e.nzv e.iv)) [
        | inl o ↦
            let set : looped.1 ≡ true = found ∙ o in
            rw (set, o)
              (refl, refl, λ j lo hi. refl, λ j lo hi. ground (arith, r.1 j, lo, hi), λ d. d)
        | inr o ↦
            let set : looped.1 ≡ false = found ∙ o in
            rw (set, o)
              (
                ground arith,
                refl,
                λ j lo hi. ground (arith, lo, hi),
                λ j lo hi. ground (arith, r.1 j, lo, hi, absent i j e.nzv e.iv o lo),
                λ d. (
                  ground (arith, occurs-put i e.nzv (suc e.nzv) i e.iv, o),
                  AreDistinct-put e.nzv (suc e.nzv) i e.iv (omega arith) d,
                ),
              )
      ]
