-- ===== src/Npb/Cg/Make/Draws.antt =====
-- What `sprnvc` and `vecset` leave when a vector has been drawn.
use hardposit_fpga.Base.{
  ℕ, zero, suc, ◌+◌, ◌≤◌, ◌≡◌, refl, ap, ◌∙◌, inl, inr, Bool-cases, none, some, Option-cases, ltb,
  ◌==◌, arith,
}
use hardposit_fpga.Npb.Random.{randlc}
use hardposit_fpga.Npb.Cg.{
  icnvrt, Draw, sprnvc_round, sprnvc_loop, double_until, unmark, sprnvc, Entries, vecset,
}
use hardposit_fpga.Npb.Cg.Vectors.{AreDistinct, IsDrawn, round-IsDrawn, unmark_lem}
use hardposit_fpga.Npb.Cg.Set.{vecset_lem}
use hardposit_fpga.Npb.Cg.Make.{Shape, draw_vector}

abbrev pub IsUnmarked : Draw → Type 0
IsUnmarked s = (x : ℕ) → s.mark x ≡ 0

module _ {ℓ} {A : Type ℓ} where
  some_inj : (x y : A) → some x ≡ some y → x ≡ y
  some_inj x y e = ap (λ o. elim o [ none ↦ x | some z ↦ z ]) e

  none-some : (y : A) → ¬ (none ≡ some y)
  none-some y e = absurd (ground (arith, e))

module _ (bits : ℕ → ℕ) (amult n nn1 : ℕ) where
  round_few : (s : Draw) → (sprnvc_round bits amult n nn1 s).nzv ≤ suc s.nzv
  unfolding sprnvc_round
  round_few s =
      let i = icnvrt (randlc (randlc s.tran amult) amult) nn1 + 1 in
      elim (Bool-cases (ltb n i)) [
        | inl far ↦ rw far (omega arith)
        | inr near ↦ elim (Bool-cases (s.mark i == 0)) [
          | inl free ↦ rw (near, free) (omega arith)
          | inr taken ↦ rw (near, taken) (omega arith)
        ]
      ]

  -- The loop ends with as many elements as were asked for.
  sprnvc_loop-IsDrawn :
      (fuel nz : ℕ) (s t : Draw)
      → sprnvc_loop bits amult n nn1 fuel nz s ≡ some t
      → IsDrawn n s
      → s.nzv ≤ nz
      → IsDrawn n t × (t.nzv ≡ nz)
  unfolding sprnvc_loop
  sprnvc_loop-IsDrawn zero nz s t e d le = elim (Bool-cases (ltb s.nzv nz)) [
    | inl less ↦ absurd (none-some t (rw less at e))
    | inr done ↦
        let same : s ≡ t = some_inj s t (rw done at e) in rw⁻¹ same (d, ground (arith, done, le))
  ]
  sprnvc_loop-IsDrawn (suc fuel) nz s t e d le = elim (Bool-cases (ltb s.nzv nz)) [
    | inl less ↦
        sprnvc_loop-IsDrawn fuel nz (sprnvc_round bits amult n nn1 s) t
          (rw (less, sprnvc_loop) at e) (round-IsDrawn bits amult n nn1 s d)
          (ground (arith, round_few s, less))
    | inr done ↦
        let same : s ≡ t = some_inj s t (rw (done, sprnvc_loop) at e) in
        rw⁻¹ same (d, ground (arith, done, le))
  ]

module _ (bits : ℕ → ℕ) (amult fuel half : ℕ) (g : Shape) where
  -- A vector that has been drawn has distinct indices, and the marks are clear for the next one.
  pub draw_vector-IsUnmarked :
      (iouter : ℕ) (s d : Draw)
      → IsUnmarked s
      → draw_vector bits amult fuel half g iouter s ≡ some d
      → AreDistinct d.nzv d.iv × (d.nzv ≤ suc g.nonzer) × IsUnmarked d
  unfolding draw_vector sprnvc
  draw_vector-IsUnmarked iouter s d clear e =
      let s' : Draw = record s { nzv = 0; nzrow = 0 } in
      let start : IsDrawn g.n s' = record {
        distinct = tt;
        in_range = λ x o. absurd (ground (arith, o));
        marked = clear;
        same_count = refl;
        same_places = λ x. refl;
      } in
      let nn1 = double_until (suc g.n) 1 g.n in
      elim (Option-cases (sprnvc_loop bits amult g.n nn1 fuel g.nonzer s')) [
        | inl stuck ↦ absurd (none-some d (rw (stuck, draw_vector, sprnvc) at e))
        | inr (t, ends) ↦
            let drawn =
              sprnvc_loop-IsDrawn bits amult g.n nn1 fuel g.nonzer s' t ends start (omega arith) in
            let before : Entries = record { v = t.v; iv = t.iv; nzv = g.nonzer } in
            let after = vecset iouter half before in
            let result : Draw = record t {
              mark = unmark t.nzrow t.nzloc t.mark;
              v = after.v;
              iv = after.iv;
              nzv = after.nzv;
            } in
            let same : result ≡ d = some_inj result d (rw (ends, draw_vector, sprnvc) at e) in
            let set = vecset_lem iouter half before in
            let distinct : AreDistinct g.nonzer t.iv = rw⁻¹ drawn.1 (drawn.0.distinct) in
            rw⁻¹ same (
              set.4 distinct,
              ground (arith, set.1),
              λ x.
                  unmark_lem t.nzrow x t.nzloc t.mark
                  ∙ ground (arith, drawn.0.marked x, drawn.0.same_places x),
            )
      ]
