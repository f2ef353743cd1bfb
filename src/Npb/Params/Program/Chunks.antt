-- ===== src/Npb/Params/Program/Chunks.antt =====
-- How `fgets` cuts make.def.
use hardposit_fpga.Base.{
  ℕ, ◌-◌, ◌≤◌, ◌≡◌, refl, ap, ◌∙◌, Bool, true, ◌||◌, ◌&&◌, List, [], ◌∷◌, ◌++◌, length, leb, ◌==◌,
  inl, inr, Bool-cases, arith,
}
use hardposit_fpga.Base.Texts.{Text}
use hardposit_fpga.Npb.Params.Program.{prepend, fgets_all}

abbrev pub joined : List Text → Text
joined [] = []
joined (l ∷ ls) = l ++ joined ls

-- The first piece has at most `room` characters, the others at most 399.
abbrev pub fits : ℕ → List Text → Bool
fits room [] = true
fits room (l ∷ ls) = leb (length l) room && fits 399 ls

joined-prepend : (c : ℕ) (ls : List Text) → joined (prepend c ls) ≡ c ∷ joined ls
joined-prepend c [] = refl
joined-prepend c (l ∷ ls) = refl

fits-prepend :
    (c room : ℕ) (ls : List Text)
    → 1 ≤ room
    → fits (room - 1) ls ≡ true
    → fits room (prepend c ls) ≡ true
fits-prepend c room [] le e = ground (arith, le)
fits-prepend c room (l ∷ ls) le e = ground (arith, le, e)

-- For room for at least one character: the pieces in which make.def is read give its text when
-- joined, the first has at most as many characters as there is room for, and each of the others
-- at most 399.
pub fgets_all_lem :
    (room : ℕ) (text : Text)
    → 1 ≤ room
    → (joined (fgets_all room text) ≡ text) × (fits room (fgets_all room text) ≡ true)
unfolding fgets_all
fgets_all_lem room [] le = (refl, refl)
fgets_all_lem room (c ∷ cs) le = elim (Bool-cases ((c == 10) || leb room 1)) [
  | inl e ↦
      let r = fgets_all_lem 399 cs (omega arith) in
      rw (fgets_all, e) (ap (λ t. c ∷ t) r.0, ground (arith, r.1, le))
  | inr e ↦
      let more : 1 ≤ room - 1 = ground (arith, e, le) in
      let r = fgets_all_lem (room - 1) cs more in
      rw (fgets_all, e)
        (
          joined-prepend c (fgets_all (room - 1) cs) ∙ ap (λ t. c ∷ t) r.0,
          fits-prepend c room (fgets_all (room - 1) cs) le r.1,
        )
]
