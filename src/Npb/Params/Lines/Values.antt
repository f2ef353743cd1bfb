-- ===== src/Npb/Params/Lines/Values.antt =====
-- Values of make.def on their way into npbparams.h.
use hardposit_fpga.Base.{
  ℕ, zero, suc, ◌≤◌, ◌<◌, ◌≡◌, ◌≢◌, refl, ap, Bool, true, false, ◌&&◌, none, some, [], ◌∷◌, ◌++◌,
  length, length-append, if◌then◌else◌, arith,
}
use hardposit_fpga.Base.Texts.{Text, codes, isspace, skip_spaces, rest, strip}
use hardposit_fpga.Npb.Params.Lines.{
  chop, ends_with_backslash, take_value, check_sign, check_label, check_line, take, shorten,
}

abbrev pub all_spaces : Text → Bool
all_spaces [] = true
all_spaces (c ∷ cs) = isspace c && all_spaces cs

strip-append : (label line : Text) → strip label (label ++ line) ≡ rest line
strip-append [] line = refl
strip-append (l ∷ ls) line = ground (arith, strip-append ls line)

skip_spaces-append :
    (s line : Text) → all_spaces s ≡ true → skip_spaces (s ++ line) ≡ skip_spaces line
skip_spaces-append [] line e = refl
skip_spaces-append (c ∷ cs) line e = ground (arith, e, skip_spaces-append cs line)

chop-append : (v : Text) (last : ℕ) → chop (v ++ (last ∷ [])) ≡ v
unfolding chop
chop-append [] last = refl
chop-append (c ∷ []) last = refl
chop-append (c ∷ d ∷ cs) last = ap (λ t. c ∷ t) (chop-append (d ∷ cs) last)

-- From the sign on.
sign_value :
    (s2 v : Text) (first last : ℕ) (old : Text)
    → all_spaces s2 ≡ true
    → isspace first ≡ false
    → check_sign (b'=' ∷ (s2 ++ ((first ∷ v) ++ (last ∷ [])))) old
      ≡ (if ends_with_backslash (first ∷ v) then none else some (first ∷ v))
unfolding check_sign take_value
sign_value s2 v first last old e ne =
    rw (skip_spaces-append s2 ((first ∷ v) ++ (last ∷ [])) e, ne, chop-append (first ∷ v) last) refl

-- On a line of a label, white space, an equals sign, white space, a value that does not start
-- with white space, and one more character, `check_line` with that label takes the value, the
-- last character of the line being dropped whatever it is; if the value ends with a backslash, it
-- ends the program.
pub check_line_value :
    (label s1 s2 v : Text) (first last : ℕ) (old : Text)
    → all_spaces s1 ≡ true
    → all_spaces s2 ≡ true
    → isspace first ≡ false
    → check_line (label ++ (s1 ++ (b'=' ∷ (s2 ++ ((first ∷ v) ++ (last ∷ [])))))) label old
      ≡ (if ends_with_backslash (first ∷ v) then none else some (first ∷ v))
unfolding check_line check_label
check_line_value label [] s2 v first last old e1 e2 ne =
    rw (strip-append label (b'=' ∷ (s2 ++ ((first ∷ v) ++ (last ∷ [])))))
      (sign_value s2 v first last old e2 ne)
check_line_value label (c ∷ cs) s2 v first last old e1 e2 ne =
    let tail : Text = b'=' ∷ (s2 ++ ((first ∷ v) ++ (last ∷ []))) in
    let space : isspace c ≡ true = ground (arith, e1) in
    let spaces : all_spaces cs ≡ true = ground (arith, e1) in
    rw (strip-append label (c ∷ (cs ++ tail)), space, skip_spaces-append cs tail spaces)
      (sign_value s2 v first last old e2 ne)

-- On a line whose label continues the one asked for by a character that is neither white space
-- nor an equals sign, `check_line` keeps the value it had.
pub check_line_longer :
    (label more : Text) (c : ℕ) (old : Text)
    → isspace c ≡ false
    → c ≢ b'='
    → check_line (label ++ (c ∷ more)) label old ≡ some old
unfolding check_line check_label
check_line_longer label more c old e ne = rw (strip-append label (c ∷ more)) (ground (arith, e, ne))

length-take : (n : ℕ) (v : Text) → length (take n v) ≤ n
length-take zero v = omega arith
length-take (suc n) [] = omega arith
length-take (suc n) (c ∷ cs) = omega (arith, length-take n cs)

-- Every value is written with at most 46 characters: one of at most 46 as it is, a longer one as
-- its first 43 characters and three dots.
pub shorten_lem :
    (v : Text)
    → (length (shorten v) ≤ 46)
      × (length v ≤ 46 → shorten v ≡ v)
      × (46 < length v → shorten v ≡ take 43 v ++ codes "...")
unfolding shorten
shorten_lem v =
    let cut : length (take 43 v ++ codes "...") ≤ 46 =
      omega (arith, length-append (take 43 v) (codes "..."), length-take 43 v) in
    (ground (arith, cut), λ le. ground (arith, le), λ lt. ground (arith, lt))
