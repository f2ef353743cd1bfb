-- ===== src/Runtime/Invariant/Counting.antt =====
-- The object counter of sw/Hardposit/include/hardposit.h.
use hardposit_fpga.Base.{ℕ, ◌+◌, ◌-◌, List, [], ◌∷◌, true, false, ltb, if◌then◌else◌, Bool}
use hardposit_fpga.Runtime.State.{Counter, count_created, count_destroyed}

-- The counter after constructions (`true`) and destructions (`false`), the latest last.
unfoldable pub count_all : List Bool → Counter → Counter
count_all [] c = c
count_all (true ∷ es) c = count_all es (count_created c)
count_all (false ∷ es) c = count_all es (count_destroyed c)

-- The same in unbounded numbers: created, living, the greatest that living was.
abbrev pub Tally : Type 0
Tally = ℕ × ℕ × ℕ

abbrev pub tally : List Bool → Tally → Tally
tally [] t = t
tally (true ∷ es) (c, l, m) = tally es (c + 1, l + 1, if ltb m (l + 1) then l + 1 else m)
tally (false ∷ es) (c, l, m) = tally es (c, l - 1, m)

abbrev pub length : List Bool → ℕ
length [] = 0
length (_ ∷ es) = length es + 1
