-- ===== src/Npb/Cg/Tests.antt =====
-- The theorems on the sparse vectors of CG, at small sizes.
use hardposit_fpga.Base.{◌+◌, ◌≤◌, arith}
use hardposit_fpga.Npb.Random.{randlc}
use hardposit_fpga.Npb.Cg.{Draw, sprnvc_round, sprnvc_rounds, Entries}

abbrev started : Draw
started = record {
  tran = 314159265;
  v = λ j. 0;
  iv = λ j. 0;
  nzloc = λ j. 0;
  mark = λ x. 0;
  nzrow = 0;
  nzv = 0;
}

-- Six rounds for a vector of length ten.
abbrev six_rounds : Draw
six_rounds = sprnvc_rounds (λ e. e) 1220703125 10 16 6 started

two_drawn : 2 ≤ six_rounds.nzv
unfolding sprnvc_rounds sprnvc_round randlc
two_drawn = omega arith

abbrev two_entries : Entries
two_entries = record { v = λ j. 7; iv = λ j. j + 4; nzv = 2 }
