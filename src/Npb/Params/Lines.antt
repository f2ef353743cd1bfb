-- ===== src/Npb/Params/Lines.antt =====
-- sw/NPBhardposit/sys/setparams.c: the lines of make.def that `check_line` and `check_include_line`
-- read, and the definitions that `put_string` and its kin write.
pub mod Values
use hardposit_fpga.Base.{
  ℕ, zero, suc, ◌+◌, ◌-◌, ◌*◌, ◌/◌, ◌%◌, Bool, true, false, not, ◌&&◌, ◌||◌, Option, none, some,
  List, [], ◌∷◌, ◌++◌, length, ◌==◌, ltb, leb, if◌then◌else◌,
}
use hardposit_fpga.Base.Texts.{
  Text, codes, isspace, skip_spaces, Rest, mismatch, rest, strip, decimal,
}

-- `val[strlen(val)-1] = '\0'`
unfoldable pub chop : Text → Text
chop [] = []
chop (c ∷ []) = []
chop (c ∷ d ∷ cs) = c ∷ chop (d ∷ cs)

-- `val[strlen(val) - 1] == '\\'`. On an empty value the source reads the byte before the array; it
-- is taken to be another one.
unfoldable pub ends_with_backslash : Text → Bool
ends_with_backslash [] = false
ends_with_backslash (c ∷ []) = c == 92
ends_with_backslash (c ∷ d ∷ cs) = ends_with_backslash (d ∷ cs)

-- The value behind the sign, if there is one: the new content of `val`, or `exit(1)`.
unfoldable pub take_value : Text → Text → Option Text
take_value [] val = some val
take_value (c ∷ cs) val = let v = chop (c ∷ cs) in if ends_with_backslash v then none else some v

-- From the sign on.
unfoldable pub check_sign : Text → Text → Option Text
check_sign [] val = some val
check_sign (c ∷ cs) val = if c == b'=' then take_value (skip_spaces cs) val else some val

-- Behind the label: a longer label is another one.
unfoldable pub check_label : Rest → Text → Option Text
check_label mismatch val = some val
check_label (rest []) val = some val
check_label (rest (c ∷ cs)) val =
    if isspace c || (c == b'=') then check_sign (skip_spaces (c ∷ cs)) val else some val

-- `check_line(line, label, val)`
unfoldable pub check_line : Text → Text → Text → Option Text
check_line line label val = check_label (strip label line) val

-- What stands behind the name of the included file.
unfoldable pub ends_name : Rest → Bool
ends_name mismatch = false
ends_name (rest []) = true
ends_name (rest (c ∷ cs)) = (c == b' ') || (c == 10)

unfoldable pub check_name : Text → Text → Bool
check_name [] filename = false
check_name (c ∷ cs) filename = ends_name (strip filename (c ∷ cs))

unfoldable pub check_word : Rest → Text → Bool
check_word mismatch filename = false
check_word (rest []) filename = false
check_word (rest (c ∷ cs)) filename =
    if isspace c then check_name (skip_spaces cs) filename else false

-- `check_include_line(line, filename)`
unfoldable pub check_include_line : Text → Text → Bool
check_include_line line filename = check_word (strip (codes "include") line) filename

abbrev pub take : ℕ → Text → Text
take zero cs = []
take (suc n) [] = []
take (suc n) (c ∷ cs) = c ∷ take n cs

abbrev pub maxl : ℕ
maxl = 46

-- A value that is too long is cut, and its last three characters become dots.
unfoldable pub shorten : Text → Text
shorten val = if ltb maxl (length val) then take 43 val ++ codes "..." else val

-- `put_def_string`: `#define %s "%s"\n`
unfoldable pub put_def_string : Text → Text → Text
put_def_string name val =
    codes "#define " ++ name ++ codes " \"" ++ shorten val ++ codes "\"" ++ (10 ∷ [])

-- `put_def_variable`: `#define %s %s\n`
unfoldable pub put_def_variable : Text → Text → Text
put_def_variable name val = codes "#define " ++ name ++ codes " " ++ shorten val ++ (10 ∷ [])

-- `put_string`, for Fortran.
unfoldable pub put_string : Text → Text → Text
put_string name val =
    let v = shorten val in
    codes "        character*"
    ++ decimal (length v)
    ++ codes " "
    ++ name
    ++ (10 ∷ [])
    ++ codes "        parameter ("
    ++ name
    ++ codes "='"
    ++ v
    ++ codes "')"
    ++ (10 ∷ [])
