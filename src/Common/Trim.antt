-- ===== src/Common/Trim.antt =====
-- `str::trim` of the language's library.
use Prim.Native.Char.{Char, code}
use Prim.Native.String.{String}
use mathlib.Core.Bool.{Bool, ◌&&◌, ◌||◌}
use mathlib.Core.List.{List, [], ◌∷◌}
use kube_frontend_forge_cont.Common.Tests.{leb, eqb, if◌then◌else◌}
use kube_frontend_forge_cont.Common.Texts.{chars, collect}

-- `str::trim`: the characters of the Unicode property White_Space are cut off at both ends.
pub is_whitespace : Char → Bool
is_whitespace c =
    (leb 9 (code c) && leb (code c) 13)
    || eqb (code c) 32
    || eqb (code c) 133
    || eqb (code c) 160
    || eqb (code c) 5760
    || (leb 8192 (code c) && leb (code c) 8202)
    || eqb (code c) 8232
    || eqb (code c) 8233
    || eqb (code c) 8239
    || eqb (code c) 8287
    || eqb (code c) 12288

pub trim_left : List Char → List Char
trim_left [] = []
trim_left (c ∷ cs) = if is_whitespace c then trim_left cs else c ∷ cs

abbrev cons_unless_space : Char → List Char → List Char
cons_unless_space c [] = if is_whitespace c then [] else c ∷ []
cons_unless_space c (d ∷ ds) = c ∷ d ∷ ds

pub trim_right : List Char → List Char
trim_right [] = []
trim_right (c ∷ cs) = cons_unless_space c (trim_right cs)

unfoldable pub trim : String → String
unfolding trim_left trim_right is_whitespace
trim s = collect (trim_right (trim_left (chars s)))
