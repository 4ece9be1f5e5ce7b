-- ===== src/Common/Texts.antt =====
-- Texts: `chars()`, `collect::<String>()`, and the concatenation of `format!`.
use Prim.Native.Nat.{ℕ, ◌+◌}
use Prim.Native.Char.{Char, len_utf8}
use Prim.Native.String
use Prim.Native.String.{String, len}
use Prim.Native.String.len
use mathlib.Core.Path.{◌≡◌, refl, ap, ◌∙◌}
use mathlib.Core.List.{List, [], ◌∷◌, ◌++◌}
use text.Mathlib.TextLemmas.{nil-append, cons-append}
use text.Mathlib.TextPositions.{len-append}

abbrev pub chars : String → List Char
chars String.[] = []
chars (String.◌∷◌ c s) = c ∷ chars s

abbrev pub collect : List Char → String
collect [] = String.[]
collect (c ∷ cs) = String.◌∷◌ c (collect cs)

infixr 65 ◌&◌
abbrev pub ◌&◌ : String → String → String
s & t = String.◌++◌ s t

pub chars-collect : (cs : List Char) → chars (collect cs) ≡ cs
chars-collect [] = refl
chars-collect (c ∷ cs) = ap (λ t. c ∷ t) (chars-collect cs)

pub collect-chars : (s : String) → collect (chars s) ≡ s
collect-chars String.[] = refl
collect-chars (String.◌∷◌ c s) = ap (String.◌∷◌ c) (collect-chars s)

pub chars-append : (s t : String) → chars (s & t) ≡ chars s ++ chars t
chars-append String.[] t = ap chars (nil-append t)
chars-append (String.◌∷◌ c s) t = rw cons-append (ap (λ r. c ∷ r) (chars-append s t))

-- The bytes of a list of characters in UTF-8.
unfoldable pub byte_len : List Char → ℕ
byte_len [] = 0
byte_len (c ∷ cs) = len_utf8 c + byte_len cs

pub len-collect : (cs : List Char) → len (collect cs) ≡ byte_len cs
unfolding byte_len
len-collect [] = refl
len-collect (c ∷ cs) = len.cons c (collect cs) ∙ ap (λ n. len_utf8 c + n) (len-collect cs)

pub len-& : (s t : String) → len (s & t) ≡ len s + len t
len-& s t = len-append s t
