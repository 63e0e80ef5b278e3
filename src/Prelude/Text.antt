-- ===== src/Prelude/Text.antt =====
-- Python's `str` methods that the code uses, on the native texts.
use Prim.Native.Char.{Char, code}
use Prim.Native.String.{String, [], ◌∷◌}
use mathlib.Core.List.{List, [] as nil, ◌∷◌ as ◌◂◌}
use Prim.Native.Nat.{ℕ}
use mathlib.Core.Bool.{Bool, true, false, ◌&&◌, ◌||◌}
use resilient_python_api.Prelude.Tests.{if◌then◌else◌, eqb, leb}

-- One character before the text whose parts are given.
attach_part : Char → List String → List String
attach_part c nil = nil
attach_part c (◌◂◌ part parts) =
    if eqb (code c) b'.' then ◌◂◌ [] (◌◂◌ part parts) else ◌◂◌ (c ∷ part) parts

-- s.split(".")
unfoldable pub split_dot : String → List String
unfolding attach_part
split_dot [] = ◌◂◌ [] nil
split_dot (c ∷ s) = attach_part c (split_dot s)

-- c.isspace(), by the code point
is_space : ℕ → Bool
is_space c =
    (leb 9 c && leb c 13)
    || (leb 28 c && leb c 32)
    || eqb c 133
    || eqb c 160
    || eqb c 5760
    || (leb 8192 c && leb c 8202)
    || eqb c 8232
    || eqb c 8233
    || eqb c 8239
    || eqb c 8287
    || eqb c 12288

is_empty : String → Bool
is_empty [] = true
is_empty (c ∷ s) = false

lstrip : String → String
unfolding is_space
lstrip [] = []
lstrip (c ∷ s) = let rest = lstrip s in if is_space (code c) then rest else c ∷ s

rstrip : String → String
unfolding is_space is_empty
rstrip [] = []
rstrip (c ∷ s) = let rest = rstrip s in if is_empty rest && is_space (code c) then [] else c ∷ rest

-- s.strip()
unfoldable pub strip : String → String
unfolding lstrip rstrip
strip s = rstrip (lstrip s)
