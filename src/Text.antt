-- ===== src/Text.antt =====
-- Python's text operations that app/ and integrations/ use: `strip`, `lower`, and the removal of
-- commas by `replace(",", "")`. Case is that of the ASCII letters.
pub mod Strip
use Prim.Native.Nat.{ℕ}
use Prim.Native.Char.{Char, code}
use Prim.Native.String.{String, [], ◌∷◌}
use mathlib.Core.Path.{◌≡◌, refl}
use mathlib.Core.Bool.{Bool, ◌&&◌, ◌||◌}
use nexus_inventory_platform.Base.{leb, ◌==◌, if◌then◌else◌}

-- str.isspace on one code point.
unfoldable pub is_space : ℕ → Bool
is_space c =
    (leb 9 c && leb c 13)
    || (leb 28 c && leb c 32)
    || c == 0x85
    || c == 0xa0
    || c == 0x1680
    || (leb 0x2000 c && leb c 0x200a)
    || c == 0x2028
    || c == 0x2029
    || c == 0x202f
    || c == 0x205f
    || c == 0x3000

unfoldable pub lstrip : String → String
unfolding is_space
lstrip [] = []
lstrip (c ∷ s) = if is_space (code c) then lstrip s else c ∷ s

-- What is left of a text from its first character on, when the rest has been stripped.
pub strip_cons : Char → String → String
unfolding is_space
strip_cons c [] = if is_space (code c) then [] else c ∷ []
strip_cons c (d ∷ s) = c ∷ d ∷ s

unfoldable pub rstrip : String → String
unfolding strip_cons
rstrip [] = []
rstrip (c ∷ s) = strip_cons c (rstrip s)

unfoldable pub strip : String → String
unfolding lstrip rstrip
strip s = rstrip (lstrip s)

unfoldable pub remove_commas : String → String
remove_commas [] = []
remove_commas (c ∷ s) = if code c == b',' then remove_commas s else c ∷ remove_commas s

-- The character of the second text at the place where the first has `c`, or `c` itself.
translate : String → String → Char → Char
translate [] _ c = c
translate (u ∷ us) [] c = c
translate (u ∷ us) (l ∷ ls) c = if code c == code u then l else translate us ls c

lower_char : Char → Char
unfolding translate
lower_char c = translate "ABCDEFGHIJKLMNOPQRSTUVWXYZ" "abcdefghijklmnopqrstuvwxyz" c

unfoldable pub lower : String → String
unfolding lower_char
lower [] = []
lower (c ∷ s) = lower_char c ∷ lower s

test_lower : lower "Ab-Z9" ≡ "ab-z9"
unfolding lower
test_lower = refl

test_strip : strip "  a b\n " ≡ "a b"
unfolding strip
test_strip = refl
