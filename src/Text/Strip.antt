-- ===== src/Text/Strip.antt =====
-- `strip` removes what it should and does so once.
use Prim.Native.Char.{Char, code}
use Prim.Native.String.{String, [], ◌∷◌}
use mathlib.Core.Path.{◌≡◌, refl}
use mathlib.Core.Bool.{false}
use mathlib.Core.Logic.{inl, inr}
use nexus_inventory_platform.Base.{Bool-cases}
use nexus_inventory_platform.Text.{is_space, lstrip, rstrip, strip, strip_cons}

-- No blank at the left end.
abbrev LeftTrimmed : String → Type 0
LeftTrimmed [] = Unit
LeftTrimmed (c ∷ s) = is_space (code c) ≡ false

lstrip-LeftTrimmed : (s : String) → LeftTrimmed (lstrip s)
unfolding lstrip
lstrip-LeftTrimmed [] = tt
lstrip-LeftTrimmed (c ∷ s) = elim (Bool-cases (is_space (code c))) [
  | inl e ↦ rw e (lstrip-LeftTrimmed s)
  | inr e ↦ rw e e
]

lstrip_fixed : (s : String) → LeftTrimmed s → lstrip s ≡ s
unfolding lstrip
lstrip_fixed [] h = refl
lstrip_fixed (c ∷ s) h = rw h

strip_cons-LeftTrimmed :
    (c : Char) (s : String) → is_space (code c) ≡ false → LeftTrimmed (strip_cons c s)
unfolding strip_cons
strip_cons-LeftTrimmed c [] h = rw h h
strip_cons-LeftTrimmed c (d ∷ s) h = h

rstrip-LeftTrimmed : (s : String) → LeftTrimmed s → LeftTrimmed (rstrip s)
unfolding rstrip
rstrip-LeftTrimmed [] h = tt
rstrip-LeftTrimmed (c ∷ s) h = strip_cons-LeftTrimmed c (rstrip s) h

rstrip-strip_cons :
    (c : Char) (s : String) → rstrip s ≡ s → rstrip (strip_cons c s) ≡ strip_cons c s
unfolding rstrip strip_cons
rstrip-strip_cons c [] h = elim (Bool-cases (is_space (code c))) [
  | inl e ↦ rw e
  | inr e ↦ rw (e, e)
]
rstrip-strip_cons c (d ∷ s) h = rw h

rstrip-rstrip : (s : String) → rstrip (rstrip s) ≡ rstrip s
unfolding rstrip
rstrip-rstrip [] = refl
rstrip-rstrip (c ∷ s) = rstrip-strip_cons c (rstrip s) (rstrip-rstrip s)

-- A stripped text is left alone by another `strip`.
pub strip-strip : (s : String) → strip (strip s) ≡ strip s
unfolding strip
strip-strip s =
    rw (lstrip_fixed (rstrip (lstrip s)) (rstrip-LeftTrimmed (lstrip s) (lstrip-LeftTrimmed s)))
      (rstrip-rstrip (lstrip s))
