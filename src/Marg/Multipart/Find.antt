-- ===== src/Marg/Multipart/Find.antt =====
-- How a form is read by its delimiter: where a sequence of bytes occurs, and what stands between its
-- occurrences. `d` is the delimiter, and `c`, its first byte, is none of its others.
use nexus_inventory_platform.Base.{
  ℕ, zero, suc, List, [], ◌∷◌, ◌++◌, Option, none, some, Bool, true, false, ◌||◌, ◌&&◌, ◌==◌,
  if◌then◌else◌, any, length, drop, ◌≡◌, refl, arith, ==_self,
}
use nexus_inventory_platform.Marg.Multipart.{Bytes}

-- Whether the bytes start with `d`, and whether `d` occurs in them.
unfoldable pub starts : Bytes → Bytes → Bool
starts [] s = true
starts (a ∷ d) [] = false
starts (a ∷ d) (b ∷ s) = (a == b) && starts d s

unfoldable pub occurs : Bytes → Bytes → Bool
unfolding starts
occurs d [] = starts d []
occurs d (b ∷ s) = starts d (b ∷ s) || occurs d s

abbrev pub has_byte : ℕ → Bytes → Bool
has_byte c s = any (λ b. c == b) s

into_first : ℕ → List Bytes → List Bytes
into_first b [] = (b ∷ []) ∷ []
into_first b (p ∷ ps) = (b ∷ p) ∷ ps

-- The pieces between the occurrences of `d`; of an occurrence that was found the number of bytes that are
-- still to be passed over is the second argument.
unfoldable pub pieces_from : Bytes → ℕ → Bytes → List Bytes
unfolding starts into_first
pieces_from d k [] = [] ∷ []
pieces_from d (suc k) (b ∷ s) = pieces_from d k s
pieces_from d zero (b ∷ s) =
    let skipped = pieces_from d (length (drop 1 d)) s in
    let later = pieces_from d zero s in
    if starts d (b ∷ s) then [] ∷ skipped else into_first b later

unfoldable pub pieces : Bytes → Bytes → List Bytes
unfolding pieces_from
pieces d s = pieces_from d zero s

unfoldable pub before : ℕ → Option (Bytes × Bytes) → Option (Bytes × Bytes)
before b none = none
before b (some (x, y)) = some (b ∷ x, y)

-- What stands before the first occurrence of `d`, and after it.
unfoldable pub cut : Bytes → Bytes → Option (Bytes × Bytes)
unfolding starts before
cut d [] = none
cut d (b ∷ s) =
    let later = cut d s in
    if starts d (b ∷ s) then some ([], drop (length d) (b ∷ s)) else before b later

abbrev pub prepend : Bytes → Option (Bytes × Bytes) → Option (Bytes × Bytes)
prepend x none = none
prepend x (some (u, v)) = some (x ++ u, v)

prepend_nil : (o : Option (Bytes × Bytes)) → o ≡ prepend [] o
prepend_nil none = refl
prepend_nil (some (u, v)) = refl

pub before-prepend :
    (b : ℕ) (x : Bytes) (o : Option (Bytes × Bytes)) → before b (prepend x o) ≡ prepend (b ∷ x) o
unfolding before
before-prepend b x none = refl
before-prepend b x (some (u, v)) = refl

drop_past : (u y : Bytes) → drop (length u) (u ++ y) ≡ y
drop_past [] y = refl
drop_past (b ∷ u) y = drop_past u y

starts_self : (u y : Bytes) → starts u (u ++ y) ≡ true
unfolding starts
starts_self [] y = refl
starts_self (b ∷ u) y = ground (arith, ==_self b, starts_self u y)

pieces_past : (d u y : Bytes) → pieces_from d (length u) (u ++ y) ≡ pieces_from d zero y
unfolding pieces_from
pieces_past d [] y = refl
pieces_past d (b ∷ u) y = pieces_past d u y

module _ (c : ℕ) where
  -- What has no `c` is found before a `c` or not at all.
  starts_stop : (e x z : Bytes) → has_byte c e ≡ false → starts e (x ++ c ∷ z) ≡ starts e x
  unfolding starts
  starts_stop [] x z h = refl
  starts_stop (a ∷ e) [] z h = ground arith
  starts_stop (a ∷ e) (b ∷ x) z h = ground (arith, starts_stop e x z)

  module _ (d : Bytes) where
    pub occurs_free :
        (x y : Bytes) → has_byte c x ≡ false → occurs (c ∷ d) (x ++ y) ≡ occurs (c ∷ d) y
    unfolding occurs starts
    occurs_free [] y h = refl
    occurs_free (b ∷ x) y h = ground (arith, occurs_free x y)

    pub cut_free :
        (x y : Bytes) → has_byte c x ≡ false → cut (c ∷ d) (x ++ y) ≡ prepend x (cut (c ∷ d) y)
    unfolding cut starts before
    cut_free [] y h = prepend_nil (cut (c ∷ d) y)
    cut_free (b ∷ x) y h = ground (arith, cut_free x y, before-prepend b x (cut (c ∷ d) y))

    pub cut_self : (y : Bytes) → cut (c ∷ d) ((c ∷ d) ++ y) ≡ some ([], y)
    unfolding cut
    cut_self y = rw (starts_self (c ∷ d) y, drop_past d y) refl

    pub pieces_none : (x : Bytes) → occurs (c ∷ d) x ≡ false → pieces (c ∷ d) x ≡ x ∷ []
    unfolding pieces pieces_from occurs into_first
    pieces_none [] h = refl
    pieces_none (b ∷ x) h = ground (arith, pieces_none x)

    starts_before :
        (x y : Bytes) → has_byte c d ≡ false → starts d (x ++ ((c ∷ d) ++ y)) ≡ starts d x
    starts_before x y k = starts_stop d x (d ++ y) k

    -- The first occurrence of the delimiter is the one that was put there.
    pub pieces_split :
        (x y : Bytes)
        → has_byte c d ≡ false
        → occurs (c ∷ d) x ≡ false
        → pieces (c ∷ d) (x ++ ((c ∷ d) ++ y)) ≡ x ∷ pieces (c ∷ d) y
    unfolding pieces pieces_from occurs into_first
    pieces_split [] y k h = rw (starts_self (c ∷ d) y, pieces_past (c ∷ d) d y) refl
    pieces_split (b ∷ x) y k h = ground (arith, pieces_split x y k, starts_before x y k)
