-- ===== src/Marg/Multipart/Read.antt =====
-- A form as its reader takes it apart, by the delimiter and the blank line after the head of a part.
use nexus_inventory_platform.Base.{
  List, [], ◌∷◌, ◌++◌, Option, none, some, false, if◌then◌else◌, All, drop, ◌≡◌, refl, ap, ◌∙◌,
}
use nexus_inventory_platform.Marg.Multipart.{Bytes, crlf}
use nexus_inventory_platform.Marg.Multipart.Find.{
  starts, occurs, has_byte, pieces, cut, pieces_none, pieces_split,
}

abbrev pub dashes : Bytes
dashes = 45 ∷ 45 ∷ []

-- The line that stands between the parts, from the end of the line before.
abbrev pub delimiter : Bytes → Bytes
delimiter boundary = crlf ++ (dashes ++ boundary)

and_part : Option (Bytes × Bytes) → Option (List (Bytes × Bytes)) → Option (List (Bytes × Bytes))
and_part none ps = none
and_part (some p) none = none
and_part (some p) (some ps) = some (p ∷ ps)

-- A head and a content for each piece, up to the one that begins with two dashes.
unfoldable pub read_parts : List Bytes → Option (List (Bytes × Bytes))
unfolding starts cut and_part
read_parts [] = none
read_parts (p ∷ ps) =
    let later = read_parts ps in
    if starts dashes p then some [] else and_part (cut (crlf ++ crlf) (drop 2 p)) later

-- RFC 2046: what stands before the first delimiter is passed over.
unfoldable pub read_form : Bytes → Bytes → Option (List (Bytes × Bytes))
unfolding read_parts pieces
read_form boundary body = read_parts (drop 1 (pieces (delimiter boundary) (crlf ++ body)))

-- The piece of a part.
abbrev pub piece : Bytes × Bytes → Bytes
piece (head, content) = crlf ++ (head ++ (crlf ++ (crlf ++ content)))

-- The pieces joined by the delimiter, with the closing one.
unfoldable pub framed : Bytes → List (Bytes × Bytes) → Bytes
framed boundary [] = delimiter boundary ++ (dashes ++ crlf)
framed boundary (p ∷ ps) = delimiter boundary ++ (piece p ++ framed boundary ps)

-- A part that its reader finds again: neither the delimiter nor the blank line stand where they are not
-- meant.
pub record IsReadable (boundary : Bytes) (p : Bytes × Bytes) : Type 0 where
  pub apart : occurs (delimiter boundary) (piece p) ≡ false
  pub headed : cut (crlf ++ crlf) (p.0 ++ (crlf ++ (crlf ++ p.1))) ≡ some p

module _ (boundary : Bytes) (clean : has_byte 13 boundary ≡ false) where
  tail_free : has_byte 13 (10 ∷ 45 ∷ 45 ∷ boundary) ≡ false
  tail_free = clean

  framed_pieces : (ps : List (Bytes × Bytes)) → Bytes → List Bytes
  framed_pieces [] first = first ∷ (dashes ++ crlf) ∷ []
  framed_pieces (p ∷ ps) first = first ∷ framed_pieces ps (piece p)

  pieces-framed :
      (ps : List (Bytes × Bytes)) (x : Bytes)
      → All (IsReadable boundary) ps
      → occurs (delimiter boundary) x ≡ false
      → pieces (delimiter boundary) (x ++ framed boundary ps) ≡ framed_pieces ps x
  unfolding framed framed_pieces occurs starts
  pieces-framed [] x r h =
      pieces_split 13 (10 ∷ 45 ∷ 45 ∷ boundary) x (dashes ++ crlf) tail_free h
      ∙ ap (λ ps. x ∷ ps) (pieces_none 13 (10 ∷ 45 ∷ 45 ∷ boundary) (dashes ++ crlf) refl)
  pieces-framed (p ∷ ps) x (r, rs) h =
      pieces_split 13 (10 ∷ 45 ∷ 45 ∷ boundary) x (piece p ++ framed boundary ps) tail_free h
      ∙ ap (λ qs. x ∷ qs) (pieces-framed ps (piece p) rs r.apart)

  read_parts-framed_pieces :
      (ps : List (Bytes × Bytes)) (x : Bytes)
      → All (IsReadable boundary) ps
      → read_parts (drop 1 (framed_pieces ps x)) ≡ some ps
  unfolding framed_pieces read_parts and_part starts
  read_parts-framed_pieces [] x r = refl
  read_parts-framed_pieces (p ∷ []) x (r, rs) = rw (r.headed, and_part) refl
  read_parts-framed_pieces (p ∷ q ∷ ps) x (r, rs) =
      rw (r.headed, read_parts-framed_pieces (q ∷ ps) x rs, and_part) refl

-- A body that frames readable parts is read as those parts.
pub read_form-framed :
    (boundary body : Bytes) (ps : List (Bytes × Bytes))
    → has_byte 13 boundary ≡ false
    → All (IsReadable boundary) ps
    → crlf ++ body ≡ framed boundary ps
    → read_form boundary body ≡ some ps
unfolding read_form occurs starts
read_form-framed boundary body ps clean r h =
    ap (λ x. read_parts (drop 1 (pieces (delimiter boundary) x))) h
    ∙ ap (λ x. read_parts (drop 1 x)) (pieces-framed boundary clean ps [] r refl)
    ∙ read_parts-framed_pieces boundary clean ps [] r
