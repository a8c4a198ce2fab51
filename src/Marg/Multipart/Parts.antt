-- ===== src/Marg/Multipart/Parts.antt =====
-- The parts that `_multipart` writes, and that a reader of its body gets them back.
use mathlib.Core.List.{append_assoc, append-nil}
use nexus_inventory_platform.Base.{
  ℕ, String, List, [], ◌∷◌, ◌++◌, Option, some, false, All, map, drop, ◌≡◌, refl, arith, ap, ◌∙◌,
}
use nexus_inventory_platform.Marg.Multipart.{
  Bytes, encode, utf8, crlf, join, field_head, file_disposition, file_head, mime_type_of,
  field_chunks, file_chunks, multipart,
}
use nexus_inventory_platform.Marg.Multipart.Find.{
  starts, occurs, has_byte, cut, before, occurs_free, cut_free, cut_self, prepend, before-prepend,
}
use nexus_inventory_platform.Marg.Multipart.Read.{
  delimiter, framed, IsReadable, read_form, read_form-framed,
}

abbrev pub field_part : String × String → Bytes × Bytes
unfolding field_head encode
field_part (name, value) = (field_head (encode name), encode value)

free-append :
    (c : ℕ) (x y : Bytes)
    → has_byte c x ≡ false
    → has_byte c y ≡ false
    → has_byte c (x ++ y) ≡ false
free-append c [] y h k = k
free-append c (b ∷ x) y h k = ground (arith, free-append c x y)

-- A line of a head begins with the `C` of its name, and has no end of line in it.
module _ (boundary line : Bytes) (clean : has_byte 13 line ≡ false) where
  occurs_line :
      (y : Bytes)
      → occurs (delimiter boundary) (crlf ++ ((67 ∷ line) ++ y)) ≡ occurs (delimiter boundary) y
  unfolding occurs starts
  occurs_line y = occurs_free 13 (10 ∷ 45 ∷ 45 ∷ boundary) line y clean

  cut_line :
      (y : Bytes)
      → cut (crlf ++ crlf) ((67 ∷ line) ++ y) ≡ prepend (67 ∷ line) (cut (crlf ++ crlf) y)
  cut_line y = cut_free 13 (10 ∷ crlf) (67 ∷ line) y clean

  cut_next :
      (y : Bytes)
      → cut (crlf ++ crlf) (crlf ++ ((67 ∷ line) ++ y))
        ≡ prepend (crlf ++ (67 ∷ line)) (cut (crlf ++ crlf) y)
  unfolding cut before starts
  cut_next y =
      rw (cut_line y, before-prepend 10 (67 ∷ line) (cut (crlf ++ crlf) y))
        (before-prepend 13 (10 ∷ 67 ∷ line) (cut (crlf ++ crlf) y))

module _ (boundary content : Bytes)
    (apart : occurs (delimiter boundary) (crlf ++ content) ≡ false) where
  line-IsReadable :
      (line : Bytes) → has_byte 13 line ≡ false → IsReadable boundary (67 ∷ line, content)
  unfolding occurs starts
  line-IsReadable line clean = record {
    apart = occurs_line boundary line clean (crlf ++ (crlf ++ content)) ∙ apart;
    headed =
        cut_line boundary line clean (crlf ++ (crlf ++ content))
        ∙ ap (prepend (67 ∷ line)) (cut_self 13 (10 ∷ crlf) content)
        ∙ ap (λ x. some (67 ∷ x, content)) (append-nil line);
  }

  lines-IsReadable :
      (line more : Bytes)
      → has_byte 13 line ≡ false
      → has_byte 13 more ≡ false
      → IsReadable boundary ((67 ∷ line) ++ (crlf ++ (67 ∷ more)), content)
  unfolding occurs starts
  lines-IsReadable line more clean too =
      let rest : Bytes = crlf ++ (crlf ++ content) in
      let nested : ((67 ∷ line) ++ (crlf ++ (67 ∷ more))) ++ rest
          ≡ (67 ∷ line) ++ (crlf ++ ((67 ∷ more) ++ rest)) =
        append_assoc (67 ∷ line) (crlf ++ (67 ∷ more)) rest in
      record {
        apart =
            ap (λ s. occurs (delimiter boundary) (crlf ++ s)) nested
            ∙ occurs_line boundary line clean (crlf ++ ((67 ∷ more) ++ rest))
            ∙ occurs_line boundary more too rest
            ∙ apart;
        headed =
            ap (cut (crlf ++ crlf)) nested
            ∙ cut_line boundary line clean (crlf ++ ((67 ∷ more) ++ rest))
            ∙ ap (prepend (67 ∷ line)) (cut_next boundary more too rest)
            ∙ ap (λ o. prepend (67 ∷ line) (prepend (crlf ++ (67 ∷ more)) o))
                (cut_self 13 (10 ∷ crlf) content)
            ∙ ap (λ x. some ((67 ∷ line) ++ (crlf ++ (67 ∷ x)), content)) (append-nil more);
      }

-- What the reader needs of a field: no carriage return in its name, and no delimiter in its value.
abbrev pub IsPlain : Bytes → String × String → Type 0
unfolding encode
IsPlain boundary (name, value) =
    (has_byte 13 (encode name) ≡ false)
    × (occurs (delimiter boundary) (crlf ++ encode value) ≡ false)

field_part-IsReadable :
    (boundary : Bytes) (field : String × String)
    → IsPlain boundary field
    → IsReadable boundary (field_part field)
unfolding field_part field_head utf8
field_part-IsReadable boundary (name, value) (clean, apart) =
    line-IsReadable boundary (encode value) apart (drop 1 (field_head (encode name)))
      (free-append 13 (encode name) (34 ∷ []) clean refl)

module _ (boundary : Bytes) (file_field name mime_type content : Bytes) where
  abbrev file_part : Bytes × Bytes
  unfolding file_head
  file_part = (file_head file_field name mime_type, content)

  file_chunks-framed :
      crlf ++ join (file_chunks boundary file_field name mime_type content)
      ≡ framed boundary (file_part ∷ [])
  unfolding file_chunks join framed encode utf8
  file_chunks-framed = simp append_assoc

  chunks-framed :
      (fields : List (String × String))
      → crlf
          ++ join (
              field_chunks boundary fields (file_chunks boundary file_field name mime_type content))
        ≡ framed boundary (map field_part fields ++ (file_part ∷ []))
  unfolding field_chunks join framed encode utf8
  chunks-framed [] = file_chunks-framed
  chunks-framed ((n, value) ∷ fields) = simp (append_assoc, chunks-framed fields)

  file_part-IsReadable :
      has_byte 13 file_field ≡ false
      → has_byte 13 name ≡ false
      → has_byte 13 mime_type ≡ false
      → occurs (delimiter boundary) (crlf ++ content) ≡ false
      → IsReadable boundary file_part
  unfolding file_part file_disposition encode utf8
  file_part-IsReadable h k m apart =
      lines-IsReadable boundary content apart (drop 1 (file_disposition file_field name))
        (drop 1 (encode "Content-Type: ") ++ mime_type)
        (free-append 13 (file_field ++ encode "\"; filename=\"" ++ name) (34 ∷ [])
          (free-append 13 (file_field ++ encode "\"; filename=\"") name
            (free-append 13 file_field (encode "\"; filename=\"") h refl) k)
          refl)
        m

  parts-IsReadable :
      (fields : List (String × String))
      → All (IsPlain boundary) fields
      → IsReadable boundary file_part
      → All (IsReadable boundary) (map field_part fields ++ (file_part ∷ []))
  parts-IsReadable [] hs r = (r, tt)
  parts-IsReadable (field ∷ fields) (h, hs) r =
      (field_part-IsReadable boundary field h, parts-IsReadable fields hs r)

-- The body of an upload, read by its boundary, has the fields in their order and then the file, each with
-- its head and exactly its content: if the names and the boundary have no carriage return in them, and
-- the delimiter does not stand in a value or in the file.
pub multipart-read_form :
    (boundary : String) (fields : List (String × String)) (file_field name : String)
    (guessed : Option String) (content : Bytes)
    → has_byte 13 (encode boundary) ≡ false
    → All (IsPlain (encode boundary)) fields
    → has_byte 13 (encode file_field) ≡ false
    → has_byte 13 (encode name) ≡ false
    → has_byte 13 (encode (mime_type_of guessed)) ≡ false
    → occurs (delimiter (encode boundary)) (crlf ++ content) ≡ false
    → read_form (encode boundary) (multipart boundary fields file_field name guessed content)
      ≡ some (
          map field_part fields
          ++ ((file_head (encode file_field) (encode name) (encode (mime_type_of guessed)), content)
              ∷ []))
unfolding multipart
multipart-read_form boundary fields file_field name guessed content clean hs h k m apart =
    let b = encode boundary in
    let f = encode file_field in
    let n = encode name in
    let t = encode (mime_type_of guessed) in
    read_form-framed b (join (field_chunks b fields (file_chunks b f n t content)))
      (map field_part fields ++ ((file_head f n t, content) ∷ [])) clean
      (parts-IsReadable b f n t content fields hs
        (file_part-IsReadable b f n t content h k m apart))
      (chunks-framed b f n t content fields)
