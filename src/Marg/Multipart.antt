-- ===== src/Marg/Multipart.antt =====
-- integrations/marg_hook/nexus_marg_sync.py: `_multipart`, the body of an upload as bytes. What
-- mimetypes.guess_type knows of a name is an argument.
pub mod Find
pub mod Read
pub mod Parts
use Prim.Native.Char.{code}
use Prim.Native.String.{[], ◌∷◌}
use nexus_inventory_platform.Base.{
  ℕ, String, List, [], ◌∷◌, ◌++◌, Option, none, some, Bool, ltb, str_eq, if◌then◌else◌, ◌+◌, ◌/◌,
  ◌%◌,
}

abbrev pub Bytes : Type 0
Bytes = List ℕ

-- The UTF-8 of one code point.
unfoldable pub utf8 : ℕ → Bytes
utf8 c =
    if ltb c 0x80
    then c ∷ []
    else if ltb c 0x800
    then (0xc0 + c / 64) ∷ (0x80 + c % 64) ∷ []
    else if ltb c 0x10000
    then (0xe0 + c / 4096) ∷ (0x80 + (c / 64) % 64) ∷ (0x80 + c % 64) ∷ []
    else (0xf0 + c / 262144)
      ∷ (0x80 + (c / 4096) % 64)
      ∷ (0x80 + (c / 64) % 64)
      ∷ (0x80 + c % 64)
      ∷ []

-- str.encode()
unfoldable pub encode : String → Bytes
unfolding utf8
encode [] = []
encode (c ∷ s) = utf8 (code c) ++ encode s

-- "\r\n"
abbrev pub crlf : Bytes
crlf = 13 ∷ 10 ∷ []

-- b"".join(chunks)
unfoldable pub join : List Bytes → Bytes
join [] = []
join (chunk ∷ chunks) = chunk ++ join chunks

-- The heads of the two kinds of parts, of which the code writes the blank line too.
unfoldable pub field_head : Bytes → Bytes
unfolding encode
field_head name = encode "Content-Disposition: form-data; name=\"" ++ name ++ encode "\""

unfoldable pub file_disposition : Bytes → Bytes → Bytes
unfolding encode
file_disposition file_field name =
    encode "Content-Disposition: form-data; name=\""
    ++ file_field
    ++ encode "\"; filename=\""
    ++ name
    ++ encode "\""

unfoldable pub file_head : Bytes → Bytes → Bytes → Bytes
unfolding encode file_disposition
file_head file_field name mime_type =
    file_disposition file_field name ++ (crlf ++ (encode "Content-Type: " ++ mime_type))

-- mimetypes.guess_type(path.name)[0] or "text/csv"
unfoldable pub mime_type_of : Option String → String
mime_type_of none = "text/csv"
mime_type_of (some t) = if str_eq t "" then "text/csv" else t

module _ (boundary : Bytes) where
  -- The loop over the fields, before the chunks that follow it.
  unfoldable pub field_chunks : List (String × String) → List Bytes → List Bytes
  unfolding encode field_head
  field_chunks [] chunks = chunks
  field_chunks ((name, value) ∷ fields) chunks =
      (encode "--" ++ boundary ++ crlf)
      ∷ (field_head (encode name) ++ crlf ++ crlf)
      ∷ encode value
      ∷ crlf
      ∷ field_chunks fields chunks

  unfoldable pub file_chunks : Bytes → Bytes → Bytes → Bytes → List Bytes
  unfolding encode file_head
  file_chunks file_field name mime_type content =
      (encode "--" ++ boundary ++ crlf)
      ∷ (file_head file_field name mime_type ++ crlf ++ crlf)
      ∷ content
      ∷ crlf
      ∷ (encode "--" ++ boundary ++ encode "--" ++ crlf)
      ∷ []

-- `_multipart`: the body; the content type is `multipart/form-data` with the boundary.
unfoldable pub multipart :
    String → List (String × String) → String → String → Option String → Bytes → Bytes
unfolding encode join field_chunks file_chunks mime_type_of
multipart boundary fields file_field name guessed content = join (
    field_chunks (encode boundary) fields (
      file_chunks (encode boundary) (encode file_field) (encode name)
        (encode (mime_type_of guessed)) content))
