-- ===== src/Files/Prepare.antt =====
-- What an upload must be (data_agent/services/managed_file_service.py): the name, the declared type, the
-- size and the content. The functions of Python on text are parameters.
pub mod Checks
pub mod Laws
use deep_data_agent.Prelude.{
  ℕ, Bool, true, false, ◌&&◌, ◌||◌, not, Option, none, some, List, [], ◌∷◌, ◌++◌, String, str_eq,
  listed, leb, ltb, length, if◌then◌else◌,
}
use deep_data_agent.Files.{
  FileError, invalid_file_id, invalid_filename, unsupported_file_type, invalid_file_content,
  unsafe_csv_formula, file_too_large, crash, Result, ok, err, ◌then◌, FileTypeSpec, file_types,
  Bytes, PreparedFile,
}
use text.Mathlib.Text.{starts_with}
use Prim.Native.String.{count}

-- Python on text, by the calls of the source.
pub record Texts : Type 0 where
  -- `str(UUID(value))`, or `none` where it raises
  pub uuid : String → Option String
  -- `unicodedata.normalize("NFC", value).strip()`
  pub normalize : String → String
  -- `part in text`
  pub contains : String → String → Bool
  -- a character below 32, or 127
  pub has_control : String → Bool
  -- `Path(name).suffix.lower()`, and `name[:-n]`
  pub suffix : String → String
  pub drop_last : ℕ → String → String
  -- `text[:n]`
  pub take : ℕ → String → String
  -- `content_type.partition(";")[0].strip().lower()`
  pub media : String → String
  pub lstrip : String → String
  -- `content.decode("utf-8-sig")`, or `none`
  pub decode : Bytes → Option String
  -- whether `json.loads` raises JSONDecodeError or RecursionError
  pub json_fails : String → Bool
  -- the rows that `csv.reader` yields, and whether it raises after them
  pub csv_rows : String → List (List String) × Bool
  pub sha256 : Bytes → String

module _ (t : Texts) where
  -- `normalize_file_id`
  unfoldable pub normalize_file_id : String → Result String
  normalize_file_id value = elim (t.uuid value) [
    | none ↦ err invalid_file_id
    | some normalized ↦ if str_eq value normalized then ok normalized else err invalid_file_id
  ]

  -- The conditions on a name that are independent of its type.
  unfoldable pub is_filename : String → Bool
  is_filename name =
      not (str_eq name "")
      && leb (count name) 255
      && not (t.contains "/" name)
      && not (t.contains "\\" name)
      && not (t.has_control name)

  unfoldable pub typed_name : String → String → Result (String × String × FileTypeSpec)
  typed_name name suffix =
      let stem = if str_eq suffix "" then name else t.drop_last (count suffix) name in
      if str_eq suffix "" || t.contains "." stem
      then err unsupported_file_type
      else elim (file_types suffix) [
        | none ↦ err unsupported_file_type
        | some spec ↦ ok (name, suffix, spec)
      ]

  -- `_normalize_filename`
  unfoldable pub normalize_filename : Option String → Result (String × String × FileTypeSpec)
  normalize_filename none = err invalid_filename
  normalize_filename (some value) =
      let name = t.normalize value in
      if is_filename name then typed_name name (t.suffix name) else err invalid_filename

  abbrev or_empty : Option String → String
  or_empty none = ""
  or_empty (some value) = value

  -- `_validate_declared_type`
  unfoldable pub validate_declared_type : Option String → FileTypeSpec → Result (Unit {0})
  validate_declared_type content_type spec =
      let declared = t.media (or_empty content_type) in
      if listed declared ("" ∷ "application/octet-stream" ∷ [])
        || listed declared spec.declared_types
      then ok tt
      else err unsupported_file_type

  -- `_decode_text`
  unfoldable pub decode_text : Bytes → Result String
  decode_text content = elim (t.decode content) [
    | none ↦ err invalid_file_content
    | some text ↦ if t.contains "\0" text then err invalid_file_content else ok text
  ]

  -- `cell.lstrip().startswith(_FORMULA_PREFIXES)`
  unfoldable pub is_formula : String → Bool
  is_formula cell =
      let text = t.lstrip cell in
      starts_with text "=" || starts_with text "+" || starts_with text "-" || starts_with text "@"

  -- Python's `any` on the cells of a row.
  unfoldable pub has_formula : List String → Bool
  has_formula [] = false
  has_formula (cell ∷ row) = is_formula cell || has_formula row

  unfoldable pub validate_rows : List (List String) → Bool → Result (Unit {0})
  validate_rows [] raises = if raises then err invalid_file_content else ok tt
  validate_rows (row ∷ rows) raises =
      let rest = validate_rows rows raises in
      if has_formula row then err unsafe_csv_formula else rest

  -- `_validate_structured_content`
  unfoldable pub validate_structured_content : String → String → Result (Unit {0})
  validate_structured_content suffix text =
      if str_eq suffix ".json"
      then (if t.json_fails text then err invalid_file_content else ok tt)
      else if str_eq suffix ".csv"
      then validate_rows (t.csv_rows text).0 (t.csv_rows text).1
      else ok tt

  -- What one `await upload.read(...)` gives: a chunk, empty at the end, or an exception.
  pub data Read : Type 0 where
    chunk : Bytes → Read
    broken : Read

  -- The loop of `_prepare_upload`; no further read is the end of the file.
  unfoldable pub read_upload : ℕ → Bytes → List Read → Result Bytes
  read_upload max content [] = ok content
  read_upload max content (broken ∷ reads) = err crash
  read_upload max content (chunk [] ∷ reads) = ok content
  read_upload max content (chunk (b ∷ bs) ∷ reads) =
      let rest = read_upload max (content ++ b ∷ bs) reads in
      if ltb max (length (content ++ b ∷ bs)) then err file_too_large else rest

  pub record Upload : Type 0 where
    pub filename : Option String
    pub content_type : Option String
    pub reads : List Read

  unfoldable pub non_empty : Bytes → Result Bytes
  non_empty [] = err invalid_file_content
  non_empty (b ∷ bs) = ok (b ∷ bs)

  -- `_prepare_upload`, with `FILE_UPLOAD_MAX_BYTES`
  unfoldable pub prepare_upload : ℕ → Upload → Result PreparedFile
  prepare_upload max upload = normalize_filename upload.filename then λ named.
      validate_declared_type upload.content_type named.2 then λ declared.
      read_upload max [] upload.reads then λ all. non_empty all then λ content.
      decode_text content then λ text. validate_structured_content named.1 text then λ valid.
      ok (record {
        original_name = named.0;
        suffix = named.1;
        media_type = named.2.media_type;
        content = content;
        sha256 = t.sha256 content;
      })
