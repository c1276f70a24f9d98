-- ===== src/Files/Prepare/Checks.antt =====
-- What the checks of an upload find, each on its own (data_agent/services/managed_file_service.py).
use deep_data_agent.Prelude.{
  ℕ, ◌≤◌, ◌≡◌, ◌≢◌, refl, sym, ap, ◌∙◌, ◌⊎◌, inl, inr, Bool, true, false, Option, none, some, List,
  [], ◌∷◌, ◌++◌, String, str_eq, eq_iff, listed, All, arith, ltb, length, Bool-cases, Option-cases,
}
use mathlib.Core.List.{append_assoc, append-nil}
use Prim.Native.String.{count}
use text.Mathlib.Text.{starts_with}
use deep_data_agent.Files.{ok, FileTypeSpec, Bytes}
use deep_data_agent.Files.Prepare.{
  Texts, or_empty, is_filename, validate_declared_type, decode_text, is_formula, has_formula,
  validate_rows, validate_structured_content, Read, chunk, broken, read_upload,
}

pub str_eq-false : (a b : String) → str_eq a b ≡ false → a ≢ b
str_eq-false a b h e = false≢true (sym h ∙ (eq_iff a b).1 e)
  where
    false≢true : false ≡ true → ⊥
    false≢true p = cc

module _ (t : Texts) where
  -- A name of 1 to 255 characters, without "/", "\" and control characters.
  pub record IsName (name : String) : Type 0 where
    pub filled : name ≢ ""
    pub short : count name ≤ 255
    pub no_slash : t.contains "/" name ≡ false
    pub no_backslash : t.contains "\\" name ≡ false
    pub no_control : t.has_control name ≡ false

  pub is_filename-IsName : (name : String) → is_filename t name ≡ true → IsName name
  unfolding is_filename
  is_filename-IsName name h = record {
    filled = str_eq-false name "" (ground arith);
    short = ground arith;
    no_slash = ground arith;
    no_backslash = ground arith;
    no_control = ground arith;
  }

  -- The declared type is absent, the one of any bytes, or among those of the type of the file.
  abbrev pub IsDeclared : Option String → FileTypeSpec → Type 0
  IsDeclared content_type spec =
      let declared = t.media (or_empty t content_type) in
      (declared ≡ "")
      ⊎ (declared ≡ "application/octet-stream")
      ⊎ (listed declared spec.declared_types ≡ true)

  pub validate_declared_type-IsDeclared :
      (content_type : Option String) (spec : FileTypeSpec)
      → validate_declared_type t content_type spec ≡ ok tt
      → IsDeclared content_type spec
  unfolding validate_declared_type listed
  validate_declared_type-IsDeclared content_type spec h =
      let declared = t.media (or_empty t content_type) in
      elim (Bool-cases (str_eq declared "")) [
        | inl e ↦ inl ((eq_iff declared "").0 e)
        | inr e ↦ elim (Bool-cases (str_eq declared "application/octet-stream")) [
          | inl f ↦ inr (inl ((eq_iff declared "application/octet-stream").0 f))
          | inr f ↦ inr (inr (ground arith))
        ]
      ]

  -- The chunks up to the first empty one, one after another; `none` if a read before it raises.
  abbrev pub read_all : List (Read t) → Option Bytes
  read_all [] = some []
  read_all (broken ∷ reads) = none
  read_all (chunk [] ∷ reads) = some []
  read_all (chunk (b ∷ bs) ∷ reads) = elim (read_all reads) [
    | none ↦ none
    | some rest ↦ some ((b ∷ bs) ++ rest)
  ]

  pub read_upload-read_all :
      (max : ℕ) (content : Bytes) (reads : List (Read t)) (all : Bytes)
      → read_upload t max content reads ≡ ok all
      → (rest : Bytes) × (read_all reads ≡ some rest) × (all ≡ content ++ rest)
  unfolding read_upload
  read_upload-read_all max content [] all h =
      let same : content ≡ all = ground arith in ([], refl, sym same ∙ sym (append-nil content))
  read_upload-read_all max content (broken ∷ reads) all h = absurd (ground arith)
  read_upload-read_all max content (chunk [] ∷ reads) all h =
      let same : content ≡ all = ground arith in ([], refl, sym same ∙ sym (append-nil content))
  read_upload-read_all max content (chunk (b ∷ bs) ∷ reads) all h =
      elim (Bool-cases (ltb max (length (content ++ b ∷ bs)))) [
        | inl e ↦ absurd (ground arith)
        | inr e ↦
            let (rest, r, same) =
              read_upload-read_all max (content ++ b ∷ bs) reads all (rw (e, read_upload) at h) in
            ((b ∷ bs) ++ rest, rw r refl, same ∙ append_assoc content (b ∷ bs) rest)
      ]

  pub decode_text_lem :
      (content : Bytes) (text : String)
      → decode_text t content ≡ ok text
      → (t.decode content ≡ some text) × (t.contains "\0" text ≡ false)
  unfolding decode_text
  decode_text_lem content text h = elim (Option-cases (t.decode content)) [
    | inl e ↦ absurd (ground arith)
    | inr (x, e) ↦ elim (Bool-cases (t.contains "\0" x)) [
      | inl n ↦ absurd (ground arith)
      | inr n ↦
          let same : x ≡ text = ground arith in
          (e ∙ ap some same, ap (t.contains "\0") (sym same) ∙ n)
    ]
  ]

  -- A cell that no spreadsheet takes for a formula.
  abbrev pub IsPlain : String → Type 0
  IsPlain cell =
      (starts_with (t.lstrip cell) "=" ≡ false)
      × (starts_with (t.lstrip cell) "+" ≡ false)
      × (starts_with (t.lstrip cell) "-" ≡ false)
      × (starts_with (t.lstrip cell) "@" ≡ false)

  has_formula-IsPlain : (row : List String) → has_formula t row ≡ false → All IsPlain row
  unfolding has_formula is_formula
  has_formula-IsPlain [] h = tt
  has_formula-IsPlain (cell ∷ row) h = (
    (ground arith, ground arith, ground arith, ground arith),
    has_formula-IsPlain row (ground arith),
  )

  validate_rows-IsPlain :
      (rows : List (List String)) (raises : Bool)
      → validate_rows t rows raises ≡ ok tt
      → (raises ≡ false) × All (All IsPlain) rows
  unfolding validate_rows
  validate_rows-IsPlain [] raises h = (ground arith, tt)
  validate_rows-IsPlain (row ∷ rows) raises h = elim (Bool-cases (has_formula t row)) [
    | inl e ↦ absurd (ground arith)
    | inr e ↦
        let (whole, rest) = validate_rows-IsPlain rows raises (rw (e, validate_rows) at h) in
        (whole, (has_formula-IsPlain row e, rest))
  ]

  -- JSON that parses; CSV that is read to its end and has no formula in any cell; or another type.
  abbrev pub IsStructured : String → String → Type 0
  IsStructured suffix text =
      ((suffix ≡ ".json") × (t.json_fails text ≡ false))
      ⊎ ((suffix ≡ ".csv") × ((t.csv_rows text).1 ≡ false) × All (All IsPlain) (t.csv_rows text).0)
      ⊎ ((suffix ≢ ".json") × (suffix ≢ ".csv"))

  pub validate-IsStructured :
      (suffix text : String)
      → validate_structured_content t suffix text ≡ ok tt
      → IsStructured suffix text
  unfolding validate_structured_content
  validate-IsStructured suffix text h = elim (Bool-cases (str_eq suffix ".json")) [
    | inl j ↦ inl ((eq_iff suffix ".json").0 j, ground arith)
    | inr j ↦ elim (Bool-cases (str_eq suffix ".csv")) [
      | inl c ↦
          let (whole, plain) =
            validate_rows-IsPlain (t.csv_rows text).0 (t.csv_rows text).1
              (rw (c, validate_structured_content) at (rw (j, validate_structured_content) at h)) in
          inr (inl ((eq_iff suffix ".csv").0 c, whole, plain))
      | inr c ↦ inr (inr (str_eq-false suffix ".json" j, str_eq-false suffix ".csv" c))
    ]
  ]
