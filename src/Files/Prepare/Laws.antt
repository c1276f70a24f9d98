-- ===== src/Files/Prepare/Laws.antt =====
-- What a prepared file is (data_agent/services/managed_file_service.py, `_prepare_upload`).
use deep_data_agent.Prelude.{
  ℕ, ◌≤◌, ◌≡◌, ◌≢◌, refl, sym, ap, subst, ◌∙◌, ◌⊎◌, inl, inr, false, Option, none, some, List, [],
  ◌∷◌, ◌++◌, String, str_eq, arith, ltb, length, Bool-cases, Option-cases,
}
use Prim.Native.String.{count}
use deep_data_agent.Files.{
  FileError, Result, ok, err, ◌then◌, FileTypeSpec, file_types, Bytes, PreparedFile,
}
use deep_data_agent.Files.Prepare.{
  Texts, is_filename, typed_name, normalize_filename, validate_declared_type, decode_text,
  validate_structured_content, Read, chunk, broken, read_upload, Upload, non_empty, prepare_upload,
}
use deep_data_agent.Files.Prepare.Checks.{
  str_eq-false, IsName, is_filename-IsName, IsDeclared, validate_declared_type-IsDeclared, read_all,
  read_upload-read_all, decode_text_lem, IsStructured, validate-IsStructured,
}

pub Result-cases :
    {A : Type 0} (a : Result A) → ((x : A) × (a ≡ ok x)) ⊎ ((e : FileError) × (a ≡ err e))
Result-cases (ok x) = inl (x, refl)
Result-cases (err e) = inr (e, refl)

-- A chain ends well exactly where its first step does and the rest does.
pub then-ok :
    {A B : Type 0} (a : Result A) (f : A → Result B) (y : B)
    → (a then f) ≡ ok y
    → (x : A) × (a ≡ ok x) × (f x ≡ ok y)
then-ok (ok x) f y h = (x, refl, h)
then-ok (err e) f y h = absurd (ground arith)

pub ok-injective : {A : Type 0} {a b : A} → ok a ≡ ok b → a ≡ b
ok-injective {A} {a} e = ap value e
  where
    value : Result A → A
    value (ok x) = x
    value (err _) = a

module _ (t : Texts) where
  -- The suffix is that of the name, and before it there is no other.
  abbrev pub IsSuffixed : String → String → Type 0
  IsSuffixed name suffix =
      (suffix ≡ t.suffix name)
      × (suffix ≢ "")
      × (t.contains "." (t.drop_last (count suffix) name) ≡ false)

  -- The bytes that a read loop has on the way.
  read_upload_bound :
      (max : ℕ) (content : Bytes) (reads : List (Read t)) (all : Bytes)
      → read_upload t max content reads ≡ ok all
      → length content ≤ max
      → length all ≤ max
  unfolding read_upload
  read_upload_bound max content [] all h b = ground arith
  read_upload_bound max content (broken ∷ reads) all h b = absurd (ground arith)
  read_upload_bound max content (chunk [] ∷ reads) all h b = ground arith
  read_upload_bound max content (chunk (x ∷ xs) ∷ reads) all h b =
      elim (Bool-cases (ltb max (length (content ++ x ∷ xs)))) [
        | inl e ↦ absurd (ground arith)
        | inr e ↦
            read_upload_bound max (content ++ x ∷ xs) reads all (rw (e, read_upload) at h)
              (ground arith)
      ]

  -- A file that may be stored, made from this upload: its normalized name, which is safe and has one suffix,
  -- of a type of the table that the declared type fits; and its chunks, within the limit, as text of this
  -- type.
  pub record IsPrepared (max : ℕ) (upload : Upload t) (f : PreparedFile) : Type 0 where
    pub given : String
    pub spec : FileTypeSpec
    pub text : String
    pub uploaded : upload.filename ≡ some given
    pub normalized : f.original_name ≡ t.normalize given
    pub named : IsName t f.original_name
    pub suffixed : IsSuffixed f.original_name f.suffix
    pub typed : file_types f.suffix ≡ some spec
    pub stored_type : f.media_type ≡ spec.media_type
    pub declared : IsDeclared t upload.content_type spec
    pub complete : read_all t upload.reads ≡ some f.content
    pub filled : 1 ≤ length f.content
    pub bounded : length f.content ≤ max
    pub decoded : t.decode f.content ≡ some text
    pub no_zero : t.contains "\0" text ≡ false
    pub structured : IsStructured t f.suffix text
    pub digested : f.sha256 ≡ t.sha256 f.content

  non_empty_lem :
      (all content : Bytes) → non_empty t all ≡ ok content → (all ≡ content) × (1 ≤ length content)
  unfolding non_empty
  non_empty_lem [] content h = absurd (ground arith)
  non_empty_lem (b ∷ bs) content h =
      subst (λ c. (b ∷ bs ≡ c) × (1 ≤ length c)) (ok-injective h) (refl, omega arith)

  typed_name_lem :
      (name : String) (r : String × String × FileTypeSpec)
      → typed_name t name (t.suffix name) ≡ ok r
      → (r.0 ≡ name) × IsSuffixed name r.1 × (file_types r.1 ≡ some r.2)
  unfolding typed_name
  typed_name_lem name r h = elim (Option-cases (file_types (t.suffix name))) [
    | inl e ↦ absurd (ground arith)
    | inr (spec, e) ↦ elim (Bool-cases (str_eq (t.suffix name) "")) [
      | inl o ↦ absurd (ground arith)
      | inr o ↦ elim (Bool-cases (t.contains "." (t.drop_last (count (t.suffix name)) name))) [
        | inl d ↦ absurd (ground arith)
        | inr d ↦
            let same : ok (name, t.suffix name, spec) ≡ ok r = ground arith in
            subst (λ q. (q.0 ≡ name) × IsSuffixed name q.1 × (file_types q.1 ≡ some q.2))
              (ok-injective same) (refl, (refl, str_eq-false (t.suffix name) "" o, d), e)
      ]
    ]
  ]

  normalize_filename_lem :
      (filename : Option String) (r : String × String × FileTypeSpec)
      → normalize_filename t filename ≡ ok r
      → (given : String) × (filename ≡ some given)
        × (r.0 ≡ t.normalize given)
        × IsName t r.0
        × IsSuffixed r.0 r.1
        × (file_types r.1 ≡ some r.2)
  unfolding normalize_filename
  normalize_filename_lem none r h = absurd (ground arith)
  normalize_filename_lem (some given) r h = elim (Bool-cases (is_filename t (t.normalize given))) [
    | inr e ↦ absurd (ground arith)
    | inl e ↦
        let (same, suffixed, typed) =
          typed_name_lem (t.normalize given) r (rw (e, normalize_filename) at h) in
        (
          given,
          refl,
          same,
          subst (IsName t) (sym same) (is_filename-IsName t (t.normalize given) e),
          subst (λ name. IsSuffixed name r.1) (sym same) suffixed,
          typed,
        )
  ]

  -- Whatever an upload holds and however its reads are cut, what `_prepare_upload` returns is made from it:
  -- the normalized name, of 1 to 255 characters without separators and control characters, with one suffix
  -- that is in the table; a media type that fits the declared one; as content all its chunks up to the first
  -- empty one, at least one byte and at most the limit; and the digest of that content. The content decodes
  -- to a text without NUL which, under ".json", parses, and under ".csv" is read to its end with no cell that
  -- starts as a formula does.
  pub prepare_upload-IsPrepared :
      (max : ℕ) (upload : Upload t) (f : PreparedFile)
      → prepare_upload t max upload ≡ ok f
      → IsPrepared max upload f
  unfolding prepare_upload
  prepare_upload-IsPrepared max upload f h =
      let (named, n, h1) = then-ok _ _ f h in
      let (declared, d, h2) =
        then-ok (validate_declared_type t upload.content_type named.2) _ f h1 in
      let (all, a, h3) = then-ok (read_upload t max [] upload.reads) _ f h2 in
      let (content, c, h4) = then-ok (non_empty t all) _ f h3 in
      let (text, x, h5) = then-ok (decode_text t content) _ f h4 in
      let (valid, v, h6) = then-ok (validate_structured_content t named.1 text) _ f h5 in
      let (given, uploaded, normalized, safe, suffixed, typed) =
        normalize_filename_lem upload.filename named n in
      let (same, filled) = non_empty_lem all content c in
      let bound = read_upload_bound max [] upload.reads all a (omega arith) in
      let (rest, chunks, whole) = read_upload-read_all t max [] upload.reads all a in
      let (decoded, no_zero) = decode_text_lem t content text x in
      subst (IsPrepared max upload) (ok-injective h6) (record {
        given = given;
        spec = named.2;
        text = text;
        uploaded = uploaded;
        normalized = normalized;
        named = safe;
        suffixed = suffixed;
        typed = typed;
        stored_type = refl;
        declared = validate_declared_type-IsDeclared t upload.content_type named.2 d;
        complete = chunks ∙ ap some (sym whole ∙ same);
        filled = filled;
        bounded = rw same at bound;
        decoded = decoded;
        no_zero = no_zero;
        structured = validate-IsStructured t named.1 text v;
        digested = refl;
      })
