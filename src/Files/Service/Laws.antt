-- ===== src/Files/Service/Laws.antt =====
-- Whose files a caller reads, and that they are read as they were stored
-- (data_agent/services/managed_file_service.py).
use deep_data_agent.Prelude.{
  ℕ, ◌≤◌, ◌<◌, ◌≡◌, refl, sym, ap, subst, ◌∙◌, inl, inr, Bool, true, false, ◌&&◌, ◌||◌, not, Option,
  none, some, List, [], ◌∷◌, String, str_eq, eq_iff, arith, leb, ltb, length, keep, ◌==◌,
  Bool-cases, Option-cases,
}
use deep_data_agent.Access.{
  Permission, User, AuditEvent, file_read_own, has_permission, ensure_permission,
}
use deep_data_agent.Files.{Result, ok, Bytes, ManagedFile, Limits}
use deep_data_agent.Files.Prepare.{Texts, normalize_file_id}
use deep_data_agent.Files.Prepare.Laws.{then-ok, ok-injective}
use deep_data_agent.Files.Storage.{
  Disk, Reading, unreadable, irregular, bytes, record_path, verify, verify_reading, read_bytes,
}
use deep_data_agent.Files.Service.{
  Database, first, World, authorized, is_live, content_of, find_file, get_file, read_table,
}

-- A row of this user, which has not expired.
abbrev pub IsLive : ℕ → ℕ → String → ManagedFile → Type 0
IsLive user now file_id row =
    (row.file_id ≡ file_id) × (row.user_id ≡ user) × (now < row.expires_at)

permitted :
    (actor : User) (permission : Permission) (log : List AuditEvent)
    → (ensure_permission actor permission log).0 ≡ true
    → has_permission actor.role permission ≡ true
unfolding ensure_permission
permitted actor permission log h = ground arith

module _ (t : Texts) (k : Disk) (str : ℕ → String) where
  -- Bytes that are those of the row: of its size, within the limit and with its digest.
  abbrev pub IsVerified : ℕ → ManagedFile → Bytes → Type 0
  IsVerified max row content =
      (length content ≡ row.size_bytes) × (length content ≤ max) × (t.sha256 content ≡ row.sha256)

  verify-IsVerified :
      (max : ℕ) (row : ManagedFile) (content c : Bytes)
      → verify t k str max row content ≡ ok c
      → IsVerified max row c
  unfolding verify
  verify-IsVerified max row content c h =
      elim (Bool-cases (
        not (length content == row.size_bytes)
        || ltb max (length content)
        || not (str_eq (t.sha256 content) row.sha256))) [
          | inl e ↦ absurd (ground arith)
          | inr e ↦
              let same = ok-injective (rw (e, verify) at h) in
              subst (IsVerified max row) same (
                ground arith,
                ground arith,
                (eq_iff (t.sha256 content) row.sha256).0 (ground arith),
              )
        ]

  verify_reading-IsVerified :
      (max : ℕ) (row : ManagedFile) (r : Reading) (c : Bytes)
      → verify_reading t k str max row r ≡ ok c
      → IsVerified max row c
  unfolding verify_reading
  verify_reading-IsVerified max row unreadable c h = absurd (ground arith)
  verify_reading-IsVerified max row irregular c h = absurd (ground arith)
  verify_reading-IsVerified max row (bytes content) c h = verify-IsVerified max row content c h

  read_bytes-IsVerified :
      (max : ℕ) (row : ManagedFile) (d : k.Store) (c : Bytes)
      → read_bytes t k str max row d ≡ ok c
      → IsVerified max row c × (1 ≤ length c)
  unfolding read_bytes
  read_bytes-IsVerified max row d c h =
      elim (Bool-cases (row.size_bytes == 0 || ltb max row.size_bytes)) [
        | inl e ↦ absurd (ground arith)
        | inr e ↦
            let (path, p, read) =
              then-ok (record_path t k str row true d) _ c (rw (e, read_bytes) at h) in
            let (size, bound, digest) = verify_reading-IsVerified max row _ c read in
            ((size, bound, digest), ground arith)
      ]

  module _ (b : Database) (l : Limits) where
    some-injective : {a c : ManagedFile} → some a ≡ some c → a ≡ c
    some-injective {a} e = ap (λ o. elim o [ none ↦ a | some x ↦ x ]) e

    first_passes :
        (p : ManagedFile → Bool) (rs : List ManagedFile) (row : ManagedFile)
        → first (keep p rs) ≡ some row
        → p row ≡ true
    first_passes p [] row h = absurd (ground arith)
    first_passes p (r ∷ rs) row h = elim (Bool-cases (p r)) [
      | inl e ↦ let here = some-injective (rw e at h) in ap p (sym here) ∙ e
      | inr e ↦ first_passes p rs row (rw e at h)
    ]

    find_file-IsLive :
        (user now : ℕ) (file_id : String) (w : World t k str b l) (row : ManagedFile)
        → find_file t k str b l user now file_id w ≡ some row
        → IsLive user now file_id row
    unfolding find_file is_live
    find_file-IsLive user now file_id w row h =
        let p = first_passes _ (b.rows w.db) row h in
        ((eq_iff row.file_id file_id).0 (ground arith), ground arith, ground arith)

    authorized_ok :
        {A : Type 0} (permission : Permission) (actor : User)
        (body : World t k str b l → Result A × World t k str b l) (w : World t k str b l) (a : A)
        → (authorized t k str b l permission actor body w).0 ≡ ok a
        → (has_permission actor.role permission ≡ true)
          × ((w' : World t k str b l) × ((body w').0 ≡ ok a))
    unfolding authorized
    authorized_ok permission actor body w a h =
        let (allowed, log) = ensure_permission actor permission w.log in
        elim (Bool-cases (allowed && leb 1 actor.id)) [
          | inl e ↦ (
            permitted actor permission w.log (both e).0,
            (record w { log = log }, rw (e, authorized) at h),
          )
          | inr e ↦ absurd (denied e h)
        ]
      where
        both : {c d : Bool} → (c && d) ≡ true → (c ≡ true) × (d ≡ true)
        both e = ground arith

        denied :
            ((ensure_permission actor permission w.log).0 && leb 1 actor.id) ≡ false
            → (authorized t k str b l permission actor body w).0 ≡ ok a
            → ⊥
        denied e g = ground arith

    normalize_file_id_lem :
        (value normalized : String) → normalize_file_id t value ≡ ok normalized → value ≡ normalized
    unfolding normalize_file_id
    normalize_file_id_lem value normalized h = elim (Option-cases (t.uuid value)) [
      | inl e ↦ absurd (ground arith)
      | inr (n, e) ↦ elim (Bool-cases (str_eq value n)) [
        | inl q ↦
            (eq_iff value n).0 q
            ∙ ok-injective (rw (q, normalize_file_id) at (rw (e, normalize_file_id) at h))
        | inr q ↦ absurd (ground arith)
      ]
    ]

    content_of-IsVerified :
        (found : Option ManagedFile) (d : k.Store) (row : ManagedFile) (content : Bytes)
        → content_of t k str b l found d ≡ ok (some (row, content))
        → (found ≡ some row) × IsVerified l.upload_max_bytes row content × (1 ≤ length content)
    unfolding content_of
    content_of-IsVerified none d row content h = absurd (ground arith)
    content_of-IsVerified (some r) d row content h =
        elim (Bool-cases (ltb l.table_max_bytes r.size_bytes)) [
          | inl e ↦ absurd (ground arith)
          | inr e ↦
              let (c, read, last) =
                then-ok (read_bytes t k str l.upload_max_bytes r d)
                  (λ content. ok (some (r, content))) (some (row, content))
                  (rw (e, content_of) at h) in
              let got : ManagedFile × Bytes = (r, c) in
              let asked : ManagedFile × Bytes = (row, content) in
              let same : got ≡ asked =
                ap (λ o. elim o [ none ↦ got | some p ↦ p ]) (ok-injective last) in
              let (verified, filled) = read_bytes-IsVerified l.upload_max_bytes r d c read in
              subst
                (λ p.
                  (some r ≡ some p.0) × IsVerified l.upload_max_bytes p.0 p.1 × (1 ≤ length p.1))
                same (refl, verified, filled)
        ]

    -- The bytes that statistics are computed from are those of a file: one of the caller's own, with this id and not expired, and
    -- the bytes that it was stored with: of its size, not empty, within the limit and with its digest.
    pub read_table-IsVerified :
        (actor : User) (now : ℕ) (file_id : String) (w : World t k str b l) (row : ManagedFile)
        (content : Bytes)
        → (read_table t k str b l actor now file_id w).0 ≡ ok (some (row, content))
        → (has_permission actor.role file_read_own ≡ true)
          × IsLive actor.id now file_id row
          × IsVerified l.upload_max_bytes row content
          × (1 ≤ length content)
    unfolding read_table get_file
    read_table-IsVerified actor now file_id w row content h =
        let (found, f, h1) =
          then-ok (get_file t k str b l actor now file_id w).0 _ (some (row, content)) h in
        let (may, (w', g)) = authorized_ok file_read_own actor _ w found f in
        let (same, verified, filled) =
          content_of-IsVerified found (get_file t k str b l actor now file_id w).1.disk row content
            h1 in
        let (normalized, n, g1) = then-ok (normalize_file_id t file_id) _ found g in
        let live = find_file-IsLive actor.id now normalized w' row (ok-injective g1 ∙ same) in
        (
          may,
          (live.0 ∙ sym (normalize_file_id_lem file_id normalized n), live.1, live.2),
          verified,
          filled,
        )
