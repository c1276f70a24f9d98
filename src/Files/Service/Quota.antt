-- ===== src/Files/Service/Quota.antt =====
-- An upload stays within the user's quota (data_agent/services/managed_file_service.py).
use deep_data_agent.Prelude.{
  ℕ, ◌+◌, ◌≤◌, ◌≡◌, refl, sym, ap, subst, ◌∙◌, inl, inr, Bool, ◌&&◌, ◌||◌, List, [], ◌∷◌, ◌++◌,
  String, arith, leb, ltb, length, length-append, map, keep, ◌==◌, Bool-cases,
}
use deep_data_agent.Access.{User, file_write_own, ensure_permission}
use deep_data_agent.Files.{FileError, Result, ok, err, PreparedFile, ManagedFile, Limits}
use deep_data_agent.Files.Prepare.{Texts, Upload}
use deep_data_agent.Files.Prepare.Laws.{Result-cases, then-ok, ok-injective}
use deep_data_agent.Files.Storage.{Disk, write_file, write_all}
use deep_data_agent.Files.Service.{
  Database, World, used_bytes, content_bytes, has_duplicate, name_all, is_own, cleanup_expired,
  undo, persist, prepare_all, admit, upload_batch, conclude, authorized, upload_files,
}
use deep_data_agent.Files.Service.Batch.{Transactional, Commit-cases}

-- The rows that a batch makes for a user are the user's, one for each file, with the files' sizes.
abbrev AreOf : ℕ → List (String × PreparedFile) → List ManagedFile → Type 0
AreOf user items [] = Unit
AreOf user [] (r ∷ rs) = ⊥
AreOf user (i ∷ items) (r ∷ rs) =
    (r.user_id ≡ user) × (r.size_bytes ≡ length i.1.content) × AreOf user items rs

used_bytes-append :
    (xs ys : List ManagedFile) → used_bytes (xs ++ ys) ≡ used_bytes xs + used_bytes ys
unfolding used_bytes
used_bytes-append [] ys = omega arith
used_bytes-append (r ∷ rs) ys = omega (arith, used_bytes-append rs ys)

keep-append :
    (p : ManagedFile → Bool) (xs ys : List ManagedFile) → keep p (xs ++ ys) ≡ keep p xs ++ keep p ys
keep-append p [] ys = refl
keep-append p (r ∷ rs) ys = elim (Bool-cases (p r)) [
  | inl e ↦ rw e (ap (◌∷◌ r) (keep-append p rs ys))
  | inr e ↦ rw e (keep-append p rs ys)
]

AreOf-bytes :
    (user : ℕ) (items : List (String × PreparedFile)) (rs : List ManagedFile)
    → AreOf user items rs
    → (length rs ≤ length items) × (used_bytes rs ≤ content_bytes (map (λ i. i.1) items))
unfolding used_bytes content_bytes
AreOf-bytes user [] [] h = (omega arith, omega arith)
AreOf-bytes user (i ∷ items) [] h = (omega arith, omega arith)
AreOf-bytes user [] (r ∷ rs) h = absurd h
AreOf-bytes user (i ∷ items) (r ∷ rs) (own, size, h) =
    let (count, bytes) = AreOf-bytes user items rs h in
    (omega (arith, count), omega (arith, bytes, size))

name_all_bytes :
    (ids : List String) (fs : List PreparedFile)
    → (length (name_all ids fs) ≤ length fs)
      × (content_bytes (map (λ i. i.1) (name_all ids fs)) ≤ content_bytes fs)
unfolding name_all content_bytes
name_all_bytes [] fs = (omega arith, omega arith)
name_all_bytes (i ∷ is) [] = (omega arith, omega arith)
name_all_bytes (i ∷ is) (f ∷ fs) =
    let (count, bytes) = name_all_bytes is fs in (omega (arith, count), omega (arith, bytes))

module _ (t : Texts) (k : Disk) (str : ℕ → String) where
  write_all-AreOf :
      (user expires_at : ℕ) (items : List (String × PreparedFile)) (d : k.Store)
      (rs : List ManagedFile)
      → (write_all t k str user expires_at items d).0 ≡ ok rs
      → AreOf user items rs
  unfolding write_all
  write_all-AreOf user expires_at [] d rs h = subst (AreOf user []) (ok-injective h) tt
  write_all-AreOf user expires_at ((id, f) ∷ items) d rs h =
      let wrote = write_file t k str user id f.suffix f.content d in
      elim (Result-cases wrote.0) [
        | inr (e, q) ↦ absurd (ground arith)
        | inl (key, q) ↦
            let (rest, written, last) =
              then-ok (write_all t k str user expires_at items wrote.1).0 _ rs
                (rw (q, write_all) at h) in
            subst (AreOf user ((id, f) ∷ items)) (ok-injective last)
              (refl, refl, write_all-AreOf user expires_at items wrote.1 rest written)
      ]

  module _ (b : Database) (l : Limits) (y : Transactional b) where
    undo_err :
        (e : FileError) (paths : List String) (db : b.Store) (w : World t k str b l)
        (rs : List ManagedFile)
        → (undo t k str b l e paths db w).0 ≡ ok rs
        → ⊥
    unfolding undo
    undo_err e paths db w rs h = cc

    -- What a batch that is stored adds to the rows.
    persist_rows :
        (user expires_at : ℕ) (items : List (String × PreparedFile)) (w : World t k str b l)
        (rs : List ManagedFile)
        → (persist t k str b l user expires_at items w).0 ≡ ok rs
        → AreOf user items rs
          × (b.rows (persist t k str b l user expires_at items w).1.db ≡ b.rows w.db ++ rs)
    unfolding persist
    persist_rows user expires_at items w rs h =
        elim (Result-cases (write_all t k str user expires_at items w.disk).0) [
          | inr (e, q) ↦ absurd (undo_err _ _ _ _ rs (rw (q, persist) at h))
          | inl (made, q) ↦
              let s = b.add_all made w.db in
              elim (Commit-cases (b.commit s).0) [
                | inl c ↦
                    let same = ok-injective (rw (c, persist) at (rw (q, persist) at h)) in
                    (
                      subst (AreOf user items) same
                          (write_all-AreOf user expires_at items w.disk made q),
                      rw (q, persist)
                          (rw (c, persist)
                            (y.commit_rows s c
                              ∙ y.add_all_rows made w.db
                              ∙ ap (λ r. b.rows w.db ++ r) same)),
                    )
                | inr (inl c) ↦
                    absurd (undo_err _ _ _ _ rs (rw (c, persist) at (rw (q, persist) at h)))
                | inr (inr (inl c)) ↦
                    absurd (undo_err _ _ _ _ rs (rw (c, persist) at (rw (q, persist) at h)))
                | inr (inr (inr c)) ↦ absurd (err-ok (rw (c, persist) at (rw (q, persist) at h)))
              ]
        ]
      where
        err-ok : {e : FileError} {r : List ManagedFile} → err e ≡ ok r → ⊥
        err-ok h = cc

    -- A user's rows within the limits, with this much to come.
    abbrev Fits : ℕ → ℕ → ℕ → b.Store → Type 0
    Fits user more bytes db =
        let own = keep (is_own t k str b l user) (b.rows db) in
        (length own + more ≤ l.user_max_count) × (used_bytes own + bytes ≤ l.user_quota_bytes)

    abbrev IsWithin : ℕ → World t k str b l → Type 0
    IsWithin user w =
        let own = keep (is_own t k str b l user) (b.rows w.db) in
        (length own ≤ l.user_max_count) × (used_bytes own ≤ l.user_quota_bytes)

    keep_own :
        (user : ℕ) (items : List (String × PreparedFile)) (rs : List ManagedFile)
        → AreOf user items rs
        → keep (is_own t k str b l user) rs ≡ rs
    keep_own user items [] h = refl
    keep_own user [] (r ∷ rs) h = absurd h
    keep_own user (i ∷ items) (r ∷ rs) (own, size, h) =
        let rest = keep_own user items rs h in ground arith

    admit-Fits :
        (user : ℕ) (fs : List PreparedFile) (db : b.Store)
        → admit t k str b l user fs db ≡ ok tt
        → Fits user (length fs) (content_bytes fs) db
    unfolding admit
    admit-Fits user fs db h = (ground arith, ground arith)

    persist-Fits :
        (user expires_at : ℕ) (ids : List String) (fs : List PreparedFile) (w : World t k str b l)
        (rs : List ManagedFile)
        → Fits user (length fs) (content_bytes fs) w.db
        → (persist t k str b l user expires_at (name_all ids fs) w).0 ≡ ok rs
        → Fits user 0 0 (persist t k str b l user expires_at (name_all ids fs) w).1.db
    persist-Fits user expires_at ids fs w rs (room, space) h =
        let (own, added) = persist_rows user expires_at (name_all ids fs) w rs h in
        let p = is_own t k str b l user in
        let all =
          ap (keep p) added
          ∙ keep-append p (b.rows w.db) rs
          ∙ ap (λ r. keep p (b.rows w.db) ++ r) (keep_own user (name_all ids fs) rs own) in
        let (count, bytes) = AreOf-bytes user (name_all ids fs) rs own in
        let (named, sized) = name_all_bytes ids fs in
        (
          omega (arith, ap length all, length-append (keep p (b.rows w.db)) rs, room, count, named),
          omega (
            arith,
            ap used_bytes all,
            used_bytes-append (keep p (b.rows w.db)) rs,
            space,
            bytes,
            sized,
          ),
        )

    upload_batch-Fits :
        (user now : ℕ) (ids : List String) (uploads : List (Upload t)) (w : World t k str b l)
        (rs : List ManagedFile)
        → (upload_batch t k str b l user now ids uploads w).0 ≡ ok rs
        → Fits user 0 0 (upload_batch t k str b l user now ids uploads w).1.db
    unfolding upload_batch
    upload_batch-Fits user now ids uploads w rs h =
        elim (Result-cases (prepare_all t k str b l 0 uploads)) [
          | inr (e, q) ↦ absurd (ground arith)
          | inl (fs, q) ↦
              let h1 = rw (q, upload_batch) at h in
              elim (Bool-cases (has_duplicate (map (λ f. f.sha256) fs))) [
                | inl d ↦ absurd (ground arith)
                | inr d ↦
                    let h2 = rw (d, upload_batch) at h1 in
                    let cleaned = cleanup_expired t k str b l user now w in
                    elim (Result-cases cleaned.0) [
                      | inr (e, c) ↦ absurd (ground arith)
                      | inl (n, c) ↦
                          let h3 = rw (c, upload_batch) at h2 in
                          elim (Result-cases (admit t k str b l user fs cleaned.1.db)) [
                            | inr (e, a) ↦ absurd (ground arith)
                            | inl (u, a) ↦
                                rw (q, upload_batch)
                                  (rw (d, upload_batch)
                                    (rw (c, upload_batch)
                                      (rw (a, upload_batch)
                                        (persist-Fits user (now + l.retention) ids fs cleaned.1 rs
                                          (admit-Fits user fs cleaned.1.db a)
                                          (rw (a, upload_batch) at h3)))))
                          ]
                    ]
              ]
        ]

    conclude-Fits :
        (user : ℕ) (r : Result (List ManagedFile)) (w : World t k str b l) (rs : List ManagedFile)
        → (conclude t k str b l (r, w)).0 ≡ ok rs
        → (r ≡ ok rs) × ((conclude t k str b l (r, w)).1 ≡ w)
    unfolding conclude
    conclude-Fits user (ok x) w rs h = (h, refl)
    conclude-Fits user (err e) w rs h = absurd (ground arith)

    -- After an upload that succeeds the user has at most as many files, and these at most as many bytes,
    -- as the limits allow.
    pub upload_files-Fits :
        (actor : User) (now : ℕ) (ids : List String) (uploads : List (Upload t))
        (w : World t k str b l) (rs : List ManagedFile)
        → (upload_files t k str b l actor now ids uploads w).0 ≡ ok rs
        → let end = (upload_files t k str b l actor now ids uploads w).1 in
          let own = keep (is_own t k str b l actor.id) (b.rows end.db) in
          (length own ≤ l.user_max_count) × (used_bytes own ≤ l.user_quota_bytes)
    unfolding upload_files authorized
    upload_files-Fits actor now ids uploads w rs h =
        let (allowed, log) = ensure_permission actor file_write_own w.log in
        let w' : World t k str b l = record w { log = log } in
        elim (Bool-cases (allowed && leb 1 actor.id)) [
          | inr e ↦ absurd (ground arith)
          | inl e ↦
              let h1 = rw (e, upload_files) at h in
              elim (Bool-cases (length uploads == 0 || ltb l.batch_max_count (length uploads))) [
                | inl o ↦ absurd (ground arith)
                | inr o ↦
                    let batch = upload_batch t k str b l actor.id now ids uploads w' in
                    let (made, same) =
                      conclude-Fits actor.id batch.0 batch.1 rs (rw (o, upload_files) at h1) in
                    let (room, space) = upload_batch-Fits actor.id now ids uploads w' rs made in
                    rw (e, upload_files)
                      (rw (o, upload_files)
                        (subst (IsWithin actor.id) (sym same)
                          (omega (arith, room), omega (arith, space))))
              ]
        ]
