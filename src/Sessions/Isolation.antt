-- ===== src/Sessions/Isolation.antt =====
-- Users see and change their own sessions only (data_agent/services/session_service.py).
use deep_data_agent.Prelude.{
  ℕ, ◌≡◌, ◌≢◌, refl, sym, ap, ◌∙◌, inl, inr, Bool, true, false, Option, none, some, List, [], ◌∷◌,
  ◌++◌, String, str_eq, arith, leb, ◌==◌, ◌+◌, length, if◌then◌else◌, Option-cases,
}
use deep_data_agent.Access.{
  User, AuditEvent, authorization_denied, has_permission, ensure_permission, Permission,
  session_read_own, session_write_own, session_delete_own,
}
use deep_data_agent.Sessions.{
  ChatSession, Message, Tables, Result, ok, World, create_session, get_sessions, get_session,
  add_message_to, get_messages, delete_session,
}

-- The tables by primary key: the row of a session, and the messages that refer to it.
pub record Documented (t : Tables) : Type 0 where
  pub row : t.Store → ℕ → Option ChatSession
  pub messages : t.Store → ℕ → List Message
  pub find_row :
      (sid : String) (u : ℕ) (s : t.Store) (x : ChatSession)
      → t.find_session sid u s ≡ some x
      → (row s x.id ≡ some x) × (x.session_id ≡ sid) × (x.user_id ≡ u)
  pub add_session_row :
      (u : ℕ) (sid title : String) (j : ℕ) (x : ChatSession) (s : t.Store)
      → row s j ≡ some x
      → row (t.add_session u sid title s).1 j ≡ some x
  pub add_session_messages :
      (u : ℕ) (sid title : String) (j : ℕ) (s : t.Store)
      → messages (t.add_session u sid title s).1 j ≡ messages s j
  pub add_message_row :
      (i j : ℕ) (role content : String) (s : t.Store)
      → row (t.add_message i role content s).1 j ≡ row s j
  pub add_message_messages :
      (i j : ℕ) (role content : String) (s : t.Store)
      → i ≢ j
      → messages (t.add_message i role content s).1 j ≡ messages s j
  pub touch_row : (i j : ℕ) (s : t.Store) → i ≢ j → row (t.touch i s) j ≡ row s j
  pub touch_messages : (i j : ℕ) (s : t.Store) → messages (t.touch i s) j ≡ messages s j
  pub delete_messages_row : (i j : ℕ) (s : t.Store) → row (t.delete_messages i s) j ≡ row s j
  pub delete_messages_messages :
      (i j : ℕ) (s : t.Store)
      → messages (t.delete_messages i s) j ≡ (if i == j then [] else messages s j)
  pub delete_row_row :
      (i j : ℕ) (s : t.Store) → row (t.delete_row i s) j ≡ (if i == j then none else row s j)
  pub delete_row_messages : (i j : ℕ) (s : t.Store) → messages (t.delete_row i s) j ≡ messages s j

length-append_one :
    (log : List AuditEvent) (e : AuditEvent) → length (log ++ e ∷ []) ≡ length log + 1
length-append_one [] e = refl
length-append_one (x ∷ log) e = omega (arith, length-append_one log e)

refused :
    (actor : User) (p : Permission) (log : List AuditEvent)
    → str_eq actor.role "user" ≡ false
    → str_eq actor.role "admin" ≡ false
    → ((ensure_permission actor p log).0 ≡ false)
      × (length (ensure_permission actor p log).1 ≡ length log + (if leb 1 actor.id then 1 else 0))
unfolding ensure_permission has_permission
refused actor p log u a = ground (arith, length-append_one log (authorization_denied actor.id p))

-- The operations of the service, with their arguments.
pub data Call : Type 0 where
  creates : String → String → Call
  lists : Call
  gets reads : String → Call
  adds : String → String → String → Call
  deletes : String → Call

module _ (t : Tables) (h : Documented t) where
  open h use {row, messages}

  -- What a call leaves behind.
  abbrev pub after : Call → User → World t → World t
  after (creates title uuid) actor w = (create_session t actor title uuid w).1
  after lists actor w = (get_sessions t actor w).1
  after (gets sid) actor w = (get_session t sid actor w).1
  after (reads sid) actor w = (get_messages t sid actor w).1
  after (adds sid role content) actor w = (add_message_to t sid actor role content w).1
  after (deletes sid) actor w = (delete_session t sid actor w).1

  -- The actor's session is not the row of another user.
  apart :
      (sid : String) (actor : User) (j : ℕ) (x y : ChatSession) (s : t.Store)
      → t.find_session sid actor.id s ≡ some x
      → row s j ≡ some y
      → y.user_id ≢ actor.id
      → x.id ≢ j
  apart sid actor j x y s f r n e = n (
      ap (λ o. owner o) (sym r ∙ ap (row s) (sym e) ∙ (h.find_row sid actor.id s x f).0)
      ∙ (h.find_row sid actor.id s x f).2)
    where
      owner : Option ChatSession → ℕ
      owner none = 0
      owner (some z) = z.user_id

  -- No call of a user touches the row or the messages of another user's session.
  pub others_untouched :
      (c : Call) (actor : User) (w : World t) (j : ℕ) (y : ChatSession)
      → row w.store j ≡ some y
      → y.user_id ≢ actor.id
      → (row (after c actor w).store j ≡ some y)
        × (messages (after c actor w).store j ≡ messages w.store j)
  unfolding create_session get_sessions get_session get_messages add_message_to delete_session
  others_untouched (creates title uuid) actor w j y r n = ground (
    arith,
    h.add_session_row actor.id uuid title j y w.store r,
    h.add_session_messages actor.id uuid title j w.store,
  )
  others_untouched lists actor w j y r n = ground arith
  others_untouched (gets sid) actor w j y r n = ground arith
  others_untouched (reads sid) actor w j y r n = ground arith
  others_untouched (adds sid role content) actor w j y r n =
      elim (Option-cases (t.find_session sid actor.id w.store)) [
        | inl absent ↦ ground arith
        | inr (x, f) ↦
            let other = apart sid actor j x y w.store f r n in
            ground (
              arith,
              h.touch_row x.id j (t.add_message x.id role content w.store).1 other,
              h.touch_messages x.id j (t.add_message x.id role content w.store).1,
              h.add_message_row x.id j role content w.store,
              h.add_message_messages x.id j role content w.store other,
            )
      ]
  others_untouched (deletes sid) actor w j y r n =
      elim (Option-cases (t.find_session sid actor.id w.store)) [
        | inl absent ↦ ground arith
        | inr (x, f) ↦
            let other = apart sid actor j x y w.store f r n in
            ground (
              arith,
              h.delete_row_row x.id j (t.delete_messages x.id w.store),
              h.delete_row_messages x.id j (t.delete_messages x.id w.store),
              h.delete_messages_row x.id j w.store,
              h.delete_messages_messages x.id j w.store,
            )
      ]

  abbrev succeeded : {A : Type 0} → Result A → Bool
  succeeded (ok _) = true
  succeeded _ = false

  -- Whether a call comes to a result.
  abbrev pub succeeds : Call → User → World t → Bool
  succeeds (creates title uuid) actor w = succeeded (create_session t actor title uuid w).0
  succeeds lists actor w = succeeded (get_sessions t actor w).0
  succeeds (gets sid) actor w = succeeded (get_session t sid actor w).0
  succeeds (reads sid) actor w = succeeded (get_messages t sid actor w).0
  succeeds (adds sid role content) actor w = succeeded (add_message_to t sid actor role content w).0
  succeeds (deletes sid) actor w = succeeded (delete_session t sid actor w).0

  -- A role that is neither of the two known ones can do nothing: every call fails, the tables stay,
  -- and an actor with a positive id leaves one audit record more.
  pub unknown_role_denied :
      (c : Call) (actor : User) (w : World t)
      → str_eq actor.role "user" ≡ false
      → str_eq actor.role "admin" ≡ false
      → (succeeds c actor w ≡ false)
        × ((after c actor w).store ≡ w.store)
        × (length (after c actor w).log ≡ length w.log + (if leb 1 actor.id then 1 else 0))
  unfolding create_session get_sessions get_session get_messages add_message_to delete_session
  unknown_role_denied (creates title uuid) actor w u a =
      ground (arith, refused actor session_write_own w.log u a)
  unknown_role_denied lists actor w u a = ground (arith, refused actor session_read_own w.log u a)
  unknown_role_denied (gets sid) actor w u a =
      ground (arith, refused actor session_read_own w.log u a)
  unknown_role_denied (reads sid) actor w u a =
      ground (arith, refused actor session_read_own w.log u a)
  unknown_role_denied (adds sid role content) actor w u a =
      ground (arith, refused actor session_write_own w.log u a)
  unknown_role_denied (deletes sid) actor w u a =
      ground (arith, refused actor session_delete_own w.log u a)

  -- The messages that a user is shown are those of a session of this user with the given id.
  pub get_messages_own :
      (sid : String) (actor : User) (w : World t) (ms : List Message)
      → (get_messages t sid actor w).0 ≡ ok ms
      → (x : ChatSession) × (row w.store x.id ≡ some x)
        × (x.session_id ≡ sid)
        × (x.user_id ≡ actor.id)
        × (ms ≡ t.messages_of x.id w.store)
  unfolding get_messages get_session
  get_messages_own sid actor w ms e = elim (Option-cases (t.find_session sid actor.id w.store)) [
    | inl absent ↦ absurd (ground arith)
    | inr (x, f) ↦ let (r, s, u) = h.find_row sid actor.id w.store x f in (x, r, s, u, ground arith)
  ]

  -- A deletion that answers True took a session of this user away, with all of its messages.
  pub delete_session_clears :
      (sid : String) (actor : User) (w : World t)
      → (delete_session t sid actor w).0 ≡ ok true
      → (x : ChatSession) × (row w.store x.id ≡ some x)
        × (x.session_id ≡ sid)
        × (x.user_id ≡ actor.id)
        × (row (delete_session t sid actor w).1.store x.id ≡ none)
        × (messages (delete_session t sid actor w).1.store x.id ≡ [])
  unfolding delete_session get_session
  delete_session_clears sid actor w e = elim (Option-cases (t.find_session sid actor.id w.store)) [
    | inl absent ↦ absurd (ground arith)
    | inr (x, f) ↦
        let (r, s, u) = h.find_row sid actor.id w.store x f in
        (
          x,
          r,
          s,
          u,
          ground (arith, h.delete_row_row x.id x.id (t.delete_messages x.id w.store)),
          ground (
            arith,
            h.delete_row_messages x.id x.id (t.delete_messages x.id w.store),
            h.delete_messages_messages x.id x.id w.store,
          ),
        )
  ]
