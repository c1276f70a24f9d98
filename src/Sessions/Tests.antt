-- ===== src/Sessions/Tests.antt =====
-- Two sessions of two users, and the theorems of the session service there.
use deep_data_agent.Prelude.{
  ℕ, ◌≡◌, ◌≢◌, refl, ◌∙◌, ap, inl, inr, ◌&&◌, Option, none, some, List, [], ◌∷◌, ◌++◌, String,
  str_eq, eq_iff, arith, ◌==◌, if◌then◌else◌, Option-cases,
}
use deep_data_agent.Access.{User}
use deep_data_agent.Sessions.{ChatSession, Message, Tables, World}
use deep_data_agent.Sessions.Isolation.{Documented, deletes, after, others_untouched}

-- For each primary key the owner and the session_id, and the messages.
record Store : Type 0 where
  owners : ℕ → Option (ℕ × String)
  messages : ℕ → List Message

abbrev build : ℕ → Option (ℕ × String) → Option ChatSession
build i none = none
build i (some (u, sid)) =
    some (record { id = i; user_id = u; session_id = sid; title = "chat"; updated_at = 0 })

abbrev pick : String → ℕ → Option ChatSession → Option ChatSession
pick sid u none = none
pick sid u (some x) = if str_eq x.session_id sid && x.user_id == u then some x else none

abbrev or_else : Option ChatSession → Option ChatSession → Option ChatSession
or_else (some x) o = some x
or_else none o = o

abbrev keep_or : ℕ × String → Option (ℕ × String) → Option (ℕ × String)
keep_or p none = some p
keep_or p (some q) = some q

abbrev created : ℕ → String → ChatSession
created u sid = record { id = 3; user_id = u; session_id = sid; title = "chat"; updated_at = 0 }

abbrev said : ℕ → String → String → Message
said i role content = record { id = 1; session_id = i; role = role; content = content }

-- Queries look at the keys 1 and 2.
abbrev tables : Tables
tables = record {
  Store = Store;
  add_session = λ u sid title s. (
    created u sid,
    record s { owners = λ j. if j == 3 then keep_or (u, sid) (s.owners j) else s.owners j },
  );
  sessions_of = λ u s. [];
  find_session =
      λ sid u s. or_else (pick sid u (build 1 (s.owners 1))) (pick sid u (build 2 (s.owners 2)));
  add_message = λ i role content s. (
    said i role content,
    record s {
      messages = λ j. if i == j then s.messages j ++ said i role content ∷ [] else s.messages j;
    },
  );
  touch = λ i s. s;
  messages_of = λ i s. s.messages i;
  delete_messages = λ i s. record s { messages = λ j. if i == j then [] else s.messages j };
  delete_row = λ i s. record s { owners = λ j. if i == j then none else s.owners j };
}

pick-build :
    (sid : String) (u i : ℕ) (p : Option (ℕ × String)) (x : ChatSession)
    → pick sid u (build i p) ≡ some x
    → (x.id ≡ i) × (build i p ≡ some x) × (x.session_id ≡ sid) × (x.user_id ≡ u)
pick-build sid u i none x e = cc
pick-build sid u i (some (v, r)) x e = ground (arith, eq_iff r sid)

find_lem :
    (sid : String) (u : ℕ) (f : ℕ → Option (ℕ × String)) (x : ChatSession)
    → or_else (pick sid u (build 1 (f 1))) (pick sid u (build 2 (f 2))) ≡ some x
    → (build x.id (f x.id) ≡ some x) × (x.session_id ≡ sid) × (x.user_id ≡ u)
find_lem sid u f x e = elim (Option-cases (pick sid u (build 1 (f 1)))) [
  | inl n ↦ at_key 2 (pick-build sid u 2 (f 2) x (rw n at e))
  | inr (y, p) ↦ at_key 1 (pick-build sid u 1 (f 1) x (p ∙ rw p at e))
]
  where
    at_key :
        (i : ℕ)
        → (x.id ≡ i) × (build i (f i) ≡ some x) × (x.session_id ≡ sid) × (x.user_id ≡ u)
        → (build x.id (f x.id) ≡ some x) × (x.session_id ≡ sid) × (x.user_id ≡ u)
    at_key i (k, b, r, v) = (ap (λ n. build n (f n)) k ∙ b, r, v)

kept :
    (j u : ℕ) (sid : String) (p : Option (ℕ × String)) (x : ChatSession)
    → build j p ≡ some x
    → build j (if j == 3 then keep_or (u, sid) p else p) ≡ some x
kept j u sid none x e = cc
kept j u sid (some q) x e = ground arith

deleted :
    (i j : ℕ) (p : Option (ℕ × String))
    → build j (if i == j then none else p) ≡ (if i == j then none else build j p)
deleted i j p = ground arith

other_messages : (i j : ℕ) (ms new : List Message) → i ≢ j → (if i == j then new else ms) ≡ ms
other_messages i j ms new n = ground arith

abbrev laws : Documented tables
laws = record {
  row = λ s j. build j (s.owners j);
  messages = λ s j. s.messages j;
  find_row = λ sid u s. find_lem sid u s.owners;
  add_session_row = λ u sid title j x s. kept j u sid (s.owners j) x;
  add_session_messages = λ u sid title j s. refl;
  add_message_row = λ i j role content s. refl;
  add_message_messages = λ i j role content s. other_messages i j (s.messages j) _;
  touch_row = λ i j s n. refl;
  touch_messages = λ i j s. refl;
  delete_messages_row = λ i j s. refl;
  delete_messages_messages = λ i j s. refl;
  delete_row_row = λ i j s. deleted i j (s.owners j);
  delete_row_messages = λ i j s. refl;
}

abbrev alice : User
alice = record { id = 1; role = "user" }

abbrev stranger : User
stranger = record { id = 4; role = "guest" }

abbrev start : World tables
start = record {
  store = record {
    owners = λ j. if j == 1 then some (1, "a") else if j == 2 then some (2, "b") else none;
    messages = λ j. said j "user" "hello" ∷ [];
  };
  log = [];
}

abbrev row_of : ℕ → String → ℕ → ChatSession
row_of u sid i = record { id = i; user_id = u; session_id = sid; title = "chat"; updated_at = 0 }

others_untouched_example :
    (laws.row (after tables laws (deletes "a") alice start).store 2 ≡ some (row_of 2 "b" 2))
    × (laws.messages (after tables laws (deletes "a") alice start).store 2
        ≡ said 2 "user" "hello" ∷ [])
others_untouched_example =
    others_untouched tables laws (deletes "a") alice start 2 (row_of 2 "b" 2) refl
      (λ e. omega arith)
