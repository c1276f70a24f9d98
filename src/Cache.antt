-- ===== src/Cache.antt =====
-- data_agent/services/cache_service.py: the answer cache over the gate. The Redis commands and the
-- JSON codec are parameters; the expiry of a key and log events are not modelled.
pub mod Laws
pub mod Tests
use deep_data_agent.Prelude.{
  ℕ, Bool, true, false, not, Option, none, some, String, str_eq, if◌then◌else◌,
}
use deep_data_agent.Recovery.{gives, raises}
use deep_data_agent.Gate.{Gate}

-- What a call of the client or of the codec comes to: a value; RedisError or OSError; TypeError;
-- ValueError; or another exception. The codec's JSONDecodeError is its only ValueError.
pub data Reply (A : Type 0) : Type 0 where
  value : A → Reply A
  failed mistyped invalid crashed : Reply A

pub record Commands : Type 1 where
  pub Store : Type 0
  pub get : String → Store → Reply (Option String) × Store
  -- with the seconds to live
  pub setex : String → ℕ → String → Store → Reply (Unit {0}) × Store
  pub delete : String → Store → Reply (Unit {0}) × Store
  pub flushdb : Store → Reply (Unit {0}) × Store

pub record Codec : Type 1 where
  pub V : Type 0
  pub loads : String → Reply V
  pub dumps : V → Reply String

-- Python's truth of `value`.
abbrev pub is_text : Option String → Bool
is_text none = false
is_text (some t) = not (str_eq t "")

abbrev text_of : Option String → String
text_of none = ""
text_of (some t) = t

module _ (g : Gate) (r : Commands) (j : Codec) where
  open g use {State, Reading, get_client, mark_unavailable}
  open r use {Store}
  open j use {V}

  pub record World : Type 0 where
    pub gate : State
    pub store : Store

  -- The readings at `get_client` and at a report.
  pub record Readings : Type 0 where
    pub connects : Reading
    pub reports : Reading

  -- An operation: its answer, or `none` for an exception that it passes on.
  abbrev Op : Type 0 → Type 0
  Op A = World → Option A × World

  -- The client first; without one the operation has the answer `absent`.
  unfoldable pub with_client : {A : Type 0} → A → (ℕ → Op A) → Readings → Op A
  with_client absent body now w =
      let (answer, st) = get_client now.connects w.gate in
      elim answer [
        | raises ↦ (none, record w { gate = st })
        | gives none ↦ (some absent, record w { gate = st })
        | gives (some client) ↦ body client (record w { gate = st })
      ]

  -- The handler of RedisError and OSError.
  unfoldable pub report_failure : {A : Type 0} → A → String → ℕ → Readings → Op A
  report_failure absent operation client now w =
      (some absent, record w { gate = mark_unavailable client operation now.reports w.gate })

  -- `return json.loads(value)` under the handlers of `get`.
  unfoldable pub load : String → ℕ → Readings → Op (Option V)
  load text client now w = elim (j.loads text) [
    | value v ↦ (some (some v), w)
    | failed ↦ report_failure none "get" client now w
    | mistyped ↦ (some none, w)
    | invalid ↦ (some none, w)
    | crashed ↦ (none, w)
  ]

  -- `get`
  unfoldable pub get : String → Readings → Op (Option V)
  get key now =
      with_client none
        (λ client w.
          let (reply, store) = r.get key w.store in
          let w' : World = record w { store = store } in
          elim reply [
            | value found ↦
                if is_text found then load (text_of found) client now w' else (some none, w')
            | failed ↦ report_failure none "get" client now w'
            | mistyped ↦ (some none, w')
            | invalid ↦ (none, w')
            | crashed ↦ (none, w')
          ])
        now

  -- `client.setex(...)` under the handlers of `set`.
  unfoldable pub store_text : String → ℕ → String → ℕ → Readings → Op Bool
  store_text key expire text client now w =
      let (reply, store) = r.setex key expire text w.store in
      let w' : World = record w { store = store } in
      elim reply [
        | value _ ↦ (some true, w')
        | failed ↦ report_failure false "set" client now w'
        | mistyped ↦ (some false, w')
        | invalid ↦ (some false, w')
        | crashed ↦ (none, w')
      ]

  -- `set`
  unfoldable pub set : String → V → ℕ → Readings → Op Bool
  set key v expire now =
      with_client false
        (λ client w. elim (j.dumps v) [
          | value text ↦ store_text key expire text client now w
          | failed ↦ report_failure false "set" client now w
          | mistyped ↦ (some false, w)
          | invalid ↦ (some false, w)
          | crashed ↦ (none, w)
        ])
        now

  -- The handlers that `delete` and `clear` share.
  unfoldable pub after_command : String → ℕ → Readings → Reply (Unit {0}) → Op Bool
  after_command operation client now reply w = elim reply [
    | value _ ↦ (some true, w)
    | failed ↦ report_failure false operation client now w
    | mistyped ↦ (none, w)
    | invalid ↦ (none, w)
    | crashed ↦ (none, w)
  ]

  -- `delete`
  unfoldable pub delete : String → Readings → Op Bool
  delete key now =
      with_client false
        (λ client w.
          let (reply, store) = r.delete key w.store in
          after_command "delete" client now reply (record w { store = store }))
        now

  -- `clear`
  unfoldable pub clear : Readings → Op Bool
  clear now =
      with_client false
        (λ client w.
          let (reply, store) = r.flushdb w.store in
          after_command "clear" client now reply (record w { store = store }))
        now

  -- `aget`, `aset`, `adelete` and `aclear`: an `await` is no step of its own, and the gate is the one of
  -- the async client.
  abbrev pub aget : String → Readings → Op (Option V)
  aget = get

  abbrev pub aset : String → V → ℕ → Readings → Op Bool
  aset = set

  abbrev pub adelete : String → Readings → Op Bool
  adelete = delete

  abbrev pub aclear : Readings → Op Bool
  aclear = clear
