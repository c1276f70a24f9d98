-- ===== src/Cache/Laws.antt =====
-- What the answer cache promises with Redis and without (data_agent/services/cache_service.py).
use deep_data_agent.Prelude.{
  ℕ, ◌≤◌, ◌≡◌, refl, ap, ◌∙◌, ◌⊎◌, inl, inr, true, false, Option, none, some, String, str_eq,
  eq_iff, if◌then◌else◌,
}
use deep_data_agent.Recovery.{gives}
use deep_data_agent.Gate.{Gate, IsWaiting}
use deep_data_agent.Cache.{
  value, failed, Commands, Codec, is_text, World, Readings, with_client, report_failure, load, get,
  store_text, set, after_command, delete, clear,
}

-- Redis while no key runs out; SETEX for 0 seconds is an error.
pub record Documented (r : Commands) : Type 0 where
  pub content : r.Store → String → Option String
  pub get_value : (k : String) (s : r.Store) → (r.get k s).0 ≡ value (content s k)
  pub setex_value :
      (k : String) (n : ℕ) (t : String) (s : r.Store) → 1 ≤ n → (r.setex k n t s).0 ≡ value tt
  pub setex_content :
      (k i : String) (n : ℕ) (t : String) (s : r.Store)
      → 1 ≤ n
      → content (r.setex k n t s).1 i ≡ (if str_eq k i then some t else content s i)
  pub delete_value : (k : String) (s : r.Store) → (r.delete k s).0 ≡ value tt
  pub delete_content :
      (k i : String) (s : r.Store)
      → content (r.delete k s).1 i ≡ (if str_eq k i then none else content s i)

module _ (g : Gate) (r : Commands) (j : Codec) where
  -- No Redis: no client, or one whose commands fail.
  abbrev pub IsAway : Readings g r j → World g r j → Type 0
  IsAway now w =
      ((g.get_client now.connects w.gate).0 ≡ gives none)
      ⊎ ((c : ℕ) × ((g.get_client now.connects w.gate).0 ≡ gives (some c))
          × ((k : String) → (r.get k w.store).0 ≡ failed)
          × ((k : String) → (r.delete k w.store).0 ≡ failed)
          × ((r.flushdb w.store).0 ≡ failed))

  -- Without Redis a lookup is a miss, nothing is deleted or cleared, and no exception is passed on;
  -- afterwards callers are told to wait.
  pub cache_degrades :
      (key : String) (now : Readings g r j) (later : g.Reading) (w : World g r j)
      → g.IsValid w.gate
      → IsAway now w
      → ((get g r j key now w).0 ≡ some none)
        × ((delete g r j key now w).0 ≡ some false)
        × ((clear g r j now w).0 ≡ some false)
        × IsWaiting (g.protection_state later (get g r j key now w).1.gate)
        × IsWaiting (g.protection_state later (delete g r j key now w).1.gate)
        × IsWaiting (g.protection_state later (clear g r j now w).1.gate)
  unfolding get delete clear report_failure after_command with_client
  cache_degrades key now later w v (inl e) =
      let waits = g.get_client_none now.connects later w.gate v e in
      (
        rw (e, with_client) refl,
        rw (e, with_client) refl,
        rw (e, with_client) refl,
        rw (e, with_client) waits,
        rw (e, with_client) waits,
        rw (e, with_client) waits,
      )
  cache_degrades key now later w v (inr (c, e, fg, fd, ff)) = (
    rw (e, with_client) (rw (fg key) refl),
    rw (e, with_client) (rw (fd key) refl),
    rw (e, with_client) (rw ff refl),
    rw (e, with_client) (rw (fg key) (waits "get")),
    rw (e, with_client) (rw (fd key) (waits "delete")),
    rw (e, with_client) (rw ff (waits "clear")),
  )
    where
      waits :
          (op : String)
          → IsWaiting (
              g.protection_state later
                (g.mark_unavailable c op now.reports (g.get_client now.connects w.gate).1))
      waits op = g.mark_taken now.connects now.reports later w.gate c op v e

  module _ (h : Documented r) where
    open h use {content}

    set_ready :
        (key text : String) (v : j.V) (expire c : ℕ) (now : Readings g r j) (w : World g r j)
        → g.IsValid w.gate
        → g.client w.gate ≡ some c
        → 1 ≤ expire
        → j.dumps v ≡ value text
        → set g r j key v expire now w
          ≡ (some true, record { gate = w.gate; store = (r.setex key expire text w.store).1 })
    unfolding set with_client store_text
    set_ready key text v expire c now w valid up le e =
        rw (g.get_client_ready now.connects w.gate c valid up, with_client)
          (rw e (
            rw (h.setex_value key expire text w.store le, store_text)
              (rw (ap (λ x. x.1) (g.get_client_ready now.connects w.gate c valid up)) refl)))

    -- What a lookup finds when Redis is there.
    get_ready :
        (key : String) (c : ℕ) (now : Readings g r j) (w : World g r j)
        → g.IsValid w.gate
        → g.client w.gate ≡ some c
        → content w.store key ≡ none
        → (get g r j key now w).0 ≡ some none
    unfolding get with_client
    get_ready key c now w valid up e =
        rw (g.get_client_ready now.connects w.gate c valid up, with_client)
          (rw (h.get_value key w.store) (rw e refl))

    get_hit :
        (key text : String) (v : j.V) (c : ℕ) (now : Readings g r j) (w : World g r j)
        → g.IsValid w.gate
        → g.client w.gate ≡ some c
        → content w.store key ≡ some text
        → is_text (some text) ≡ true
        → j.loads text ≡ value v
        → (get g r j key now w).0 ≡ some (some v)
    unfolding get with_client load
    get_hit key text v c now w valid up e f l =
        rw (g.get_client_ready now.connects w.gate c valid up, with_client)
          (rw (h.get_value key w.store) (rw e (rw f (rw (l, load) refl))))

    -- With Redis at hand and while no key runs out, a value that was stored for a second or more is found under its key, when the codec reads back
    -- what it wrote; a lookup of another key that held nothing stays a miss.
    pub set_get :
        (key other text : String) (v : j.V) (expire c : ℕ) (now later : Readings g r j)
        (w : World g r j)
        → g.IsValid w.gate
        → g.client w.gate ≡ some c
        → 1 ≤ expire
        → j.dumps v ≡ value text
        → j.loads text ≡ value v
        → is_text (some text) ≡ true
        → str_eq key other ≡ false
        → content w.store other ≡ none
        → ((get g r j key later (set g r j key v expire now w).1).0 ≡ some (some v))
          × ((get g r j other later (set g r j key v expire now w).1).0 ≡ some none)
    set_get key other text v expire c now later w valid up le d l f n absent =
        rw (set_ready key text v expire c now w valid up le d) (
          get_hit key text v c later _ valid up
              (h.setex_content key key expire text w.store le ∙ rw ((eq_iff key key).1 refl)) f l,
          get_ready other c later _ valid up
              (h.setex_content key other expire text w.store le ∙ rw n absent),
        )
