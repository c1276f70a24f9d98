-- ===== src/Lease/Sorted.antt =====
-- The Redis commands that the lease scripts call, as a parameter, and what Redis documents of them.
-- `entries` is the content of a sorted set in the order of insertion, `deadline` the time at which
-- a key runs out, in milliseconds.
use deep_data_agent.Prelude.{
  ℕ, ◌+◌, ◌*◌, ◌/◌, ◌≡◌, ◌⊎◌, Bool, true, false, not, Option, none, some, List, [], ◌∷◌, String,
  str_eq, eq_iff, refl, ap, ltb, length, keep, if◌then◌else◌,
}

-- `agent:lease:{agent}:global`, and `agent:lease:{agent}:user:` before a subject's digest.
pub data Key : Type 0 where
  global : Key
  user : String → Key

abbrev pub same_key : Key → Key → Bool
same_key global global = true
same_key global (user d) = false
same_key (user d) global = false
same_key (user d) (user d') = str_eq d d'

pub same_key-true : (k j : Key) → same_key k j ≡ true → k ≡ j
same_key-true global global e = refl
same_key-true global (user d) e = cc
same_key-true (user d) global e = cc
same_key-true (user d) (user d') e = ap user ((eq_iff d d').0 e)

pub record Entry : Type 0 where
  pub member : String
  pub score : ℕ

pub record SortedSets : Type 1 where
  pub Store : Type 0
  -- seconds and microseconds
  pub time : Store → ℕ × ℕ
  pub zremrangebyscore : Key → ℕ → Store → Store
  pub zcard : Key → Store → ℕ
  -- the score of the first entry
  pub zrange_first : Key → Store → Option ℕ
  pub zadd : Key → ℕ → String → Store → Store
  pub zrem : Key → String → Store → ℕ × Store
  pub pexpire : Key → ℕ → Store → Store
  pub del : Key → Store → Store

abbrev pub is_member : String → Entry → Bool
is_member m e = str_eq e.member m

abbrev pub is_after : ℕ → Entry → Bool
is_after t e = ltb t e.score

abbrev pub has_member : String → List Entry → Bool
has_member m [] = false
has_member m (e ∷ es) = if is_member m e then true else has_member m es

-- No command but TIME's clock moves the time; every command leaves the other keys alone; a key
-- whose set becomes empty may lose its deadline.
pub record Documented (z : SortedSets) : Type 0 where
  pub entries : z.Store → Key → List Entry
  pub deadline : z.Store → Key → Option ℕ
  pub zremrange_time :
      (k : Key) (t : ℕ) (s : z.Store) → z.time (z.zremrangebyscore k t s) ≡ z.time s
  pub zremrange_entries :
      (k j : Key) (t : ℕ) (s : z.Store)
      → entries (z.zremrangebyscore k t s) j
        ≡ (if same_key k j then keep (is_after t) (entries s j) else entries s j)
  pub zremrange_deadline :
      (k j : Key) (t : ℕ) (s : z.Store)
      → (deadline (z.zremrangebyscore k t s) j ≡ deadline s j)
        ⊎ (deadline (z.zremrangebyscore k t s) j ≡ none)
  pub zcard_length : (k : Key) (s : z.Store) → z.zcard k s ≡ length (entries s k)
  pub zadd_time :
      (k : Key) (score : ℕ) (m : String) (s : z.Store) → z.time (z.zadd k score m s) ≡ z.time s
  pub zadd_entries :
      (k j : Key) (score : ℕ) (m : String) (s : z.Store)
      → has_member m (entries s k) ≡ false
      → entries (z.zadd k score m s) j
        ≡ (if same_key k j then record { member = m; score = score } ∷ entries s j else entries s j)
  pub zadd_deadline :
      (k j : Key) (score : ℕ) (m : String) (s : z.Store)
      → deadline (z.zadd k score m s) j ≡ deadline s j
  pub zrem_time : (k : Key) (m : String) (s : z.Store) → z.time (z.zrem k m s).1 ≡ z.time s
  pub zrem_count :
      (k : Key) (m : String) (s : z.Store)
      → (z.zrem k m s).0 ≡ length (keep (is_member m) (entries s k))
  pub zrem_entries :
      (k j : Key) (m : String) (s : z.Store)
      → entries (z.zrem k m s).1 j
        ≡ (if same_key k j then keep (λ e. not (is_member m e)) (entries s j) else entries s j)
  pub zrem_deadline :
      (k j : Key) (m : String) (s : z.Store)
      → (deadline (z.zrem k m s).1 j ≡ deadline s j) ⊎ (deadline (z.zrem k m s).1 j ≡ none)
  pub pexpire_time : (k : Key) (t : ℕ) (s : z.Store) → z.time (z.pexpire k t s) ≡ z.time s
  pub pexpire_entries :
      (k j : Key) (t : ℕ) (s : z.Store) → entries (z.pexpire k t s) j ≡ entries s j
  pub pexpire_deadline :
      (k j : Key) (t : ℕ) (s : z.Store)
      → deadline (z.pexpire k t s) j ≡ (
          if same_key k j
          then some ((z.time s).0 * 1000 + (z.time s).1 / 1000 + t)
          else deadline s j)
  pub del_time : (k : Key) (s : z.Store) → z.time (z.del k s) ≡ z.time s
  pub del_entries :
      (k j : Key) (s : z.Store) → entries (z.del k s) j ≡ (if same_key k j then [] else entries s j)
  pub del_deadline :
      (k j : Key) (s : z.Store)
      → (deadline (z.del k s) j ≡ deadline s j) ⊎ (deadline (z.del k s) j ≡ none)
