-- ===== src/Lease/Tests.antt =====
-- The Redis commands over lists of entries, and the theorems of the lease scripts there.
use deep_data_agent.Prelude.{
  ℕ, ◌+◌, ◌*◌, ◌/◌, ◌≤◌, ◌≡◌, refl, ap, inl, inr, not, Option, none, some, List, [], ◌∷◌, arith,
  if◌then◌else◌, Bool-cases, length, keep, map,
}
use deep_data_agent.Lease.{now_ms, acquire_script, release_script}
use deep_data_agent.Lease.Sorted.{
  Key, global, user, same_key, same_key-true, Entry, SortedSets, Documented, is_member, is_after,
}
use deep_data_agent.Lease.Table.{entry_of, live, granted, remove, Keeps}
use deep_data_agent.Lease.Refines.{Reports, acquire_script_admits}
use deep_data_agent.Lease.Refines.Release.{release_script_removes}
use deep_data_agent.Lease.Limits.{System, here, next, acquires, issue, leases_within_limits}

record Store : Type 0 where
  clock : ℕ
  content : Key → List Entry
  expiry : Key → Option ℕ

abbrev first_score : List Entry → Option ℕ
first_score [] = none
first_score (e ∷ es) = some e.score

-- `k` gets the value, the other keys keep theirs.
abbrev update : {A : Type 0} → Key → A → (Key → A) → Key → A
update k x f j = if same_key k j then x else f j

abbrev commands : SortedSets
commands = record {
  Store = Store;
  time = λ s. (s.clock, 0);
  zremrangebyscore =
      λ k t s. record s { content = update k (keep (is_after t) (s.content k)) s.content };
  zcard = λ k s. length (s.content k);
  zrange_first = λ k s. first_score (s.content k);
  zadd = λ k score m s. record s {
    content = update k (record { member = m; score = score } ∷ s.content k) s.content;
  };
  zrem = λ k m s. (
    length (keep (is_member m) (s.content k)),
    record s { content = update k (keep (λ e. not (is_member m e)) (s.content k)) s.content },
  );
  pexpire = λ k t s. record s { expiry = update k (some (s.clock * 1000 + t)) s.expiry };
  del = λ k s. record s { content = update k [] s.content };
}

update_lem :
    {A : Type 0} (F : A → A) (k j : Key) (f : Key → A)
    → update k (F (f k)) f j ≡ (if same_key k j then F (f j) else f j)
update_lem F k j f = elim (Bool-cases (same_key k j)) [
  | inl e ↦ rw e (ap (λ i. F (f i)) (same_key-true k j e))
  | inr e ↦ rw e
]

deadline_lem :
    (clock t : ℕ) (k j : Key) (f : Key → Option ℕ)
    → update k (some (clock * 1000 + t)) f j
      ≡ (if same_key k j then some (clock * 1000 + 0 / 1000 + t) else f j)
deadline_lem clock t k j f = ground arith

abbrev laws : Documented commands
laws = record {
  entries = λ s. s.content;
  deadline = λ s. s.expiry;
  zremrange_time = λ k t s. refl;
  zremrange_entries = λ k j t s. update_lem (keep (is_after t)) k j s.content;
  zremrange_deadline = λ k j t s. inl refl;
  zcard_length = λ k s. refl;
  zadd_time = λ k score m s. refl;
  zadd_entries = λ k j score m s fresh.
      update_lem (λ es. record { member = m; score = score } ∷ es) k j s.content;
  zadd_deadline = λ k j score m s. refl;
  zrem_time = λ k m s. refl;
  zrem_count = λ k m s. refl;
  zrem_entries = λ k j m s. update_lem (keep (λ e. not (is_member m e))) k j s.content;
  zrem_deadline = λ k j m s. inl refl;
  pexpire_time = λ k t s. refl;
  pexpire_entries = λ k j t s. refl;
  pexpire_deadline = λ k j t s. deadline_lem s.clock t k j s.expiry;
  del_time = λ k s. refl;
  del_entries = λ k j s. refl;
  del_deadline = λ k j s. inl refl;
}

abbrev empty : Store
empty = record { clock = 5; content = λ k. []; expiry = λ k. none }

empty-Keeps : Keeps commands laws 900 empty []
empty-Keeps = record { contents = λ k. refl; bounded = λ k. tt; covered = λ k t e. tt }

abbrev held : Store
held = (acquire_script commands "u" "l1" 4 1 900 empty).1

acquire_script_admits_example :
    let (reply, s') = acquire_script commands "u" "l1" 4 1 900 empty in
    Reports reply (granted (now_ms commands empty + 900))
    × Keeps commands laws 900 s' (
        record {
          lease_id = "l1";
          subject_digest = "u";
          expires_at_ms = now_ms commands empty + 900;
        }
        ∷ [])
acquire_script_admits_example =
    acquire_script_admits commands laws 900 "u" "l1" 4 1 empty [] (omega arith) empty-Keeps refl
      refl

release_script_removes_example : Keeps commands laws 900 (release_script commands "u" "l1" held).1 (
    remove "l1" (
      record { lease_id = "l1"; subject_digest = "u"; expires_at_ms = now_ms commands empty + 900 }
      ∷ []))
release_script_removes_example =
    release_script_removes commands laws 900 "u" "l1" held
      (record { lease_id = "l1"; subject_digest = "u"; expires_at_ms = now_ms commands empty + 900 }
        ∷ [])
      acquire_script_admits_example.1 (refl, tt)

abbrev begin : System commands laws 4 1 900
begin = record { store = empty; leases = [] }

abbrev taken : System commands laws 4 1 900
taken = record {
  store = held;
  leases = issue "u" "l1" (acquire_script commands "u" "l1" 4 1 900 empty).0 [];
}

leases_within_limits_example :
    (length (live (now_ms commands held) global taken.leases) ≤ 4)
    × (length (live (now_ms commands held) (user "u") taken.leases) ≤ 1)
    × (keep (is_after (now_ms commands held)) (held.content global)
        ≡ map entry_of (live (now_ms commands held) global taken.leases))
leases_within_limits_example =
    leases_within_limits commands laws 4 1 900 empty taken "u" global (omega arith) (λ k. refl)
      (next here (acquires "u" "l1" refl refl))
