-- ===== src/Lease/Manager/Tests.antt =====
-- A manager over one script reply and whole seconds, and the theorems of waiting and holding there.
use deep_data_agent.Prelude.{
  ℕ, ◌≡◌, ◌≢◌, refl, ◌⊎◌, true, none, some, [], ◌∷◌, ◌++◌, ◌==◌, if◌then◌else◌,
}
use deep_data_agent.Prelude.Int.{pos, negsuc}
use deep_data_agent.Recovery.{recoverable, get_client}
use deep_data_agent.Recovery.Tests.{whole_seconds, backoff, up}
use deep_data_agent.Gate.{Gate}
use deep_data_agent.Gate.Redis.{Reading, redis_gate}
use deep_data_agent.Lease.Table.{AgentLease}
use deep_data_agent.Lease.Manager.{
  value, Scripts, Subjects, digest, subject_digest, pending, World, Readings, Turn, acquire,
  try_acquire, read_reply, is_over, release,
}
use deep_data_agent.Lease.Manager.Waiting.{Granted, Some, attempts, acquire_ends}
use deep_data_agent.Lease.Manager.Holding.{
  Context, hold, hold_new, run_held, answers_lease, hold-Restores, hold_own,
}

-- A Redis with one free slot: the store counts the leases that are out.
abbrev pub scripts : Scripts
scripts = record {
  Store = ℕ;
  acquire = λ d id n.
      if n == 0 then (value (pos 1, pos 0, pos 900), 1) else (value (negsuc 0, pos 1500, pos 0), n);
  release = λ d id n. (value (pos 2), 0);
}

abbrev pub names : Subjects
names = record {
  is_digit = λ t. true;
  int = λ t. some 7;
  str = λ n. "7";
  identity_ref = λ n. "ref7";
}

abbrev pub gate : Gate
gate = redis_gate whole_seconds backoff

abbrev pub reading : Reading whole_seconds backoff
reading = record { now = 100; probe = recoverable; later = 101; random = 0 }

abbrev pub readings : Readings gate scripts
readings = record { connects = reading; reports = reading; states = reading }

abbrev pub turn_at : ℕ → Turn gate scripts whole_seconds
turn_at clock = record { now = readings; clock = clock; others = λ w. w }

abbrev pub free : World gate scripts
free = record { gate = up; store = 0 }

abbrev taken : World gate scripts
taken = record { gate = up; store = 1 }

abbrev pub lease : AgentLease
lease = record { lease_id = "l1"; subject_digest = "ref7"; expires_at_ms = 900 }

abbrev outside : Context gate scripts whole_seconds names Unit
outside = record { world = free; active = none; subject = none; rest = tt }

acquire_ends_example :
    ((acquire gate scripts whole_seconds 9 "ref7" "l1"
        ((turn_at 3 ∷ []) ++ turn_at 9 ∷ turn_at 10 ∷ [])
        taken).0
      ≢ pending)
    × (acquire gate scripts whole_seconds 9 "ref7" "l1"
          ((turn_at 3 ∷ []) ++ turn_at 9 ∷ turn_at 10 ∷ [])
          taken
        ≡ acquire gate scripts whole_seconds 9 "ref7" "l1"
            ((turn_at 3 ∷ []) ++ turn_at 9 ∷ [])
            taken)
unfolding is_over
acquire_ends_example =
    acquire_ends gate scripts whole_seconds 9 "ref7" "l1" (turn_at 3 ∷ []) (turn_at 10 ∷ [])
      (turn_at 9) taken refl

hold-Restores_example :
    ((hold gate scripts whole_seconds names Unit "7" "l1" 9
        (turn_at 3 ∷ [])
        readings
        (answers_lease gate scripts whole_seconds names Unit)
        outside).1.active
      ≡ none)
    × ((hold gate scripts whole_seconds names Unit "7" "l1" 9
          (turn_at 3 ∷ [])
          readings
          (answers_lease gate scripts whole_seconds names Unit)
          outside).1.subject
        ≡ none)
hold-Restores_example =
    hold-Restores gate scripts whole_seconds names Unit "7" "l1" 9 (turn_at 3 ∷ []) readings
      (answers_lease gate scripts whole_seconds names Unit) outside (λ l c. (refl, refl))

hold_own_example :
    (subject_digest names "7" ≡ digest "ref7")
    × ((outside.active ≡ some lease)
        ⊎ ((outside.active ≡ none)
            × Some
                (Granted gate scripts "ref7" "l1" lease)
                (attempts gate scripts whole_seconds "ref7" "l1" (turn_at 3 ∷ []) free)))
unfolding hold hold_new run_held subject_digest acquire try_acquire read_reply release get_client
hold_own_example =
    hold_own gate scripts whole_seconds names Unit "7" "l1" 9 (turn_at 3 ∷ []) readings outside
      lease refl
