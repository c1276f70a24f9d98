-- ===== src/Statistics/Source.antt =====
-- Where the statistics of the chat tool come from (data_agent/tools/file_statistics.py over
-- data_agent/services/managed_file_service.py), and the tool's bound on running work.
use deep_data_agent.Prelude.{
  ℕ, ◌≡◌, refl, sym, ap, ◌∙◌, ◌<◌, ◌≤◌, eq_iff, ◌+◌, Bool, true, Option, none, some, String, arith,
}
use Prim.Native.String.{count as characters}
use deep_data_agent.Access.{User, file_read_own, has_permission}
use deep_data_agent.Files.{Result, ok, err, Bytes, ManagedFile, Limits}
use deep_data_agent.Files.Prepare.{Texts}
use deep_data_agent.Files.Storage.{Disk}
use deep_data_agent.Files.Service.{Database, World, read_table}
use deep_data_agent.Files.Service.Laws.{IsLive, IsVerified, read_table-IsVerified}
use deep_data_agent.Statistics.{Computed, done, refused, Decimals, Python}
use deep_data_agent.Statistics.Table.{Table}
use deep_data_agent.Statistics.Sums.{Sums, calculate}
use deep_data_agent.Statistics.Sums.Loop.{next-eq-done}
use deep_data_agent.Statistics.Report.{
  Report, Sourced, report_of, calculate_statistics, attach_source,
}
use deep_data_agent.Statistics.Tool.{
  Outcome, found, absent, failed, statistics, ToolResult, success, error, tool_result, Subjects,
  user_id_of, auth_required, not_found, analysis_error, statistics_of, on_read, file_statistics,
  calculate_tool, Slots, workers, Submitted, accepted, raised, submit, release,
}

-- The subject is this number in its canonical decimal text, with no more than 20 digits.
pub record IsSubject (p : Subjects) (subject : Option String) (i : ℕ) : Type 0 where
  pub text : String
  pub given : subject ≡ some text
  pub digits : p.is_digits text ≡ true
  pub short : characters text ≤ 20
  pub positive : 1 ≤ i
  pub number : p.int text ≡ i
  pub canonical : p.str i ≡ text

user_id_of-IsSubject :
    (p : Subjects) (subject : Option String) (i : ℕ)
    → user_id_of p subject ≡ some i
    → IsSubject p subject i
unfolding user_id_of
user_id_of-IsSubject p none i h = cc
user_id_of-IsSubject p (some text) i h =
    let spelled = eq_iff (p.str (p.int text)) text in
    let number : p.int text ≡ i = ground arith in
    record {
      text = text;
      given = refl;
      digits = ground arith;
      short = ground arith;
      positive = ground arith;
      number = number;
      canonical = ap p.str (sym number) ∙ spelled.0 (ground arith);
    }

module _ (t : Texts) (k : Disk) (str : ℕ → String) (b : Database) (l : Limits) (d : Decimals)
    (y : Python d) (late : ℕ → Bool) (digest : Report → String → String → ℕ → String) where
  -- A result for a column, from a file of this user.
  pub record HasSource (actor : User) (now : ℕ) (file_id column : String) (s : Sourced)
      : Type 0 where
    pub row : ManagedFile
    pub content : Bytes
    pub table : Table d
    pub sums : Sums d
    pub may_read : has_permission actor.role file_read_own ≡ true
    pub live : IsLive actor.id now file_id row
    pub verified : IsVerified t k str l.upload_max_bytes row content
    pub computed : calculate d y late content row.media_type column ≡ done (table, sums)
    pub attached : s ≡ attach_source d y digest (report_of d y column (table, sums)) row

  statistics_of-found :
      (column : String) (row : ManagedFile) (content : Bytes) (s : Sourced)
      → statistics_of t k str b l d y late digest column row content ≡ found s
      → (r : Report) × (calculate_statistics d y late content row.media_type column ≡ done r)
        × (s ≡ attach_source d y digest r row)
  unfolding statistics_of
  statistics_of-found column row content s h =
      ended (calculate_statistics d y late content row.media_type column) refl (ground arith)
    where
      ended :
          (c : Computed Report)
          → calculate_statistics d y late content row.media_type column ≡ c
          → (elim c as (λ x. Outcome Sourced) [
            | done r ↦ found (attach_source d y digest r row)
            | refused e ↦ failed (statistics e)
          ])
            ≡ found s
          → (r : Report) × (calculate_statistics d y late content row.media_type column ≡ done r)
            × (s ≡ attach_source d y digest r row)
      ended (done r) e h = (r, e, cc)
      ended (refused x) e h = cc

  on_read-HasSource :
      (actor : User) (now : ℕ) (file_id column : String) (w : World t k str b l) (s : Sourced)
      (read : Result (Option (ManagedFile × Bytes)))
      → (read_table t k str b l actor now file_id w).0 ≡ read
      → on_read t k str b l d y late digest column read ≡ found s
      → HasSource actor now file_id column s
  unfolding on_read calculate_statistics
  on_read-HasSource actor now file_id column w s (err e) h g = cc
  on_read-HasSource actor now file_id column w s (ok none) h g = cc
  on_read-HasSource actor now file_id column w s (ok (some (row, content))) h g =
      let (may, live, verified, filled) =
        read_table-IsVerified t k str b l actor now file_id w row content h in
      let (r, e, same) = statistics_of-found column row content s g in
      let ((table, sums), run, f) =
        next-eq-done (calculate d y late content row.media_type column) _ e in
      let made : report_of d y column (table, sums) ≡ r = ground arith in
      record {
        row = row;
        content = content;
        table = table;
        sums = sums;
        may_read = may;
        live = live;
        verified = verified;
        computed = run;
        attached = same ∙ ap (λ x. attach_source d y digest x row) (sym made);
      }

  pub file_statistics-HasSource :
      (actor : User) (now : ℕ) (file_id column : String) (w : World t k str b l) (s : Sourced)
      → (file_statistics t k str b l d y late digest actor now file_id column w).0 ≡ found s
      → HasSource actor now file_id column s
  unfolding file_statistics
  file_statistics-HasSource actor now file_id column w s h =
      on_read-HasSource actor now file_id column w s (read_table t k str b l actor now file_id w).0
        refl h

  tool_result-found : (o : Outcome Sourced) (s : Sourced) → tool_result o ≡ success s → o ≡ found s
  unfolding tool_result
  tool_result-found (found z) s h = ground arith
  tool_result-found absent s h = cc
  tool_result-found (failed e) s h = cc

  module _ (p : Subjects) (user : ℕ → Result (Option User)) where
    abbrev with_user :
        Result (Option User)
        → ℕ
        → String
        → String
        → World t k str b l
        → ToolResult × World t k str b l
    with_user (err e) now file_id column w = (error analysis_error, w)
    with_user (ok none) now file_id column w = (error not_found, w)
    with_user (ok (some actor)) now file_id column w =
        let (outcome, w') =
          file_statistics t k str b l d y late digest actor now file_id column w in
        (tool_result outcome, w')

    -- Where the lookup gives the user of the id that it is asked for: what the tool reports as a success is
    -- computed for the subject of the run. The run has a subject, which is the canonical text of a positive
    -- number of at most 20 digits; that number is the id of a stored user; and the file is one that this
    -- user may read.
    pub calculate_tool-HasSource :
        (lookup : (i : ℕ) (a : User) → user i ≡ ok (some a) → a.id ≡ i) (subject : Option String)
        (now : ℕ) (file_id column : String) (w : World t k str b l) (s : Sourced)
        → (calculate_tool t k str b l d y late digest p subject user now file_id column w).0
          ≡ success s
        → (i : ℕ) × (actor : User) × IsSubject p subject i
          × (user i ≡ ok (some actor))
          × (actor.id ≡ i)
          × HasSource actor now file_id column s
    unfolding calculate_tool
    calculate_tool-HasSource lookup subject now file_id column w s h =
        known (user_id_of p subject) refl (ground arith)
      where
        known :
            (o : Option ℕ)
            → user_id_of p subject ≡ o
            → (elim o as (λ x. ToolResult × World t k str b l) [
              | none ↦ (error auth_required, w)
              | some i ↦ with_user (user i) now file_id column w
            ]).0
              ≡ success s
            → (i : ℕ) × (actor : User) × IsSubject p subject i
              × (user i ≡ ok (some actor))
              × (actor.id ≡ i)
              × HasSource actor now file_id column s
        known none e g = cc
        known (some i) e g = stored (user i) refl g
          where
            stored :
                (r : Result (Option User))
                → user i ≡ r
                → (with_user r now file_id column w).0 ≡ success s
                → (i : ℕ) × (actor : User) × IsSubject p subject i
                  × (user i ≡ ok (some actor))
                  × (actor.id ≡ i)
                  × HasSource actor now file_id column s
            stored (err x) f g' = cc
            stored (ok none) f g' = cc
            stored (ok (some actor)) f g' = (
              i,
              actor,
              user_id_of-IsSubject p subject i e,
              f,
              lookup i actor f,
              file_statistics-HasSource actor now file_id column w s (
                  tool_result-found
                    (file_statistics t k str b l d y late digest actor now file_id column w).0 s
                    g'),
            )

-- The steps of the tool's threads: a call, with any answer of the executor, and the end of a run.
pub data SlotStep : Slots → Slots → Type 0 where
  call : (s : Slots) (outcome : Submitted) → SlotStep s (submit outcome s).1
  end_run : (s : Slots) → 0 < s.running → SlotStep s (release s)

pub data SlotsReach (s : Slots) : Slots → Type 0 where
  here : SlotsReach s s
  step : {u v : Slots} → SlotsReach s u → SlotStep u v → SlotsReach s v

abbrev pub no_runs : Slots
no_runs = record { free = workers; running = 0 }

SlotStep-workers :
    {s u : Slots} → SlotStep s u → s.free + s.running ≡ workers → u.free + u.running ≡ workers
unfolding submit release
SlotStep-workers (call s accepted) h = ground arith
SlotStep-workers (call s raised) h = ground arith
SlotStep-workers (end_run s le) h = omega arith

-- However calls, failures of the executor and ends of runs follow one another, no slot is lost and none is
-- given twice: free slots and submitted runs are the four workers.
pub SlotsReach-workers : (s : Slots) → SlotsReach no_runs s → s.free + s.running ≡ workers
SlotsReach-workers s here = refl
SlotsReach-workers s (step r st) = SlotStep-workers st (SlotsReach-workers _ r)
