-- ===== src/Jobs/Record.antt =====
-- Job and JobStatus of services/job_scheduler.py. Times are numbers of one clock.
use dub_manga_studio.Common.{ℕ, String, Bool, true, false, ℤ, Option, Json, ◌==◌}

pub data JobStatus : Type 0 where
  queued running paused completed failed cancelled : JobStatus

pub record Job : Type 0 where
  pub id : String
  pub type : String
  pub payload : Json
  pub priority : ℤ
  pub status : JobStatus
  pub max_attempts : ℕ
  pub attempts : ℕ
  pub created_at : ℕ
  pub updated_at : ℕ
  pub started_at : Option ℕ
  pub completed_at : Option ℕ
  pub paused_at : Option ℕ
  pub cancelled_at : Option ℕ
  pub result : Json
  pub error : Option String
  pub metadata : Json

abbrev pub is_queued : JobStatus → Bool
is_queued queued = true
is_queued _ = false

abbrev pub is_paused : JobStatus → Bool
is_paused paused = true
is_paused _ = false

abbrev pub is_cancelled : JobStatus → Bool
is_cancelled cancelled = true
is_cancelled _ = false

abbrev pub is_completed : JobStatus → Bool
is_completed completed = true
is_completed _ = false

-- in {COMPLETED, FAILED, CANCELLED}
abbrev pub is_terminal : JobStatus → Bool
is_terminal completed = true
is_terminal failed = true
is_terminal cancelled = true
is_terminal _ = false

-- in {FAILED, CANCELLED}
abbrev pub is_retryable : JobStatus → Bool
is_retryable failed = true
is_retryable cancelled = true
is_retryable _ = false

status_index : JobStatus → ℕ
status_index queued = 0
status_index running = 1
status_index paused = 2
status_index completed = 3
status_index failed = 4
status_index cancelled = 5

unfoldable pub same_status : JobStatus → JobStatus → Bool
unfolding status_index
same_status s t = status_index s == status_index t
