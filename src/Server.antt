-- ===== src/Server.antt =====
-- The state that the handlers and the background tasks share (src/state.rs): the three tables, the
-- files under the data directory by their path, the counter that wakes long-polls, the pending wake
-- of the worker, and how often ComfyUI was told to interrupt.
use zun_rust_server.Prelude.{ℕ, ◌+◌, ◌%◌, ◌^◌, Bool, true, List, Option, none, some, if◌then◌else◌}
use zun_rust_server.Prelude.Int.{ℤ}
use zun_rust_server.Prelude.Text.{Text, text_eq}
use zun_rust_server.Jobs.{Job}

-- A row of the table `inputs`.
pub record Input : Type 0 where
  pub id : ℕ
  pub sha256 : Text
  pub path : Option Text
  pub original_name : Option Text
  pub content_type : Option Text
  pub size_bytes : Option ℕ
  pub width : Option ℕ
  pub height : Option ℕ
  pub created_at : ℤ
  pub last_used_at : ℤ

-- A row of the table `custom_prompts`.
pub record Prompt : Type 0 where
  pub id : ℕ
  pub label : Text
  pub description : Option Text
  pub text : Text
  pub workflow : Text
  pub timeout_seconds : Option ℤ
  pub created_at : ℤ
  pub updated_at : ℤ
  pub deleted_at : Option ℤ

abbrev pub Bytes : Type 0
Bytes = List ℕ

-- The contents of the file at a path, if there is one.
abbrev pub Disk : Type 0
Disk = Text → Option Bytes

abbrev pub write_file : Text → Bytes → Disk → Disk
write_file p bytes d q = if text_eq p q then some bytes else d q

abbrev pub remove_file : Text → Disk → Disk
remove_file p d q = if text_eq p q then none else d q

pub record Server : Type 0 where
  pub jobs : List Job
  pub inputs : List Input
  pub prompts : List Prompt
  pub disk : Disk
  pub job_events : ℕ
  pub worker_wake : Bool
  pub interrupts : ℕ

-- `n.wrapping_add(1)` on a `u64`.
unfoldable pub notify_job_change : Server → Server
notify_job_change s = record s { job_events = (s.job_events + 1) % 2 ^ 64 }

-- `try_send` on the channel with one slot: a full channel keeps its one message.
unfoldable pub wake_worker : Server → Server
wake_worker s = record s { worker_wake = true }

-- POST /interrupt; a failure is only logged.
unfoldable pub interrupt : Server → Server
interrupt s = record s { interrupts = s.interrupts + 1 }
