-- ===== src/Submission.antt =====
-- include/judge/submission.hpp and include/common/messages.hpp: a submission of any kind, and the
-- message that asks a worker to judge one of its tasks. Time stamps are seconds.
use judge_system.Base.{ℕ, ℤ, String}

pub record Submission : Type 0 where
  pub judge_id : ℕ
  pub category : String
  pub kind : String  -- `type`
  pub sub_id : String
  pub prob_id : String
  pub updated_at : ℤ
  pub queue_id : String
  pub user_id : String
  pub contest_id : String
  pub contest_prob_id : String
  pub submit_time : ℤ
  pub contest_start_time : ℤ
  pub contest_end_time : ℤ
  pub result : String

-- `submit` is the pointer to the submission, here its `judge_id`; `expect_runtime` is a `double` of
-- seconds in the source, and a number of milliseconds here.
pub record ClientTask : Type 0 where
  pub submit : ℕ
  pub id : ℕ
  pub name : String
  pub cores : ℕ
  pub expect_runtime : ℤ
