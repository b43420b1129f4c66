-- ===== src/Sicily.antt =====
-- src/server/sicily/sicily.cpp: the server of the Sicily online judge. The database is outside: a query
-- is an argument with its rows, and an update a `Statement` with its values.
pub mod Fetch
pub mod Summary
use judge_system.Base.{ℕ, ℤ, String}

pub record RankRow : Type 0 where
  pub uid : String
  pub cid : String
  pub pid : String
  pub accepted : ℤ
  pub submissions : ℤ
  pub ac_time : ℤ

pub data Statement : Type 0 where
  delete_queue : (qid : String) → Statement
  set_compilelog : (log sid : String) → Statement
  set_status_used : (status : String) (failcase run_time run_memory : ℤ) (sid : String) → Statement
  set_status_only : (status : String) (failcase : ℤ) (sid : String) → Statement
  add_stock_solved : (uid : String) → Statement
  add_accepted : (pid : String) → Statement
  insert_rank : (row : RankRow) → Statement
  update_rank : (row : RankRow) → Statement
  delete_rank : (uid cid pid : String) (later_than : ℤ) → Statement
  add_contest_accepted : (cid pid : String) → Statement
