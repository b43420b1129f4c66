-- ===== src/Mcourse/Config.antt =====
-- What src/server/mcourse/mcourse.cpp reads from a request's JSON and from its own configuration. The
-- JSON library is outside: a value that the code looks for is an `Option`, and `none` is one that is
-- missing.
use judge_system.Base.{ℤ, pos, String, List, Option, none, some}

pub record RandomConfig : Type 0 where
  pub run_times : Option ℤ
  pub complie_command : Option String
  pub compile_command : Option String
  pub entry_point : Option String

-- `grading`, with the names of its entries.
pub record Grading : Type 0 where
  pub compile_check : Option ℤ
  pub random_tests : Option ℤ
  pub standard_tests : Option ℤ
  pub static_check : Option ℤ
  pub google_tests : Option ℤ
  pub memory_check : Option ℤ

-- `config.standard`
pub record StandardConfig : Type 0 where
  pub support : Option (List String)
  pub hidden_support : Option (List String)
  pub standard_input : Option (List String)
  pub standard_output : Option (List String)
  pub random_source : Option (List String)

pub record ProblemConfig : Type 0 where
  pub standard_language : Option String
  pub language : Option (List String)
  pub entry_point : Option String
  pub standard : Option StandardConfig
  pub submission : Option (List String)
  pub memory_limit : Option ℤ
  pub time_limit : Option ℤ
  pub grading : Option Grading
  pub random : Option RandomConfig

pub record SubmissionDetail : Type 0 where
  pub git_path : Option String
  pub git_protocol : Option String
  pub git_commit : Option String
  pub language : Option String

pub data SubmissionType : Type 0 where
  student teacher : SubmissionType

-- The limits and the login of `configuration` and of src/config.cpp; times in milliseconds.
pub record ServerConfig : Type 0 where
  pub compile_time_limit : ℤ
  pub oclint : ℤ
  pub valgrind : ℤ
  pub script_mem_limit : ℤ
  pub script_file_limit : ℤ
  pub git_username : String
  pub git_password : String

-- `get_value_def(grading, 0, ...)`
abbrev pub or_zero : Option ℤ → ℤ
or_zero none = pos 0
or_zero (some n) = n
