-- ===== src/Tests/Mcourse.antt =====
-- A problem of the Matrix course system with random, standard and memory tests.
use judge_system.Base.{
  ◌*◌, pos, some, none, ◌≡◌, refl, ◌↔◌, true, false, [], ◌∷◌, length, arith, ◌>>=◌, Option,
}
use judge_system.Programming.{ProgrammingSubmission}
use judge_system.Programming.Verify.{verify}
use judge_system.Programming.Judge.BaseDirs.{FilesEarlier}
use judge_system.Mcourse.Config.{
  Grading, StandardConfig, ProblemConfig, SubmissionDetail, SubmissionType, ServerConfig,
}
use judge_system.Mcourse.Tasks.{
  compile_task, random_tasks, standard_tasks, static_tasks, gtest_tasks, memory_after, memory_tasks,
  build_tasks,
}
use judge_system.Mcourse.Build.{
  from_json_programming, random_program, submission_language, test_cases, whole_seconds,
}
use judge_system.Mcourse.Build.Accepted.{from_json_programming-verify, lacks_generator}
use judge_system.Tests.Programming.{base, sample}

abbrev pub server : ServerConfig
server = record {
  compile_time_limit = pos 60000;
  oclint = pos 60000;
  valgrind = pos 60000;
  script_mem_limit = pos (1024 * 1024);
  script_file_limit = pos (1024 * 1024);
  git_username = "matrix";
  git_password = "";
}

abbrev grading : Grading
grading = record {
  compile_check = some (pos 10);
  random_tests = some (pos 40);
  standard_tests = some (pos 30);
  static_check = none;
  google_tests = none;
  memory_check = some (pos 20);
}

abbrev standard : StandardConfig
standard = record {
  support = none;
  hidden_support = none;
  standard_input = some ("input0" ∷ "input1" ∷ []);
  standard_output = some ("output0" ∷ "output1" ∷ []);
  random_source = some ("random.cpp" ∷ []);
}

abbrev pub problem : ProblemConfig
problem = record {
  standard_language = some "c++";
  language = some ("c++" ∷ []);
  entry_point = none;
  standard = some standard;
  submission = some ("source.cpp" ∷ []);
  memory_limit = some (pos 32);
  time_limit = some (pos 1500);
  grading = some grading;
  random = some (record {
    run_times = some (pos 2);
    complie_command = none;
    compile_command = some "g++ CODE_FILES -o OUTPUT_PROGRAM";
    entry_point = none;
  });
}

abbrev pub detail : SubmissionDetail
detail = record { git_path = none; git_protocol = none; git_commit = none; language = some "c++" }

abbrev built : Option ProgrammingSubmission
built = from_json_programming server base SubmissionType.student problem detail

abbrev or_sample : Option ProgrammingSubmission → ProgrammingSubmission
or_sample none = sample
or_sample (some sub) = sub

abbrev submit : ProgrammingSubmission
submit = or_sample built

-- A compilation, two random tests, two standard tests, and two memory tests after these.
seven_tasks : length submit.judge_tasks ≡ 7
unfolding from_json_programming submission_language test_cases random_program ◌>>=◌ build_tasks
    compile_task random_tasks standard_tasks static_tasks gtest_tasks memory_tasks memory_after
seven_tasks = refl

-- A second and a half is cut to one second.
cut_limit : whole_seconds (pos 1500) ≡ pos 1000
unfolding whole_seconds
cut_limit = refl

from_json_programming-verify_example :
    FilesEarlier submit.judge_tasks
    × ((verify (some submit) ≡ true) ↔ (lacks_generator problem ≡ false))
unfolding from_json_programming submission_language test_cases random_program ◌>>=◌ build_tasks
    compile_task random_tasks standard_tasks static_tasks gtest_tasks memory_tasks memory_after
from_json_programming-verify_example =
    from_json_programming-verify server base SubmissionType.student problem detail submit refl
      (omega arith)
