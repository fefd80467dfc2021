-- ===== src/Conversion/Tests.antt =====
-- A job for a file that is there, and one for a file that is not.
use libarr.Prelude.{
  ℕ, ◌+◌, codes, text_eq, ◌≡◌, refl, true, none, some, [], ◌∷◌, ◌++◌, get_row, update_row, ok, err,
}
use libarr.Models.{File, ConversionJob, JobStatus, Session}
use libarr.Samples.{empty_session}
use libarr.Conversion.{
  Host, fail, dest, command, finish, start, sized, convert_file, convert_one, run_job, run_jobs,
  tally, write_job, process_conversions,
}

-- A converter that writes every file it is asked for; the world counts runs.
abbrev host : Host ℕ
host = record {
  is_file = λ path w. true;
  size = λ path w. ok 10;
  mkdir = λ path w. (none, w);
  stem = λ path. path;
  join_path = λ a b. a ++ b'/' ∷ b;
  run = λ args w. (ok (record { returncode = 0; stdout = []; stderr = [] }), w + 1);
}

abbrev file : File
file = record {
  id = 1;
  edition_id = none;
  path = codes "dune";
  format = codes "EPUB";
  size_bytes = 10;
  sha256 = codes "h";
}

abbrev job : ℕ → ConversionJob
job file_id = record {
  id = file_id;
  file_id = file_id;
  target_format = codes "pdf";
  status = JobStatus.queued;
  output_path = none;
  error = none;
}

abbrev two_jobs : Session
two_jobs = record empty_session { files = file ∷ []; jobs = job 1 ∷ job 2 ∷ [] }

abbrev one_done : Session
one_done = record two_jobs {
  jobs =
      record (job 1) { status = JobStatus.done; output_path = some (codes "out/dune.pdf") }
      ∷ fail (codes "source file row missing") (job 2)
      ∷ [];
}

one_of_two : process_conversions host (λ t. t) (codes "out") two_jobs 0 ≡ (one_done, ok (1, 1), 1)
unfolding process_conversions run_jobs run_job tally write_job convert_one convert_file sized start
    finish dest command get_row update_row codes text_eq
one_of_two = refl

-- A folder that cannot be made ends the loop, and both jobs stay queued.
abbrev full_disk : Host ℕ
full_disk = record host { mkdir = λ path w. (some (codes "disk full"), w) }

both_stay :
    process_conversions full_disk (λ t. t) (codes "out") two_jobs 0
    ≡ (two_jobs, err (codes "disk full"), 0)
unfolding process_conversions run_jobs run_job tally write_job convert_one convert_file sized start
    get_row update_row codes
both_stay = refl
