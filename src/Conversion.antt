-- ===== src/Conversion.antt =====
-- src/libarr/conversion.py: the queue of conversion jobs. The file system and the subprocess are
-- parameters over a state of the world. The rows are those of the session: an early return of
-- `_convert_one` does not commit what it writes.
pub mod Settled
mod Tests
use libarr.Prelude.{
  ℕ, suc, ◌*◌, Text, codes, text_eq, is_empty, Bool, true, false, not, ◌||◌, Option, none, some,
  List, [], ◌∷◌, ◌++◌, get_row, update_row, next_id, select, Result, ok, err, if◌then◌else◌, ◌==◌,
  ltb, take,
}
use libarr.Models.{File, ConversionJob, JobStatus, Session}

-- What a subprocess leaves: its return code, and the texts it wrote.
pub record Completed : Type 0 where
  pub returncode : ℕ
  pub stdout : Text
  pub stderr : Text

-- `pathlib` and `subprocess.run`. An exception is its text.
pub record Host (W : Type 0) : Type 0 where
  pub is_file : Text → W → Bool
  pub size : Text → W → Result Text ℕ
  pub mkdir : Text → W → Option Text × W
  pub stem : Text → Text
  pub join_path : Text → Text → Text
  pub run : List Text → W → Result Text Completed × W

abbrev pub job_id : ConversionJob → ℕ
job_id job = job.id

abbrev pub file_id : File → ℕ
file_id f = f.id

-- `MAX_SOURCE_BYTES`
abbrev pub max_source_bytes : ℕ
max_source_bytes = 500 * 1024 * 1024

abbrev pub new_job : (Text → Text) → File → Text → Session → ConversionJob
new_job upper file_row target_format s = record {
  id = next_id job_id s.jobs;
  file_id = file_row.id;
  target_format = upper target_format;
  status = JobStatus.queued;
  output_path = none;
  error = none;
}

unfoldable pub enqueue_conversion : (Text → Text) → File → Text → Session → ConversionJob × Session
enqueue_conversion upper file_row target_format s = (
  new_job upper file_row target_format s,
  record s { jobs = s.jobs ++ new_job upper file_row target_format s ∷ [] },
)

abbrev pub fail : Text → ConversionJob → ConversionJob
fail error job = record job { status = JobStatus.failed; error = some error }

abbrev pub is_done : ConversionJob → Bool
is_done job = elim job.status [
  | JobStatus.done ↦ true
  | JobStatus.queued ↦ false
  | JobStatus.working ↦ false
  | JobStatus.failed ↦ false
]

abbrev pub is_queued : ConversionJob → Bool
is_queued job = elim job.status [
  | JobStatus.queued ↦ true
  | JobStatus.done ↦ false
  | JobStatus.working ↦ false
  | JobStatus.failed ↦ false
]

abbrev first_text : Text → Text → Text
first_text a b = if is_empty a then b else a

-- `(result.stderr or result.stdout or "conversion produced no output")[:1000]`
abbrev pub complaint : Completed → Text
complaint result =
    take 1000
      (first_text result.stderr (first_text result.stdout (codes "conversion produced no output")))

module _ {W : Type 0} (host : Host W) (lower : Text → Text) (out_dir : Text) where
  abbrev pub is_kepub : ConversionJob → Bool
  is_kepub job = text_eq job.target_format (codes "KEPUB")

  unfoldable pub dest : ConversionJob → Text → Text
  dest job source = host.join_path out_dir (
      if is_kepub job
      then host.stem source ++ codes "_converted.kepub.epub"
      else host.stem source ++ b'.' ∷ lower job.target_format)

  unfoldable pub command : ConversionJob → Text → List Text
  command job source =
      if is_kepub job
      then codes "kepubify" ∷ codes "--output-dir" ∷ out_dir ∷ source ∷ []
      else codes "ebook-convert" ∷ source ∷ dest job source ∷ []

  -- After the subprocess.
  unfoldable pub finish : ConversionJob → Text → Result Text Completed × W → ConversionJob × W
  finish job target (err e, w) = (fail (codes "converter did not run: " ++ e) job, w)
  finish job target (ok result, w) = (
    (if not (result.returncode == 0) || not (host.is_file target w)
        then fail (complaint result) job
        else record job { status = JobStatus.done; output_path = some target }),
    w,
  )

  -- What `_convert_one` comes to: the exception that it raises, if it raises one, and the job.
  abbrev pub Attempt : Type 0
  Attempt = Option Text × ConversionJob × W

  -- After the call of `mkdir`, which stands before the job is marked and outside the `try`.
  unfoldable pub start : ConversionJob → Text → Option Text × W → Attempt
  start job source (some e, w) = (some e, job, w)
  start job source (none, w) =
      let (ended, w') =
        finish (record job { status = JobStatus.working }) (dest job source)
          (host.run (command job source) w) in
      (none, ended, w')

  -- With the size of the source, which `stat` returns or raises.
  unfoldable pub sized : ConversionJob → Text → Result Text ℕ → W → Attempt
  unfolding start
  sized job source (err e) w = (some e, job, w)
  sized job source (ok n) w =
      if ltb max_source_bytes n
      then (none, fail (codes "source exceeds the disk-guard size cap") job, w)
      else start job source (host.mkdir out_dir w)

  unfoldable pub convert_file : ConversionJob → Option File → W → Attempt
  unfolding sized
  convert_file job none w = (none, fail (codes "source file row missing") job, w)
  convert_file job (some file_row) w =
      if not (host.is_file file_row.path w)
      then (none, fail (codes "source file not found: " ++ file_row.path) job, w)
      else sized job file_row.path (host.size file_row.path w) w

  -- `_convert_one`
  unfoldable pub convert_one : List File → ConversionJob → W → Attempt
  unfolding convert_file
  convert_one files job w = convert_file job (get_row file_id job.file_id files) w

  -- The rows, the counters or the exception, the world.
  abbrev pub Conversions : Type 0
  Conversions = Session × Result Text (ℕ × ℕ) × W

  unfoldable pub write_job : ConversionJob → Session → Session
  write_job job s = record s { jobs = update_row job_id job.id (λ row. job) s.jobs }

  -- What the loop does with a job that was run.
  unfoldable pub tally : ℕ × ℕ → Session → Attempt → Conversions
  unfolding write_job
  tally (done, failures) s (some e, job, w) = (write_job job s, err e, w)
  tally (done, failures) s (none, job, w) =
      (write_job job s, ok (if is_done job then (suc done, failures) else (done, suc failures)), w)

  -- The body of the loop; an exception ends it.
  unfoldable pub run_job : ConversionJob → Conversions → Conversions
  unfolding tally convert_one
  run_job job (s, err e, w) = (s, err e, w)
  run_job job (s, ok counts, w) = tally counts s (convert_one s.files job w)

  unfoldable pub run_jobs : List ConversionJob → Conversions → Conversions
  unfolding run_job
  run_jobs [] state = state
  run_jobs (job ∷ jobs) state = run_jobs jobs (run_job job state)

  unfoldable pub process_conversions : Session → W → Conversions
  unfolding run_jobs
  process_conversions s w = run_jobs (select is_queued s.jobs) (s, ok (0, 0), w)
