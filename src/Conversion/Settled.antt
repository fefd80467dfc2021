-- ===== src/Conversion/Settled.antt =====
-- src/libarr/conversion.py: how `_convert_one` leaves its job, and what the loop leaves alone.
use libarr.Prelude.{
  ℕ, Text, ◌≡◌, refl, ◌⊎◌, true, none, some, List, [], ◌∷◌, select, ok, err, is_some, ◌∙◌,
}
use libarr.Models.{ConversionJob, JobStatus, Session}
use libarr.Conversion.{
  Host, Attempt, Conversions, is_done, is_queued, convert_one, write_job, tally, run_job, run_jobs,
  process_conversions,
}

module _ {W : Type 0} (host : Host W) (lower : Text → Text) (out_dir : Text) where
  -- A job is done, and its output is a file, or failed, with its error.
  abbrev pub IsSettled : ConversionJob → W → Type 0
  IsSettled job w =
      ((job.status ≡ JobStatus.done)
        × (target : Text) × (job.output_path ≡ some target)
        × (host.is_file target w ≡ true))
      ⊎ ((job.status ≡ JobStatus.failed) × (is_some job.error ≡ true))

  -- `_convert_one` returned with the job settled, or raised before it wrote to the job.
  abbrev pub IsAttempt : ConversionJob → Attempt host lower out_dir → Type 0
  IsAttempt job r = ((r.0 ≡ none) × IsSettled r.1 r.2) ⊎ ((is_some r.0 ≡ true) × (r.1 ≡ job))

  tally-queue :
      (counts : ℕ × ℕ) (s : Session) (r : Attempt host lower out_dir)
      → (tally host lower out_dir counts s r).0.queue ≡ s.queue
  unfolding tally write_job
  tally-queue counts s (none, job, w) = refl
  tally-queue counts s (some e, job, w) = refl

  run_job-queue :
      (job : ConversionJob) (state : Conversions host lower out_dir)
      → (run_job host lower out_dir job state).0.queue ≡ state.0.queue
  unfolding run_job
  run_job-queue job (s, err e, w) = refl
  run_job-queue job (s, ok counts, w) =
      tally-queue counts s (convert_one host lower out_dir s.files job w)

  run_jobs-queue :
      (jobs : List ConversionJob) (state : Conversions host lower out_dir)
      → (run_jobs host lower out_dir jobs state).0.queue ≡ state.0.queue
  unfolding run_jobs
  run_jobs-queue [] state = refl
  run_jobs-queue (job ∷ jobs) state =
      run_jobs-queue jobs (run_job host lower out_dir job state) ∙ run_job-queue job state

  pub process_conversions-queue :
      (s : Session) (w : W) → (process_conversions host lower out_dir s w).0.queue ≡ s.queue
  unfolding process_conversions
  process_conversions-queue s w = run_jobs-queue (select is_queued s.jobs) (s, ok (0, 0), w)
