-- ===== src/Scheduler/Idle.antt =====
-- src/libarr/scheduler.py: what a monitoring cycle leaves of the queue.
use libarr.Prelude.{
  ℕ, Text, ◌≡◌, refl, ap, ◌∙◌, false, not, ◌&&◌, some, List, [], ◌∷◌, ◌++◌, arith, get_row, Result,
  ok, err,
}
use libarr.Models.{QueueItem, Session}
use libarr.Watch.{Cycle, item_id, process_queue, is_queued, is_downloading}
use libarr.Watch.Outcome.{process_queue-idle}
use libarr.Import.{default_import_hook}
use libarr.Import.Laws.{default_import_hook-HookLaw}
use libarr.Queue.Guids.{IsTable}
use libarr.Rss.{rss_sync}
use libarr.Rss.Added.{IsGrown, rss_sync-IsGrown}
use libarr.Works.Queue.{evaluate_lists-queue}
use libarr.Conversion.Settled.{process_conversions-queue}
use libarr.Scheduler.{Services, queue_job, run_cycles}

-- A row stays where new rows are added behind it.
get_row-extended :
    (k : ℕ) (rows new : List QueueItem) (r : QueueItem)
    → get_row item_id k rows ≡ some r
    → get_row item_id k (rows ++ new) ≡ some r
unfolding get_row
get_row-extended k [] new r h = cc
get_row-extended k (x ∷ rows) new r h = ground (arith, get_row-extended k rows new r)

-- An item that no client has and none is to get: a bookmark, or one that is imported or failed.
abbrev pub IsIdle : QueueItem → Type 0
IsIdle r = ((is_queued r.status && not r.manual) ≡ false) × (is_downloading r.status ≡ false)

module _ {W : Type 0} (env : Services W) (k : ℕ) (r : QueueItem) (idle : IsIdle r) where
  queue_job-idle :
      (ran : Result Text (Cycle W)) (s : Session) (w w' : W)
      → IsTable s.queue
      → get_row item_id k s.queue ≡ some r
      → process_queue env.clients
          (some (default_import_hook env.unicode env.files env.settings))
          s
          w
        ≡ ran
      → get_row item_id k (queue_job env ran s w').1.queue ≡ some r
  unfolding queue_job
  queue_job-idle (err m) s w w' table h e = h
  queue_job-idle (ok c) s w w' table h e =
      process_queue-idle env.clients (some (default_import_hook env.unicode env.files env.settings))
        (default_import_hook-HookLaw env.unicode env.files env.settings) s w c e table.0 k r h
        idle.0 idle.1

  -- Where the queue has one item for each id and for each release, a whole monitoring cycle (feeds,
  -- downloads with their imports, discovery, conversions) leaves every column of an item as it was
  -- that is not downloading, and is manual or not queued, also where any of the four jobs raises.
  pub run_cycles-idle :
      (s : Session) (w : W)
      → IsTable s.queue
      → get_row item_id k s.queue ≡ some r
      → get_row item_id k (run_cycles env s w).1.queue ≡ some r
  unfolding run_cycles
  run_cycles-idle s w table h =
      ap (get_row item_id k) (
        process_conversions-queue env.host env.unicode.lower env.settings.conversion_out_dir _ _
        ∙ evaluate_lists-queue env.unicode env.providers env.now env.loads _ _)
      ∙ queue_job-idle
          (process_queue env.clients (some (default_import_hook env.unicode env.files env.settings))
            fed.0 fed.2)
          fed.0 fed.2 fed.2 grown.0 found refl
    where
      fed : Session × Result Text (List (Text × libarr.Rss.IndexerStat)) × W
      fed = rss_sync env.unicode env.fts env.indexers s w

      grown : IsGrown s fed.0
      grown = rss_sync-IsGrown env.unicode env.fts env.indexers s w table

      found : get_row item_id k fed.0.queue ≡ some r
      found = ap (get_row item_id k) grown.1.2 ∙ get_row-extended k s.queue grown.1.1 r h
