-- ===== src/Scheduler.antt =====
-- src/libarr/scheduler.py: one monitoring cycle, of the four jobs one after the other.
--
-- A job that raises leaves "error" in the statistics, and the rows as it had them.
pub mod Idle
mod Tests
use libarr.Prelude.{ℕ, Text, Option, none, some, List, Result, ok, err}
use libarr.Python.{Unicode}
use libarr.Models.{Session}
use libarr.Notify.{Settings}
use libarr.Clients.{Adapters}
use libarr.Indexers.Registry.{IndexerAdapters}
use libarr.Import.Disk.{Files}
use libarr.Import.{default_import_hook}
use libarr.Watch.{Stats, Cycle, process_queue}
use libarr.Rss.{IndexerStat, rss_sync}
use libarr.Works.{Query, Providers}
use libarr.Works.Lists.{ListStat, evaluate_lists}
use libarr.Conversion.{Host, process_conversions}

-- What the jobs use: the services, the clock, the settings.
pub record Services (W : Type 0) : Type 0 where
  pub unicode : Unicode
  pub settings : Settings
  pub now : ℕ
  pub fts : List Text → Session → List ℕ
  pub indexers : IndexerAdapters W
  pub clients : Adapters W
  pub files : Files W
  pub providers : Providers W
  -- The JSON of a saved list, as in Works/Lists.
  pub loads : Text → Option (Result Text Query)
  pub host : Host W

-- `none` for "error".
pub record CycleStats : Type 0 where
  pub rss : Option (List (Text × IndexerStat))
  pub queue : Option Stats
  pub discovery : Option (List (Text × ListStat))
  pub conversions : Option (ℕ × ℕ)

-- What a job leaves in the statistics.
abbrev pub stat_of : {A : Type 0} → Result Text A → Option A
stat_of (ok a) = some a
stat_of (err e) = none

module _ {W : Type 0} (env : Services W) where
  -- A `process_queue` that raises has changed no row.
  unfoldable pub queue_job : Result Text (Cycle W) → Session → W → Option Stats × Session × W
  queue_job (err m) s w = (none, s, w)
  queue_job (ok c) s w = (some c.stats, c.session, c.world)

  unfoldable pub run_cycles : Session → W → CycleStats × Session × W
  unfolding queue_job
  run_cycles s w =
      let (s1, rss, w1) = rss_sync env.unicode env.fts env.indexers s w in
      let (queue, s2, w2) =
        queue_job
          (process_queue env.clients (some (default_import_hook env.unicode env.files env.settings))
            s1 w1)
          s1 w1 in
      let (s3, discovery, w3) = evaluate_lists env.unicode env.now env.loads env.providers s2 w2 in
      let (s4, conversions, w4) =
        process_conversions env.host env.unicode.lower env.settings.conversion_out_dir s3 w3 in
      (
        record {
          rss = stat_of rss;
          queue = queue;
          discovery = stat_of discovery;
          conversions = stat_of conversions;
        },
        s4,
        w4,
      )
