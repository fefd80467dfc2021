-- ===== src/Works/Lists.antt =====
-- src/libarr/discovery.py: the saved lists are run.
--
-- The JSON of a query is a parameter, and so is the time. `none` is text that is no JSON, and an
-- error the `TypeError` of `**query`: JSON that is no object, or that has a key which `search_works`
-- does not take. The values are of the types that `search_works` is annotated with.
use libarr.Prelude.{
  ℕ, Text, text_eq, Option, none, some, List, [], ◌∷◌, update_row, select, Result, ok, err,
  if◌then◌else◌,
}
use libarr.Python.{Unicode}
use libarr.Models.{DiscoveryList, Session}
use libarr.Discovery.{list_id}
use libarr.Works.{Query, Providers, search_works, import_works}

-- The value that the statistics hold for a list.
pub data ListStat : Type 0 where
  counted : ℕ → ListStat
  failed : ListStat

-- `stats[name] = value`
unfoldable pub put_list_stat : Text → ListStat → List (Text × ListStat) → List (Text × ListStat)
unfolding text_eq
put_list_stat name stat [] = (name, stat) ∷ []
put_list_stat name stat ((n, v) ∷ more) =
    let rest = put_list_stat name stat more in
    if text_eq n name then (name, stat) ∷ more else (n, v) ∷ rest

abbrev pub set_run : ℕ → DiscoveryList → DiscoveryList
set_run now row = record row { last_run_at = some now }

module _ (u : Unicode) (now : ℕ) (loads : Text → Option (Result Text Query)) {W : Type 0}
    (providers : Providers W) where
  -- The rows, the statistics or the exception, the providers.
  abbrev pub Lists : Type 0
  Lists = Session × Result Text (List (Text × ListStat)) × W

  -- The body of the loop; an exception ends it.
  unfoldable pub run_list : DiscoveryList → Option (Result Text Query) → Lists → Lists
  unfolding put_list_stat search_works import_works
  run_list row query (s, err e, w) = (s, err e, w)
  run_list row none (s, ok stats, w) = (s, ok (put_list_stat row.name failed stats), w)
  run_list row (some (err e)) (s, ok stats, w) = (s, err e, w)
  run_list row (some (ok query)) (s, ok stats, w) =
      let (works, s', w') = search_works u providers query row.max_per_run s w in
      let (added, s'') = import_works u works row.auto_monitor s' in
      (
        record s'' {
          discovery_lists = update_row list_id row.id (set_run now) s''.discovery_lists;
        },
        ok (put_list_stat row.name (counted added) stats),
        w',
      )

  unfoldable pub run_lists : List DiscoveryList → Lists → Lists
  unfolding run_list
  run_lists [] state = state
  run_lists (row ∷ rows) state = run_lists rows (run_list row (loads row.query) state)

  unfoldable pub evaluate_lists : Session → W → Lists
  unfolding run_lists
  evaluate_lists s w = run_lists (select (λ r. r.enabled) s.discovery_lists) (s, ok [], w)
