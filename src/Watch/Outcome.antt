-- ===== src/Watch/Outcome.antt =====
-- src/libarr/tasks/download_watch.py: the items of the queue after `process_queue`.
use libarr.Prelude.{
  not, ◌&&◌, chain-returned, ok_inj, get_row-none, ℕ, Text, ◌≡◌, refl, subst, ◌∙◌, ◌≢◌, ◌⊎◌, inl,
  inr, true, false, Option, some, List, [], ◌∷◌, arith, get_row, get_row-select, select,
  select-HasDistinctIds, HasDistinctIds, Result, ok, err, Bool-cases,
}
use libarr.Models.{
  DownloadClientRow, QueueItem, Session, Status, queued, downloading, importing, imported, failed,
}
use libarr.Clients.{Adapters, DownloadClient, build_client}
use libarr.Watch.{
  enabled_rows, Cycle, Hook, item_id, is_downloading, is_queued, is_grabbable, watch_built, watch,
  grab, start, run_queue, process_queue,
}
use libarr.Watch.Lifecycle.{
  Reach, here, next, sent, refused, Reach-trans, SameItem, SameItem-refl, SameItem-trans, finished,
  broken, lost, arrived,
}
use libarr.Watch.Hooks.{Later}
use libarr.Watch.Moves.{HookLaws}
use libarr.Watch.Grabbing.{IsGrabbed, grab-other, grab_self, grab-distinct}
use libarr.Watch.Progress.{watch_client-Later, watch_client-idle, watch_client-distinct}

Later-refl :
    {k : ℕ} {r : QueueItem} {table : List QueueItem}
    → get_row item_id k table ≡ some r
    → Later k r table
Later-refl {r} h = record { row = r; found = h; same = SameItem-refl r; status = here }

-- What the grab phase makes of a row.
IsGrabbed-Reach :
    (name : Text) (r r' : QueueItem)
    → r.status ≡ queued
    → IsGrabbed name r r'
    → SameItem r r' × Reach r.status r'.status
IsGrabbed-Reach name r r' e (inl (d, is)) = rw is (ground arith, rw e (next here sent))
IsGrabbed-Reach name r r' e (inr (m, is)) = rw is (ground arith, rw e (next here refused))

is_queued→eq : (s : Status) → is_queued s ≡ true → s ≡ queued
is_queued→eq queued h = refl
is_queued→eq downloading h = cc
is_queued→eq importing h = cc
is_queued→eq imported h = cc
is_queued→eq failed h = cc

module _ {W : Type 0} (hook : Option (Hook W)) (law : HookLaws hook) where
  built-Later :
      (name : Text) (b : Result Text (DownloadClient W)) (k : ℕ) (r : QueueItem) (c : Cycle W)
      → HasDistinctIds item_id c.session.queue
      → get_row item_id k c.session.queue ≡ some r
      → Later k r (watch_built hook name b c).session.queue
        × HasDistinctIds item_id (watch_built hook name b c).session.queue
  unfolding watch_built
  built-Later name (err m) k r c d h = (Later-refl h, d)
  built-Later name (ok client) k r c d h = (
    watch_client-Later hook law name (client.list_items c.world) k r c d h,
    watch_client-distinct hook law name (client.list_items c.world) c d,
  )

  built-idle :
      (name : Text) (b : Result Text (DownloadClient W)) (k : ℕ) (r : QueueItem) (c : Cycle W)
      → HasDistinctIds item_id c.session.queue
      → get_row item_id k c.session.queue ≡ some r
      → is_downloading r.status ≡ false
      → get_row item_id k (watch_built hook name b c).session.queue ≡ some r
  unfolding watch_built
  built-idle name (err m) k r c d h idle = h
  built-idle name (ok client) k r c d h idle =
      watch_client-idle hook law name (client.list_items c.world) k r c d h idle

  module _ (adapters : Adapters W) where
    watch-Later :
        (rows : List DownloadClientRow) (k : ℕ) (r : QueueItem) (c : Cycle W)
        → HasDistinctIds item_id c.session.queue
        → get_row item_id k c.session.queue ≡ some r
        → Later k r (watch adapters hook rows c).session.queue
    unfolding watch
    watch-Later [] k r c d h = Later-refl h
    watch-Later (row ∷ rows) k r c d h =
        let (l, d') = built-Later row.name (build_client adapters row) k r c d h in
        let l' = watch-Later rows k l.row _ d' l.found in
        record {
          row = l'.row;
          found = l'.found;
          same = SameItem-trans l.same l'.same;
          status = Reach-trans l.status l'.status;
        }

    watch-idle :
        (rows : List DownloadClientRow) (k : ℕ) (r : QueueItem) (c : Cycle W)
        → HasDistinctIds item_id c.session.queue
        → get_row item_id k c.session.queue ≡ some r
        → is_downloading r.status ≡ false
        → get_row item_id k (watch adapters hook rows c).session.queue ≡ some r
    unfolding watch
    watch-idle [] k r c d h idle = h
    watch-idle (row ∷ rows) k r c d h idle =
        watch-idle rows k r _ (built-Later row.name (build_client adapters row) k r c d h).1
          (built-idle row.name (build_client adapters row) k r c d h idle) idle

    module _ (client : DownloadClient W) (s : Session) (w : W) (d : HasDistinctIds item_id s.queue)
        (k : ℕ) (r : QueueItem) (h : get_row item_id k s.queue ≡ some r) where
      abbrev grabbed_state : Cycle W
      grabbed_state = grab client (select is_grabbable s.queue) (start adapters s w)

      grab-unselected :
          is_grabbable r ≡ false → get_row item_id k grabbed_state.session.queue ≡ some r
      grab-unselected no_grab =
          grab-other client (select is_grabbable s.queue) k (start adapters s w) (
            get_row-none item_id k _
              (get_row-select item_id is_grabbable k s.queue d ∙ rw (h, no_grab)))
          ∙ h

      grab-selected :
          is_grabbable r ≡ true
          → (r' : QueueItem) × (get_row item_id k grabbed_state.session.queue ≡ some r')
            × IsGrabbed client.name r r'
      grab-selected yes_grab =
          grab_self client (select is_grabbable s.queue) k r r (start adapters s w)
            (select-HasDistinctIds item_id is_grabbable s.queue d)
            (get_row-select item_id is_grabbable k s.queue d ∙ rw (h, yes_grab)) h

      grab-Later : Later k r grabbed_state.session.queue
      grab-Later = elim (Bool-cases (is_grabbable r)) [
        | inr other ↦ Later-refl (grab-unselected other)
        | inl chosen ↦
            let (r', found, is) = grab-selected chosen in
            let (same, path) =
              IsGrabbed-Reach client.name r r' (is_queued→eq r.status (ground arith)) is in
            record { row = r'; found = found; same = same; status = path }
      ]

Reach-ne-queued : {s t : Status} → Reach s t → s ≢ queued → t ≢ queued
Reach-ne-queued here ne = ne
Reach-ne-queued (next r sent) ne = λ e. cc
Reach-ne-queued (next r refused) ne = λ e. cc
Reach-ne-queued (next r lost) ne = λ e. cc
Reach-ne-queued (next r arrived) ne = λ e. cc
Reach-ne-queued (next r finished) ne = λ e. cc
Reach-ne-queued (next r broken) ne = λ e. cc

IsGrabbed-ne-queued : (name : Text) (r r' : QueueItem) → IsGrabbed name r r' → r'.status ≢ queued
IsGrabbed-ne-queued name r r' (inl (d, is)) = rw is (λ e. cc)
IsGrabbed-ne-queued name r r' (inr (m, is)) = rw is (λ e. cc)

module _ {W : Type 0} (adapters : Adapters W) (hook : Option (Hook W)) (s : Session) (w : W) where
  -- A cycle that returns found no enabled client, or ran both phases.
  run_queue-cases :
      (rows : List DownloadClientRow) (c : Cycle W)
      → run_queue adapters hook rows s w ≡ ok c
      → (start adapters s w ≡ c) × (rows ≡ [])
        ⊎ ((client : DownloadClient W) × (watch adapters hook rows
                (grab client (select is_grabbable s.queue) (start adapters s w))
              ≡ c))
  unfolding run_queue
  run_queue-cases [] c e = inl (ok_inj e, refl)
  run_queue-cases (row ∷ rows) c e =
      let (client, built, ran) = chain-returned (build_client adapters row) _ e in
      inr (client, ok_inj ran)

  module _ (law : HookLaws hook) (d : HasDistinctIds item_id s.queue) (k : ℕ) (r : QueueItem)
      (h : get_row item_id k s.queue ≡ some r) (rows : List DownloadClientRow) where
    run_queue-Later :
        (c : Cycle W) → run_queue adapters hook rows s w ≡ ok c → Later k r c.session.queue
    run_queue-Later c e = elim (run_queue-cases rows c e) [
      | inl (same, _) ↦ subst (λ (x : Cycle W). Later k r x.session.queue) same (Later-refl h)
      | inr (client, ran) ↦
          let l = grab-Later hook law adapters client s w d k r h in
          let l' =
            watch-Later hook law adapters rows k l.row
              (grab client (select is_grabbable s.queue) (start adapters s w))
              (grab-distinct client _ (start adapters s w) d) l.found in
          subst (λ (x : Cycle W). Later k r x.session.queue) ran
            (record {
              row = l'.row;
              found = l'.found;
              same = SameItem-trans l.same l'.same;
              status = Reach-trans l.status l'.status;
            })
    ]

    run_queue-idle :
        (c : Cycle W)
        → run_queue adapters hook rows s w ≡ ok c
        → is_grabbable r ≡ false
        → is_downloading r.status ≡ false
        → get_row item_id k c.session.queue ≡ some r
    run_queue-idle c e no_grab idle = elim (run_queue-cases rows c e) [
      | inl (same, _) ↦ subst (λ (x : Cycle W). get_row item_id k x.session.queue ≡ some r) same h
      | inr (client, ran) ↦
          subst (λ (x : Cycle W). get_row item_id k x.session.queue ≡ some r) ran
            (watch-idle hook law adapters rows k r _ (grab-distinct client _ (start adapters s w) d)
              (grab-unselected hook law adapters client s w d k r h no_grab) idle)
    ]

    run_queue-leaves_queued :
        (c : Cycle W)
        → run_queue adapters hook rows s w ≡ ok c
        → rows ≢ []
        → is_grabbable r ≡ true
        → (r' : QueueItem) × (get_row item_id k c.session.queue ≡ some r') × (r'.status ≢ queued)
    run_queue-leaves_queued c e some_client yes_grab = elim (run_queue-cases rows c e) [
      | inl (_, no_client) ↦ absurd (some_client no_client)
      | inr (client, ran) ↦
          let (r', found, is) = grab-selected hook law adapters client s w d k r h yes_grab in
          let l =
            watch-Later hook law adapters rows k r' _
              (grab-distinct client _ (start adapters s w) d) found in
          (
            l.row,
            subst (λ (x : Cycle W). get_row item_id k x.session.queue ≡ some l.row) ran l.found,
            Reach-ne-queued l.status (IsGrabbed-ne-queued client.name r r' is),
          )
    ]

module _ {W : Type 0} (adapters : Adapters W) (hook : Option (Hook W)) (law : HookLaws hook)
    (s : Session) (w : W) (c : Cycle W) (ran : process_queue adapters hook s w ≡ ok c)
    (d : HasDistinctIds item_id s.queue) (k : ℕ) (r : QueueItem)
    (h : get_row item_id k s.queue ≡ some r) where
  -- Where the cycle returns and the import hook keeps to its own item, every item of the queue is
  -- still there, is the same download for the same book, and its status is one that the old status
  -- leads to along the arrows of `Step`.
  pub process_queue-Later : Later k r c.session.queue
  unfolding process_queue
  process_queue-Later = run_queue-Later adapters hook s w law d k r h (enabled_rows s) c ran

  -- Where the cycle returns and the import hook keeps to its own item, an item that is not
  -- downloading, and is manual or not queued, has every column unchanged: manual bookmarks are never
  -- pushed to a client, and an item that is imported or failed stays so.
  pub process_queue-idle :
      (is_queued r.status && not r.manual) ≡ false
      → is_downloading r.status ≡ false
      → get_row item_id k c.session.queue ≡ some r
  unfolding process_queue
  process_queue-idle = run_queue-idle adapters hook s w law d k r h (enabled_rows s) c ran

  -- Where the cycle returns, the import hook keeps to its own item and some client is enabled, a
  -- queued item that is not manual is no longer queued after the cycle.
  pub process_queue-leaves_queued :
      enabled_rows s ≢ []
      → (is_queued r.status && not r.manual) ≡ true
      → (r' : QueueItem) × (get_row item_id k c.session.queue ≡ some r') × (r'.status ≢ queued)
  unfolding process_queue
  process_queue-leaves_queued =
      run_queue-leaves_queued adapters hook s w law d k r h (enabled_rows s) c ran
