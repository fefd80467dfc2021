-- ===== src/Works/Queue.antt =====
-- src/libarr/discovery.py: what the saved lists leave of the queue.
use libarr.Prelude.{
  Result, ok, err, ℕ, zero, suc, ◌+◌, Text, truthy, ◌≡◌, refl, ◌∙◌, inl, inr, Bool, Option, none,
  some, List, [], ◌∷◌, select, Bool-cases,
}
use libarr.Prelude.{if-ind}
use libarr.Python.{Unicode}
use libarr.Models.{Author, DiscoveryList, Session}
use libarr.History.{record_event}
use libarr.Works.{
  DiscoveryWork, Key, Query, Providers, author_named, author_for, add_book, import_work,
  import_each, tell_added, import_works, or_google, search_works, open_library, existing_keys,
  has_key, work_key,
}
use libarr.Works.Lists.{Lists, run_list, run_lists, evaluate_lists}

module _ (u : Unicode) where
  author_named-queue :
      (name : Text) (found : Option Author) (s : Session)
      → (author_named u name found s).1.queue ≡ s.queue
  unfolding author_named
  author_named-queue name none s = refl
  author_named-queue name (some a) s = refl

  author_for-queue : (name : Option Text) (s : Session) → (author_for u name s).1.queue ≡ s.queue
  unfolding author_for
  author_for-queue none s = refl
  author_for-queue (some []) s = refl
  author_for-queue (some (c ∷ t)) s = author_named-queue (c ∷ t) _ s

  import_work-queue :
      (monitored : Bool) (work : DiscoveryWork) (s : Session) (ks : List Key) (n : ℕ)
      → (import_work u monitored work (s, ks, n)).0.queue ≡ s.queue
  unfolding import_work add_book
  import_work-queue monitored work s ks n =
      if-ind (λ (r : Session × List Key × ℕ). r.0.queue ≡ s.queue) (has_key (work_key u work) ks)
        {no_ = (
          add_book u work monitored (author_for u work.author s),
          work_key u work ∷ ks,
          n + 1,
        )}
        refl (author_for-queue work.author s)

  import_each-queue :
      (monitored : Bool) (works : List DiscoveryWork) (state : Session × List Key × ℕ)
      → (import_each u monitored works state).0.queue ≡ state.0.queue
  unfolding import_each
  import_each-queue monitored [] state = refl
  import_each-queue monitored (work ∷ works) (s, ks, n) =
      import_each-queue monitored works (import_work u monitored work (s, ks, n))
      ∙ import_work-queue monitored work s ks n

  tell_added-queue :
      (works : List DiscoveryWork) (n : ℕ) (s : Session) → (tell_added u works n s).queue ≡ s.queue
  unfolding tell_added record_event
  tell_added-queue works zero s = refl
  tell_added-queue works (suc n) s = refl

  import_works-queue :
      (works : List DiscoveryWork) (monitored : Bool) (s : Session)
      → (import_works u works monitored s).1.queue ≡ s.queue
  unfolding import_works
  import_works-queue works monitored s =
      tell_added-queue works _ _ ∙ import_each-queue monitored works (s, existing_keys u s, 0)

  module _ {W : Type 0} (providers : Providers W) where
    or_google-queue :
        (query : Query) (s : Session) (found : List DiscoveryWork × W)
        → (or_google u providers query s found).1.queue ≡ s.queue
    unfolding or_google
    or_google-queue query s (work ∷ works, w) = refl
    or_google-queue query s ([], w) = elim (Bool-cases (truthy query.q)) [
      | inl e ↦ rw e refl
      | inr e ↦ rw e refl
    ]

    search_works-queue :
        (query : Query) (limit : ℕ) (s : Session) (w : W)
        → (search_works u providers query limit s w).1.queue ≡ s.queue
    unfolding search_works
    search_works-queue query limit s w =
        or_google-queue query s (open_library u providers query limit w)

    module _ (now : ℕ) (loads : Text → Option (Result Text Query)) where
      run_list-queue :
          (row : DiscoveryList) (query : Option (Result Text Query))
          (state : Lists u now loads providers)
          → (run_list u now loads providers row query state).0.queue ≡ state.0.queue
      unfolding run_list
      run_list-queue row query (s, err e, w) = refl
      run_list-queue row none (s, ok stats, w) = refl
      run_list-queue row (some (err e)) (s, ok stats, w) = refl
      run_list-queue row (some (ok query)) (s, ok stats, w) =
          let found = search_works u providers query row.max_per_run s w in
          import_works-queue found.0 row.auto_monitor found.1
          ∙ search_works-queue query row.max_per_run s w

      run_lists-queue :
          (rows : List DiscoveryList) (state : Lists u now loads providers)
          → (run_lists u now loads providers rows state).0.queue ≡ state.0.queue
      unfolding run_lists
      run_lists-queue [] state = refl
      run_lists-queue (row ∷ rows) state =
          run_lists-queue rows (run_list u now loads providers row (loads row.query) state)
          ∙ run_list-queue row (loads row.query) state

      pub evaluate_lists-queue :
          (s : Session) (w : W) → (evaluate_lists u now loads providers s w).0.queue ≡ s.queue
      unfolding evaluate_lists
      evaluate_lists-queue s w =
          run_lists-queue (select (λ r. r.enabled) s.discovery_lists) (s, ok [], w)
