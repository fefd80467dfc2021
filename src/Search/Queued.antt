-- ===== src/Search/Queued.antt =====
-- src/libarr/tasks/search.py: what `search_now` queues.
use libarr.Prelude.{
  ℕ, Text, ◌≡◌, refl, ap, ◌∙◌, ◌⊎◌, inl, inr, Bool, true, false, Option, none, some, List, [], ◌∷◌,
  ◌++◌, select,
}
use libarr.Prelude.{if-ind}
use libarr.Python.{Unicode}
use libarr.Models.{Book, QueueItem, Session}
use libarr.History.{record_event}
use libarr.Notify.{Settings}
use libarr.Indexers.Registry.{IndexerAdapters}
use libarr.Candidates.{Candidate}
use libarr.Decision.{pick_best, is_eligible, fill_score}
use libarr.Decision.Best.{IsFilledOf, pick_best-greatest}
use libarr.Quality.{default_profile}
use libarr.Queue.{find_guid, new_item}
use libarr.Queue.Guids.{IsTable, append-IsTable}
use libarr.Search.{SearchResult, queue_winner, queue_best, search_now, search_rows, search_query}

module _ (u : Unicode) where
  -- The item of a winner that the default profile allows, or that is a manual link.
  abbrev pub IsItemOf : Book → Candidate → Session → QueueItem → Type 0
  IsItemOf book c s q =
      (is_eligible u default_profile c ≡ true)
      × (q ≡ new_item book.id c.release c.release.indexer_name c.fmt c.manual s)

  -- The queue as it was, or with one more item, which the result tells of.
  abbrev pub IsOneMore : Book → Session → SearchResult → Session → Type 0
  IsOneMore book s r s' =
      ((r.queued ≡ false) × (s'.queue ≡ s.queue))
      ⊎ ((c : Candidate) × (q : QueueItem) × (r.queued ≡ true)
          × (r.winner ≡ some q.title)
          × (r.manual ≡ q.manual)
          × (s'.queue ≡ s.queue ++ q ∷ [])
          × IsItemOf book c s q)

  fill_score-is_eligible :
      (c : Candidate)
      → is_eligible u default_profile (fill_score u default_profile c)
        ≡ is_eligible u default_profile c
  unfolding fill_score is_eligible
  fill_score-is_eligible c =
      if-ind (λ (d : Candidate). is_eligible u default_profile d ≡ is_eligible u default_profile c)
        _ refl refl

  IsFilledOf-is_eligible :
      (cs : List Candidate) (m : Candidate)
      → IsFilledOf u default_profile m cs
      → is_eligible u default_profile m ≡ true
  IsFilledOf-is_eligible [] m h = absurd h
  IsFilledOf-is_eligible (c ∷ cs) m (inl (yes_, e)) =
      ap (is_eligible u default_profile) e ∙ (fill_score-is_eligible c ∙ yes_)
  IsFilledOf-is_eligible (c ∷ cs) m (inr h) = IsFilledOf-is_eligible cs m h

  module _ (now : ℕ) {W : Type 0} (settings : Settings)
      (send : List Text → Text → Text → W → Bool × W) (tells : Bool) where
    queue_winner-IsOneMore :
        (book : Book) (c : Candidate) (found : Option QueueItem) (s : Session) (w : W)
        → IsTable s.queue
        → is_eligible u default_profile c ≡ true
        → find_guid c.release.guid s ≡ found
        → IsTable (queue_winner u now settings send tells book c found s w).1.queue
          × IsOneMore book s
              (queue_winner u now settings send tells book c found s w).0
              (queue_winner u now settings send tells book c found s w).1
    unfolding queue_winner record_event
    queue_winner-IsOneMore book c (some r) s w table good e = (table, inl (refl, refl))
    queue_winner-IsOneMore book c none s w table good e = (
      append-IsTable s (new_item book.id c.release c.release.indexer_name c.fmt c.manual s) table
          refl e,
      inr (
        c,
        new_item book.id c.release c.release.indexer_name c.fmt c.manual s,
        refl,
        refl,
        refl,
        refl,
        (good, refl),
      ),
    )

    queue_best-IsOneMore :
        (book : Book) (cs : List Candidate) (best : Option Candidate) (s : Session) (w : W)
        → IsTable s.queue
        → pick_best u default_profile cs ≡ best
        → IsTable (queue_best u now settings send tells book best s w).1.queue
          × IsOneMore book s
              (queue_best u now settings send tells book best s w).0
              (queue_best u now settings send tells book best s w).1
    unfolding queue_best
    queue_best-IsOneMore book cs none s w table e = (table, inl (refl, refl))
    queue_best-IsOneMore book cs (some c) s w table e =
        queue_winner-IsOneMore book c (find_guid c.release.guid s) s w table
          (IsFilledOf-is_eligible cs c (pick_best-greatest u default_profile cs c e).0) refl

    -- Where the queue has one item for each id and for each release, it has after a search, which
    -- leaves it as it was, and says so, or adds one queued item for the book at its end: that of a
    -- candidate whose format the default profile allows or that is a manual link.
    pub search_now-IsOneMore :
        (adapters : IndexerAdapters W) (s : Session) (book : Book) (w : W)
        → IsTable s.queue
        → IsTable (search_now u now settings send tells adapters s book w).1.queue
          × IsOneMore book s
              (search_now u now settings send tells adapters s book w).0
              (search_now u now settings send tells adapters s book w).1
    unfolding search_now
    search_now-IsOneMore adapters s book w table =
        let (cs, w') =
          search_rows u now adapters (search_query u now s book)
            (select (λ r. r.enabled) s.indexers) ([], w) in
        queue_best-IsOneMore book cs (pick_best u default_profile cs) s w' table refl
