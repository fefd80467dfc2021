-- ===== src/Calendar.antt =====
-- src/libarr/calendar.py: the recent works of the monitored authors.
use libarr.Prelude.{
  ℕ, ◌-◌, Text, codes, text_eq, or_empty, truthy, Bool, ◌&&◌, ◌||◌, Option, none, some, List, [],
  ◌∷◌, ◌++◌, select, Result, ok, err, if◌then◌else◌, ◌==◌, ltb,
}
use libarr.Prelude.{sort_by, text_lt}
use libarr.Models.{Author, Session}
use libarr.Indexers.{Release}

pub record Event : Type 0 where
  pub title : Text
  pub author : Text
  pub year : ℕ
  pub work_key : Text

abbrev author_lt : Author → Author → Bool
author_lt a b = text_lt a.name b.name

unfoldable pub monitored_authors : Session → List Author
unfolding sort_by text_lt
monitored_authors s = sort_by author_lt (select (λ a. a.monitored) s.authors)

-- An event of a release whose year is known and not before the cutoff.
unfoldable pub event_in : ℕ → Author → Release → Option ℕ → List Event
event_in cutoff author release none = []
event_in cutoff author release (some year) =
    if ltb year cutoff
    then []
    else record {
      title = release.title;
      author = if truthy release.author then or_empty release.author else author.name;
      year = year;
      work_key = release.guid;
    }
      ∷ []

unfoldable pub events_of : ℕ → Author → List Release → List Event
unfolding event_in
events_of cutoff author [] = []
events_of cutoff author (release ∷ more) =
    event_in cutoff author release release.year ++ events_of cutoff author more

-- `reverse=True` sorts by the greater key first, and keeps the order of equal ones.
abbrev event_gt : Event → Event → Bool
event_gt a b =
    ltb b.year a.year
    || (a.year == b.year
        && (text_lt b.author a.author || (text_eq a.author b.author && text_lt b.title a.title)))

-- `search` is that of Open Library's indexer; an author for whom it fails has no events.
module _ {W : Type 0} (search : Text → W → Result Text (List Release) × W) where
  unfoldable pub author_events : ℕ → List Author → W → List Event × W
  unfolding events_of
  author_events cutoff [] w = ([], w)
  author_events cutoff (author ∷ authors) w =
      let (answer, w') = search (codes "author:" ++ author.name) w in
      let (more, w'') = author_events cutoff authors w' in
      (elim answer [ err e ↦ more | ok releases ↦ events_of cutoff author releases ++ more ], w'')

  -- `this_year` is that of the clock.
  unfoldable pub calendar_events : Session → ℕ → ℕ → W → List Event × W
  unfolding author_events monitored_authors sort_by text_lt
  calendar_events s this_year years_back w =
      let (events, w') = author_events (this_year - years_back) (monitored_authors s) w in
      (sort_by event_gt events, w')
