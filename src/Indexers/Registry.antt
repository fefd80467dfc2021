-- ===== src/Indexers/Registry.antt =====
-- src/libarr/indexers/registry.py: the client of an indexer's row.
use libarr.Prelude.{ℕ, Text, codes, mem_text, List, [], ◌∷◌, ◌++◌, Result, ok, err, if◌then◌else◌}
use libarr.Models.{Indexer}
use libarr.Indexers.{Release}

-- What `recent` raises: an `IndexerError`, or something else, such as the `ValueError` of an answer
-- that is no JSON.
pub data Fault : Type 0 where
  indexer_error unexpected : Text → Fault

-- The adapter classes: what `search` and `recent` answer. `search` raises an `IndexerError` alone, as
-- indexers/base.py documents, which is its text. `W` is the state of the remote programs.
pub record IndexerAdapters (W : Type 0) : Type 0 where
  pub search : Indexer → Text → W → Result Text (List Release) × W
  pub recent : Indexer → ℕ → W → Result Fault (List Release) × W

pub record IndexerClient (W : Type 0) : Type 0 where
  pub name : Text
  pub search : Text → W → Result Text (List Release) × W
  pub recent : ℕ → W → Result Fault (List Release) × W

-- `SUPPORTED_KINDS`
unfoldable pub supported_kinds : List Text
unfolding codes
supported_kinds =
    codes "annasarchive" ∷ codes "gutenberg" ∷ codes "openlibrary" ∷ codes "torznab" ∷ []

unfoldable pub build_indexer :
    {W : Type 0} → IndexerAdapters W → Indexer → Result Text (IndexerClient W)
unfolding supported_kinds mem_text
build_indexer adapters row =
    if mem_text row.kind supported_kinds
    then ok (record { name = row.name; search = adapters.search row; recent = adapters.recent row })
    else err (codes "unknown indexer kind: " ++ row.kind)
