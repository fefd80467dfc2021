-- ===== src/Cache.antt =====
-- src/libarr/metadata/cache.py: `cached_fetch`, a cache of provider payloads that serves an old one
-- where the provider fails.
pub mod Laws
mod Tests
use libarr.Prelude.{
  ℕ, ◌+◌, Text, text_eq, Bool, ◌&&◌, Option, none, some, List, [], ◌∷◌, find, Result, ok, err,
  if◌then◌else◌, ltb,
}
use libarr.Models.{MetadataCache, Session}

-- The key of a row.
pub record Key : Type 0 where
  pub provider : Text
  pub kind : Text
  pub key : Text

abbrev pub has_key : Key → MetadataCache → Bool
has_key k row =
    text_eq row.provider k.provider && (text_eq row.kind k.kind && text_eq row.key k.key)

-- `json.loads` and `json.dumps` on the payloads `P`.
pub record Json (P : Type 0) : Type 0 where
  pub loads : Text → P
  pub dumps : P → Text

abbrev pub new_row : Key → Text → ℕ → MetadataCache
new_row k payload_json now = record {
  provider = k.provider;
  kind = k.kind;
  key = k.key;
  payload_json = payload_json;
  fetched_at = now;
  etag = none;
}

-- The row with the key takes the payload and the time, or a new one is added.
unfoldable pub store : Key → Text → ℕ → List MetadataCache → List MetadataCache
store k payload_json now [] = new_row k payload_json now ∷ []
store k payload_json now (row ∷ rows) =
    if has_key k row
    then record row { payload_json = payload_json; fetched_at = now } ∷ rows
    else row ∷ store k payload_json now rows

unfoldable pub lookup : Key → Session → Option MetadataCache
lookup k s = find (has_key k) s.cache

-- `now - row.fetched_at < ttl`, in seconds.
abbrev pub is_fresh : ℕ → ℕ → MetadataCache → Bool
is_fresh ttl now row = ltb now (row.fetched_at + ttl)

-- `W` is the world of the fetcher; its error is the text of the exception.
module _ {W P : Type 0} (json : Json P) where
  unfoldable pub fetched :
      Key → ℕ → Option MetadataCache → Session → Result Text P × W → Result Text P × (Session × W)
  fetched k now row s (ok payload, w) =
      (ok payload, (record s { cache = store k (json.dumps payload) now s.cache }, w))
  fetched k now (some row) s (err e, w) = (ok (json.loads row.payload_json), (s, w))
  fetched k now none s (err e, w) = (err e, (s, w))

  unfoldable pub fetch_or_serve :
      Key
      → (W → Result Text P × W)
      → ℕ
      → ℕ
      → Option MetadataCache
      → Session
      → W
      → Result Text P × (Session × W)
  fetch_or_serve k fetcher ttl now none s w = fetched k now none s (fetcher w)
  fetch_or_serve k fetcher ttl now (some row) s w =
      if is_fresh ttl now row
      then (ok (json.loads row.payload_json), (s, w))
      else fetched k now (some row) s (fetcher w)

  unfoldable pub cached_fetch :
      Key → (W → Result Text P × W) → ℕ → ℕ → Session → W → Result Text P × (Session × W)
  cached_fetch k fetcher ttl now s w = fetch_or_serve k fetcher ttl now (lookup k s) s w
