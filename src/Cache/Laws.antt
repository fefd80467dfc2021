-- ===== src/Cache/Laws.antt =====
-- src/libarr/metadata/cache.py: what `cached_fetch` serves.
use libarr.Prelude.{
  ℕ, ◌+◌, ◌<◌, Text, text_eq_refl, ◌≡◌, refl, inl, inr, true, none, some, List, [], ◌∷◌, arith,
  find, Result, ok, err, Bool-cases,
}
use libarr.Models.{MetadataCache, Session}
use libarr.Cache.{
  Key, Json, has_key, new_row, store, lookup, is_fresh, fetched, fetch_or_serve, cached_fetch,
}

store-find :
    (k : Key) (payload_json : Text) (now : ℕ) (rows : List MetadataCache)
    → (row : MetadataCache) × (find (has_key k) (store k payload_json now rows) ≡ some row)
      × (row.payload_json ≡ payload_json)
      × (row.fetched_at ≡ now)
unfolding store
store-find k payload_json now [] = (
  new_row k payload_json now,
  rw (text_eq_refl k.provider, text_eq_refl k.kind, text_eq_refl k.key) refl,
  refl,
  refl,
)
store-find k payload_json now (row ∷ rows) = elim (Bool-cases (has_key k row)) [
  | inl same ↦ (
    record row { payload_json = payload_json; fetched_at = now },
    rw (same, same) refl,
    refl,
    refl,
  )
  | inr other ↦
      let (found, h, p, t) = store-find k payload_json now rows in
      (found, rw (other, other) h, p, t)
]

module _ {W P : Type 0} (json : Json P) (k : Key) (fetcher : W → Result Text P × W) (ttl now : ℕ)
    (s : Session) (w : W) where
  fetched-of_row :
      (row : MetadataCache) (r : Result Text P × W)
      → (p : P) × ((fetched json k now (some row) s r).0 ≡ ok p)
  unfolding fetched
  fetched-of_row row (ok payload, v) = (payload, refl)
  fetched-of_row row (err e, v) = (json.loads row.payload_json, refl)

  -- Where the cache has a row for the key, the call never fails, whatever the provider does.
  cached_fetch-of_row :
      (row : MetadataCache)
      → lookup k s ≡ some row
      → (p : P) × ((cached_fetch json k fetcher ttl now s w).0 ≡ ok p)
  unfolding cached_fetch fetch_or_serve
  cached_fetch-of_row row found = rw found (elim (Bool-cases (is_fresh ttl now row)) [
    | inl fresh ↦ (json.loads row.payload_json, rw fresh refl)
    | inr old ↦ let (p, h) = fetched-of_row row (fetcher w) in (p, rw old h)
  ])

  -- What a provider returned for a key without a row is served again at every time before its time
  -- to live is over, without a call of the provider, if a payload is read back as it was written.
  pub cached_fetch-twice :
      (payload : P) (v : W) (other : W → Result Text P × W) (later : ℕ) (w' : W)
      → ((p : P) → json.loads (json.dumps p) ≡ p)
      → lookup k s ≡ none
      → fetcher w ≡ (ok payload, v)
      → later < now + ttl
      → cached_fetch json k other ttl later (cached_fetch json k fetcher ttl now s w).1.0 w'
        ≡ (ok payload, ((cached_fetch json k fetcher ttl now s w).1.0, w'))
  unfolding cached_fetch fetch_or_serve fetched lookup
  cached_fetch-twice payload v other later w' law missing call soon =
      let (row, found, same, at_) = store-find k (json.dumps payload) now s.cache in
      let fresh : is_fresh ttl later row ≡ true = ground (arith, at_, soon) in
      rw (missing, call, found, fresh, same, law payload) refl
