-- ===== src/Cache/Tests.antt =====
-- Two calls of the cache.
use libarr.Prelude.{ℕ, ◌+◌, Text, codes, text_eq, ◌≡◌, refl, some, [], ◌∷◌, arith, Result, ok, err}
use libarr.Models.{Session}
use libarr.Samples.{empty_session}
use libarr.Cache.{Key, Json, new_row, lookup, fetched, fetch_or_serve, cached_fetch}
use libarr.Cache.Laws.{cached_fetch-twice}

-- A payload is its text, the world counts calls.
abbrev json : Json Text
json = record { loads = λ t. t; dumps = λ t. t }

abbrev work : Key
work = record { provider = codes "p"; kind = codes "work"; key = codes "k" }

abbrev answers : ℕ → Result Text Text × ℕ
answers w = (ok (codes "a"), w + 1)

abbrev fails : ℕ → Result Text Text × ℕ
fails w = (err (codes "down"), w + 1)

abbrev cached : Session
cached = record empty_session { cache = new_row work (codes "a") 100 ∷ [] }

served_old : cached_fetch json work fails 10 500 cached 0 ≡ (ok (codes "a"), (cached, 1))
unfolding cached_fetch fetch_or_serve fetched lookup codes text_eq
served_old = refl

cached_row : lookup work cached ≡ some (new_row work (codes "a") 100)
unfolding lookup codes text_eq
cached_row = refl

cached_fetch-twice_example :
    cached_fetch json work fails 10 105
      (cached_fetch json work answers 10 100 empty_session 0).1.0
      7
    ≡ (ok (codes "a"), ((cached_fetch json work answers 10 100 empty_session 0).1.0, 7))
cached_fetch-twice_example =
    cached_fetch-twice json work answers 10 100 empty_session 0 (codes "a") 1 fails 105 7
      (λ p. refl) (unfold lookup in refl) refl (omega arith)
