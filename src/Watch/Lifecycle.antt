-- ===== src/Watch/Lifecycle.antt =====
-- src/libarr/models/__init__.py: the states of a queue item, and its columns.
use libarr.Prelude.{◌≡◌, refl, ◌∙◌, arith}
use libarr.Models.{QueueItem, Status, queued, downloading, importing, imported, failed}

-- One transition. `lost` and `broken` are a client's error and a failed import.
pub data Step : Status → Status → Type 0 where
  sent : Step queued downloading
  refused : Step queued failed
  lost : Step downloading failed
  arrived : Step downloading importing
  finished : Step importing imported
  broken : Step importing failed

pub data Reach (s : Status) : Status → Type 0 where
  here : Reach s s
  next : {t u : Status} → Reach s t → Step t u → Reach s u

pub Reach-trans : {s t u : Status} → Reach s t → Reach t u → Reach s u
Reach-trans a here = a
Reach-trans a (next b st) = next (Reach-trans a b) st

-- A terminal status is never left.
pub Reach-imported : {t : Status} → Reach imported t → t ≡ imported
Reach-imported here = refl
Reach-imported (next r st) = elim (out st (Reach-imported r)) [ ]
  where
    out : {t u : Status} → Step t u → t ≡ imported → ⊥
    out sent e = cc
    out refused e = cc
    out lost e = cc
    out arrived e = cc
    out finished e = cc
    out broken e = cc

pub Reach-failed : {t : Status} → Reach failed t → t ≡ failed
Reach-failed here = refl
Reach-failed (next r st) = elim (out st (Reach-failed r)) [ ]
  where
    out : {t u : Status} → Step t u → t ≡ failed → ⊥
    out sent e = cc
    out refused e = cc
    out lost e = cc
    out arrived e = cc
    out finished e = cc
    out broken e = cc

-- The same item: what it downloads and for which book.
pub record SameItem (r r' : QueueItem) : Type 0 where
  pub id : r'.id ≡ r.id
  pub book_id : r'.book_id ≡ r.book_id
  pub release_guid : r'.release_guid ≡ r.release_guid
  pub title : r'.title ≡ r.title
  pub indexer_name : r'.indexer_name ≡ r.indexer_name
  pub download_url : r'.download_url ≡ r.download_url
  pub format : r'.format ≡ r.format
  pub size_bytes : r'.size_bytes ≡ r.size_bytes
  pub manual : r'.manual ≡ r.manual

pub SameItem-refl : (r : QueueItem) → SameItem r r
SameItem-refl r = ground arith

pub SameItem-trans : {a b c : QueueItem} → SameItem a b → SameItem b c → SameItem a c
SameItem-trans h k = record {
  id = k.id ∙ h.id;
  book_id = k.book_id ∙ h.book_id;
  release_guid = k.release_guid ∙ h.release_guid;
  title = k.title ∙ h.title;
  indexer_name = k.indexer_name ∙ h.indexer_name;
  download_url = k.download_url ∙ h.download_url;
  format = k.format ∙ h.format;
  size_bytes = k.size_bytes ∙ h.size_bytes;
  manual = k.manual ∙ h.manual;
}
