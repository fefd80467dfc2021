-- ===== src/Koreader.antt =====
-- src/libarr/koreader.py: the progress that KOReader devices sync, with a user's API key as token.
pub mod Sync
mod Tests
use libarr.Prelude.{
  ℕ, Text, codes, text_eq, opt_eq, or_empty, truthy, is_empty, mem_text, Bool, true, false, ◌&&◌,
  Option, none, some, List, [], ◌∷◌, next_id, select, find, Result, ok, err, if◌then◌else◌, ◌==◌,
  ltb,
}
use libarr.Models.{KoreaderProgress, User, Session}
use libarr.Auth.{Env, user_named, verified}

-- What a device uploads: the fields of "progress", a missing text as none.
pub record Upload : Type 0 where
  pub document : Text
  pub title : Option Text
  pub progress : ℕ
  pub device : Option Text
  pub client : Option Text

abbrev pub row_id : KoreaderProgress → ℕ
row_id row = row.id

-- `_user_by_token`
unfoldable pub user_by_token : Option Text → Session → Option User
user_by_token token s =
    if truthy token then find (λ u. opt_eq u.api_key (or_empty token)) s.users else none

-- `koreader_auth`: the token.
unfoldable pub token_of : Option User → Result Text Text
token_of none = err (codes "Invalid credentials")
token_of (some u) = ok (or_empty u.api_key)

unfoldable pub koreader_auth : {Ip : Type 0} → Env Ip → Text → Text → Session → Result Text Text
koreader_auth env name password s = token_of (verified env password (user_named name s))

abbrev pub with_user : {A : Type 0} → Option User → (User → Result Text A) → Result Text A
with_user none next = err (codes "Invalid token")
with_user (some u) next = next u

unfoldable pub with_token :
    {A : Type 0} → Option Text → Session → (User → Result Text A) → Result Text A
with_token token s next = with_user (user_by_token token s) next

abbrev pub is_of : ℕ → Text → KoreaderProgress → Bool
is_of user document row = row.user_id == user && text_eq row.document document

abbrev same_text : Option Text → Option Text → Bool
same_text none none = true
same_text none (some t) = false
same_text (some s) t = opt_eq t s

abbrev pub is_unchanged : Upload → KoreaderProgress → Bool
is_unchanged upload row =
    same_text row.title upload.title
    && (row.progress == upload.progress
        && (same_text row.device upload.device && same_text row.client upload.client))

-- The assignments to a row; `onupdate` sets the time where a column changes.
abbrev pub uploaded : Upload → ℕ → KoreaderProgress → KoreaderProgress
uploaded upload now row = if is_unchanged upload row then row else record row {
  title = upload.title;
  progress = upload.progress;
  device = upload.device;
  client = upload.client;
  updated_at = now;
}

-- `KoreaderProgress(user_id=user.id, document=document)` with the other columns set.
abbrev pub new_row : ℕ → ℕ → Upload → ℕ → KoreaderProgress
new_row id user upload now = record {
  id = id;
  user_id = user;
  document = upload.document;
  title = upload.title;
  progress = upload.progress;
  device = upload.device;
  client = upload.client;
  updated_at = now;
}

-- A fresh row takes the next id of the whole table, so that is passed along.
unfoldable pub set_upload : ℕ → ℕ → Upload → ℕ → List KoreaderProgress → List KoreaderProgress
set_upload id user upload now [] = new_row id user upload now ∷ []
set_upload id user upload now (row ∷ rows) =
    if is_of user upload.document row
    then uploaded upload now row ∷ rows
    else row ∷ set_upload id user upload now rows

unfoldable pub upload_for : Upload → ℕ → Session → User → Result Text Session
upload_for upload now s u =
    if is_empty upload.document
    then err (codes "Missing document")
    else ok
        (record s { koreader = set_upload (next_id row_id s.koreader) u.id upload now s.koreader })

-- `koreader_progress_upload`
unfoldable pub progress_upload : Option Text → Upload → ℕ → Session → Result Text Session
progress_upload token upload now s = with_token token s (upload_for upload now s)

-- `koreader_progress_get`: the rows of the user among the documents.
unfoldable pub rows_of : List Text → Session → User → List KoreaderProgress
rows_of documents s u =
    select (λ row. row.user_id == u.id && mem_text row.document documents) s.koreader

unfoldable pub progress_get :
    Option Text → List Text → Session → Result Text (List KoreaderProgress)
progress_get token documents s = with_token token s (λ u. ok (rows_of documents s u))

-- `koreader_lastone`: the latest row, the first one among equals.
unfoldable pub latest : KoreaderProgress → List KoreaderProgress → KoreaderProgress
latest best [] = best
latest best (row ∷ rows) = latest (if ltb best.updated_at row.updated_at then row else best) rows

unfoldable pub latest_of : List KoreaderProgress → Option KoreaderProgress
latest_of [] = none
latest_of (row ∷ rows) = some (latest row rows)

unfoldable pub lastone : Option Text → Session → Result Text (Option KoreaderProgress)
lastone token s =
    with_token token s (λ u. ok (latest_of (select (λ row. row.user_id == u.id) s.koreader)))
