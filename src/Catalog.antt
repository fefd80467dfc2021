-- ===== src/Catalog.antt =====
-- src/libarr/api/routes.py: the rows that a user configures, indexers and download clients, and what
-- a user sets on authors, books, progress and accounts.
pub mod Names
pub mod Rows
mod Tests
use libarr.Prelude.{
  ℕ, Text, codes, text_eq, mem_text, Bool, not, ◌&&◌, Option, none, some, List, [], ◌∷◌, ◌++◌,
  get_row, update_row, delete_row, next_id, find, any, ok, err, ◌>>=◌, if◌then◌else◌, ◌==◌,
}
use libarr.Models.{Indexer, DownloadClientRow, Author, Book, ReadingProgress, User, Session}
use libarr.Clients.{client_kinds}
use libarr.Http.{HttpError, bad_request, not_found, conflict, Reply}

abbrev pub indexer_id : Indexer → ℕ
indexer_id row = row.id

abbrev pub client_id : DownloadClientRow → ℕ
client_id row = row.id

abbrev pub author_id : Author → ℕ
author_id row = row.id

abbrev pub book_id : Book → ℕ
book_id row = row.id

abbrev pub user_id : User → ℕ
user_id row = row.id

-- `SUPPORTED_KINDS`
unfoldable pub supported_kinds : List Text
supported_kinds =
    codes "annasarchive" ∷ codes "gutenberg" ∷ codes "openlibrary" ∷ codes "torznab" ∷ []

-- `IndexerIn`
pub record IndexerIn : Type 0 where
  pub name : Text
  pub kind : Text
  pub url : Option Text
  pub api_key : Option Text
  pub categories : Text
  pub priority : ℕ
  pub enabled : Bool
  pub rss_enabled : Bool

-- `Indexer(**body.model_dump())`, and `setattr` of every field.
abbrev pub indexer_row : ℕ → IndexerIn → Indexer
indexer_row id body = record {
  id = id;
  name = body.name;
  kind = body.kind;
  url = body.url;
  api_key = body.api_key;
  categories = body.categories;
  priority = body.priority;
  enabled = body.enabled;
  rss_enabled = body.rss_enabled;
}

-- `ClientIn`
pub record ClientIn : Type 0 where
  pub name : Text
  pub kind : Text
  pub url : Option Text
  pub username : Option Text
  pub password : Option Text
  pub api_key : Option Text
  pub enabled : Bool
  pub priority : ℕ
  pub remote_path : Option Text
  pub local_path : Option Text

abbrev pub client_row : ℕ → ClientIn → DownloadClientRow
client_row id body = record {
  id = id;
  name = body.name;
  kind = body.kind;
  url = body.url;
  username = body.username;
  password = body.password;
  api_key = body.api_key;
  enabled = body.enabled;
  priority = body.priority;
  remote_path = body.remote_path;
  local_path = body.local_path;
}

-- The row with an id, or 404.
unfoldable pub found_or : {A : Type 0} → Text → Option A → Reply A
found_or detail none = err (not_found detail)
found_or detail (some row) = ok row

-- A handler's guards: each raises where its test holds.
abbrev pub unless : {A : Type 0} → Bool → HttpError → Reply A → Reply A
unless test raised rest = if test then err raised else rest

unfoldable pub create_indexer : IndexerIn → Session → Reply (Indexer × Session)
create_indexer body s =
    if not (mem_text body.kind supported_kinds)
    then err (bad_request (codes "Unknown indexer kind"))
    else if any (λ row. text_eq row.name body.name) s.indexers
    then err (conflict (codes "Indexer name already exists"))
    else ok (
      indexer_row (next_id indexer_id s.indexers) body,
      record s { indexers = s.indexers ++ indexer_row (next_id indexer_id s.indexers) body ∷ [] },
    )

unfoldable pub get_indexer : ℕ → Session → Reply Indexer
get_indexer k s = found_or (codes "Indexer not found") (get_row indexer_id k s.indexers)

unfoldable pub set_indexer : ℕ → IndexerIn → Session → Reply (Indexer × Session)
set_indexer k body s =
    if not (mem_text body.kind supported_kinds)
    then err (bad_request (codes "Unknown indexer kind"))
    else ok (
      indexer_row k body,
      record s { indexers = update_row indexer_id k (λ row. indexer_row row.id body) s.indexers },
    )

unfoldable pub update_indexer : ℕ → IndexerIn → Session → Reply (Indexer × Session)
update_indexer k body s = do row ← get_indexer k s; set_indexer row.id body s

unfoldable pub delete_indexer : ℕ → Session → Reply Session
delete_indexer k s = do
  row ← get_indexer k s
  ok (record s { indexers = delete_row indexer_id row.id s.indexers })

unfoldable pub create_client : ClientIn → Session → Reply (DownloadClientRow × Session)
create_client body s =
    if not (mem_text body.kind client_kinds)
    then err (bad_request (codes "Unknown client kind"))
    else if any (λ row. text_eq row.name body.name) s.clients
    then err (conflict (codes "Client name already exists"))
    else ok (
      client_row (next_id client_id s.clients) body,
      record s { clients = s.clients ++ client_row (next_id client_id s.clients) body ∷ [] },
    )

unfoldable pub get_client : ℕ → Session → Reply DownloadClientRow
get_client k s = found_or (codes "Download client not found") (get_row client_id k s.clients)

unfoldable pub set_client : ℕ → ClientIn → Session → Reply (DownloadClientRow × Session)
set_client k body s =
    if not (mem_text body.kind client_kinds)
    then err (bad_request (codes "Unknown client kind"))
    else ok (
      client_row k body,
      record s { clients = update_row client_id k (λ row. client_row row.id body) s.clients },
    )

unfoldable pub update_client : ℕ → ClientIn → Session → Reply (DownloadClientRow × Session)
update_client k body s = do row ← get_client k s; set_client row.id body s

unfoldable pub delete_client : ℕ → Session → Reply Session
delete_client k s = do
  row ← get_client k s
  ok (record s { clients = delete_row client_id row.id s.clients })

-- `patch_author`
unfoldable pub patch_author : ℕ → Bool → Session → Reply Session
patch_author k monitored s = do
  row ← found_or (codes "Author not found") (get_row author_id k s.authors)
  ok (record s {
    authors = update_row author_id row.id (λ a. record a { monitored = monitored }) s.authors;
  })

abbrev pub is_progress : ℕ → Text → ReadingProgress → Bool
is_progress k profile row = row.book_id == k && text_eq row.profile profile

unfoldable pub get_progress : ℕ → Text → Session → Reply ReadingProgress
get_progress k profile s = do
  book ← found_or (codes "Book not found") (get_row book_id k s.books)
  found_or (codes "No progress recorded") (find (is_progress k profile) s.progress)

-- The row with the key, set or added.
unfoldable pub set_progress : ReadingProgress → List ReadingProgress → List ReadingProgress
set_progress new [] = new ∷ []
set_progress new (row ∷ rows) =
    if is_progress new.book_id new.profile row then new ∷ rows else row ∷ set_progress new rows

unfoldable pub put_progress : ReadingProgress → Session → Reply (ReadingProgress × Session)
put_progress new s = do
  book ← found_or (codes "Book not found") (get_row book_id new.book_id s.books)
  ok (new, record s { progress = set_progress new s.progress })

-- `set_user_role`: `admin` makes the request.
unfoldable pub set_role : User → Text → User → Session → Reply Session
set_role admin role user s =
    if user.id == admin.id && not (text_eq role (codes "admin"))
    then err (bad_request (codes "Cannot demote yourself"))
    else ok
        (record s { users = update_row user_id user.id (λ u. record u { role = role }) s.users })

unfoldable pub set_user_role : User → Text → Text → Session → Reply Session
set_user_role admin username role s = do
  user ← found_or (codes "User not found") (find (λ u. text_eq u.username username) s.users)
  set_role admin role user s
