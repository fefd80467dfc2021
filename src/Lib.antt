-- ===== src/Lib.antt =====
-- libarr: a library and download manager for books, in Python over an SQL database. Search results
-- of indexers become candidates, the best candidate of a book becomes a queue item, a cycle hands
-- queued items to a download client and watches them, and finished files are imported.
--
-- Files, with the code they model (paths from the root of the repository, under src/libarr):
--   Prelude          helpers: lists, members, options, results, texts, sorting, tables of rows with
--                    ids, unique columns
--   Python           str methods, and the tables of Unicode as a parameter
--   Python/Regex     regular expressions and the functions of `re` that the code calls
--   Python/Paths     `pathlib` paths as their parts
--   Models           models/__init__.py: tables as records, the database as a record of tables
--   Relations        the relationships of the ORM classes, as queries
--   Samples          rows for the tests; the runs and the theorems at concrete inputs are in .../Tests
--   History          history.py: `record` is `record_event`
--   Clients          clients/base.py, clients/registry.py: `DownloadClient`, `build_client`
--   Watch            tasks/download_watch.py: `process_queue` as a step on a `Cycle` (the database, the
--                    remote programs, the counters); its loops are `grab`, `watch` and `watch_items`
--   Watch/...        the life cycle of a queue item, the grab, the hook, the watch, the whole cycle
--   Normalize        metadata/normalize.py: `normalize_text`, `slugify`, `normalize_isbn`
--   Parser           acquisition/parser.py: `parse_book_filename`
--   Quality          acquisition/quality.py: profiles, scores, `is_upgrade`
--   Indexers         indexers/base.py: `Release`, `detect_format`; indexers/registry.py
--   Candidates       acquisition/candidates.py, and `normalize_release_title` of acquisition/wanted.py
--   Decision         acquisition/decision.py: the score tuple, `pick_best`
--   Http             the errors that a handler raises
--   Auth             api/auth.py and `verify_state` of oidc.py: who a request comes from, bootstrap,
--                    login, the OIDC callback
--   Shelves          api/routes.py: the shelves of a user
--   Catalog          api/routes.py, api/schemas.py: indexers, download clients, reading progress,
--                    author monitoring, roles
--   Discovery        api/routes.py: saved discovery lists, the latest rows of the queue and conversions
--   Cache            metadata/cache.py: `cached_fetch`
--   Koreader         koreader.py: the sync of reading progress
--   Wanted           acquisition/wanted.py: the best format of a book, the wanted lists, the book that a
--                    release is for
--   Matcher          metadata/matcher.py: `match_book`, whose passes by title are `match_title`
--   Queue            the rows that the two tasks below add, and their unique columns
--   Rss              tasks/rss.py: `rss_sync`
--   Search           tasks/search.py: `search_now`, and a manual winner in the next download cycle
--   Notify           notify.py, and the settings that the cycles read
--   Epub             acquisition/epub_meta.py: the package document of an EPUB
--   Import           acquisition/import_pipeline.py: `import_download` and the hook; Disk has the file
--                    system and the archives, Locate the files of a download, Naming the template,
--                    Place the link or the copy
--   Import/...       Settled: what one import does to the rows; Laws: the hook and the law of the
--                    watch; Finished: a completed item after its import; Safe: zip members and names
--   Subjects         metadata/subjects.py: one name for the spellings of a genre
--   Works            discovery.py: `search_works`, `import_works`, and in Lists `evaluate_lists`
--   Calendar         calendar.py: `calendar_events`
--   Scheduler        scheduler.py: `run_cycles`, the four jobs one after the other
--   Fts              fts.py: the row of the full-text index
--   Scan             acquisition/library_scan.py: `scan_library`, `upsert_file`; Rows has the author, the
--                    book and the edition of a file
--   Enrich           metadata/enrich.py: `enrich_book`, `enrich_library`
--   Conversion       conversion.py: the queue of conversion jobs
--
-- A query with a filter is `select` on the table in the order of ids, an attribute set on a row is
-- `update_row`, a new row has the id `next_id`, one more than the greatest. A row keeps its id, so
-- code that holds an object is code that holds an id. An exception is the `err` of a `Result`. The
-- adapters of remote programs are a parameter over a state of the outside world; a call of them
-- raises `DownloadError` or returns, as clients/base.py documents. A search of an indexer raises
-- `IndexerError` or returns, as indexers/base.py documents, and a poll of one may raise anything.
-- In Watch the import hook is a parameter, with the law that it changes no queue item but its own;
-- Import/Laws is about that law and `default_import_hook`. The import and the scan take the file
-- system, the archive libraries and the hash as a parameter of calls that return or raise, over a
-- state that any call may change. A handler of the API is a function of the user, the body and the
-- database into a `Reply`: the HTTP error, or the answer with the new database. FastAPI checks a
-- body against its schema before a handler runs.
--
-- Every loop of the code is a recursion on a list. The matcher of regular expressions is a
-- recursion on the expression, where a star runs on fuel of the length of the rest of the text:
-- each turn of a star consumes a character, so this is enough. The functions that search, replace
-- or split run on the characters of the text.
--
-- Characters are code points. The tables of Unicode (case, whitespace, word characters,
-- decomposition) are a parameter, for which the tests put in the ASCII part. `\d` is a digit of
-- ASCII, and case is ignored for the letters of ASCII. Numbers that the code keeps as floats are
-- fractions in millionths, ages are in seconds.
--
-- Not modelled: the endless loop of the scheduler, the chat, the imports of dumps and of other
-- programs, backups, the adapters of remote services (HTTP, XML, HTML), the SQL of full-text
-- search, the front end, mail, OPDS and images; time stamps that no modelled code reads; the
-- transactions of the database (a commit is not a step of its own) and its constraints: a row that
-- breaks a unique column is added here, where the database refuses it at the commit, except in
-- `add_shelf_books`, which then gives an error. The rows are those of the session, also where the
-- code returns or raises without a commit.
pub mod Prelude
pub mod Python
pub mod Models
pub mod History
pub mod Samples
pub mod Clients
pub mod Watch
pub mod Normalize
pub mod Parser
pub mod Quality
pub mod Indexers
pub mod Candidates
pub mod Decision
pub mod Wanted
pub mod Enrich
pub mod Import
pub mod Calendar
pub mod Search
pub mod Http
pub mod Auth
pub mod Shelves
pub mod Rss
pub mod Scheduler
pub mod Catalog
pub mod Scan
pub mod Cache
pub mod Discovery
pub mod Koreader
pub mod Works
pub mod Subjects
pub mod Conversion
pub mod Queue
pub mod Fts
pub mod Notify
pub mod Relations
pub mod Epub
pub mod Matcher
