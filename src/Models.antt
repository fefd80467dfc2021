-- ===== src/Models.antt =====
-- The tables of src/libarr/models: one record for each ORM class, its columns in order, and the
-- session that holds them.
--
-- Strings are lists of code points. A relationship is not a field: it is the query that the ORM
-- makes for it, written where it is used. The columns that the ORM fills with the current time and
-- that no modelled code reads (`created_at`, `updated_at`, `date_added`, `date_scanned`) are left
-- out. Status columns, whose values the code writes as literals, are data types. Fractions between
-- 0 and 1 are counted in millionths.
use libarr.Prelude.{ℕ, Text, Bool, Option, List}

pub record Author : Type 0 where
  pub id : ℕ
  pub name : Text
  pub sort_name : Option Text
  pub slug : Option Text
  pub biography : Option Text
  pub ol_key : Option Text
  pub cover_path : Option Text
  pub metadata_json : Option Text
  pub monitored : Bool

pub record Series : Type 0 where
  pub id : ℕ
  pub title : Text
  pub author_id : Option ℕ
  pub sort_order : ℕ

pub record Book : Type 0 where
  pub id : ℕ
  pub author_id : Option ℕ
  pub title : Text
  pub subtitle : Option Text
  pub series_id : Option ℕ
  pub series_position : Option ℕ
  pub work_key : Option Text
  pub language : Option Text
  pub description : Option Text
  pub page_count : Option ℕ
  pub year : Option ℕ
  pub cover_path : Option Text
  pub monitored : Bool
  pub path : Option Text
  pub metadata_json : Option Text

pub record Edition : Type 0 where
  pub id : ℕ
  pub book_id : ℕ
  pub isbn13 : Option Text
  pub isbn10 : Option Text
  pub publisher : Option Text
  pub published_at : Option ℕ
  pub format : Option Text
  pub page_count : Option ℕ
  pub ol_edition_key : Option Text
  pub google_volume_id : Option Text
  pub metadata_json : Option Text

pub record File : Type 0 where
  pub id : ℕ
  pub edition_id : Option ℕ
  pub path : Text
  pub format : Text
  pub size_bytes : ℕ
  pub sha256 : Text

pub record Subject : Type 0 where
  pub id : ℕ
  pub book_id : ℕ
  pub name : Text
  pub slug : Text
  pub source : Text

pub record Indexer : Type 0 where
  pub id : ℕ
  pub name : Text
  pub kind : Text
  pub url : Option Text
  pub api_key : Option Text
  pub categories : Text
  pub priority : ℕ
  pub enabled : Bool
  pub rss_enabled : Bool

pub record DownloadClientRow : Type 0 where
  pub id : ℕ
  pub name : Text
  pub kind : Text
  pub url : Option Text
  pub username : Option Text
  pub password : Option Text
  pub api_key : Option Text
  pub enabled : Bool
  pub priority : ℕ
  pub remote_path : Option Text
  pub local_path : Option Text

-- The values of `QueueItem.status`.
pub data Status : Type 0 where
  queued downloading importing imported failed : Status

pub record QueueItem : Type 0 where
  pub id : ℕ
  pub book_id : ℕ
  pub release_guid : Text
  pub title : Text
  pub indexer_name : Text
  pub download_url : Option Text
  pub format : Option Text
  pub size_bytes : Option ℕ
  pub client_name : Option Text
  pub client_download_id : Option Text
  pub manual : Bool
  pub status : Status
  pub error : Option Text

-- The values that the code passes as the `kind` of an event.
pub data EventKind : Type 0 where
  grab import upgrade fail discovery request : EventKind

pub record HistoryEvent : Type 0 where
  pub id : ℕ
  pub book_id : Option ℕ
  pub kind : EventKind
  pub title : Text
  pub details : Option Text

pub record DiscoveryList : Type 0 where
  pub id : ℕ
  pub name : Text
  pub query : Text
  pub schedule_days : ℕ
  pub max_per_run : ℕ
  pub auto_monitor : Bool
  pub enabled : Bool
  pub last_run_at : Option ℕ

-- The values of `ConversionJob.status`.
pub data JobStatus : Type 0 where
  queued working done failed : JobStatus

pub record ConversionJob : Type 0 where
  pub id : ℕ
  pub file_id : ℕ
  pub target_format : Text
  pub status : JobStatus
  pub output_path : Option Text
  pub error : Option Text

pub record KoreaderProgress : Type 0 where
  pub id : ℕ
  pub user_id : ℕ
  pub document : Text
  pub title : Option Text
  pub progress : ℕ
  pub device : Option Text
  pub client : Option Text
  pub updated_at : ℕ

pub record Shelf : Type 0 where
  pub id : ℕ
  pub user_id : ℕ
  pub name : Text

pub record ShelfBook : Type 0 where
  pub shelf_id : ℕ
  pub book_id : ℕ

pub record User : Type 0 where
  pub id : ℕ
  pub username : Text
  pub password_hash : Text
  pub api_key : Option Text
  pub notify_events : Text
  pub oidc_sub : Option Text
  pub role : Text

pub record ReadingProgress : Type 0 where
  pub book_id : ℕ
  pub profile : Text
  pub position : ℕ
  pub location : Option Text

pub record MetadataCache : Type 0 where
  pub provider : Text
  pub kind : Text
  pub key : Text
  pub payload_json : Text
  pub fetched_at : ℕ
  pub etag : Option Text

-- What a session reads and writes.
pub record Session : Type 0 where
  pub authors : List Author
  pub series : List Series
  pub books : List Book
  pub editions : List Edition
  pub files : List File
  pub subjects : List Subject
  pub indexers : List Indexer
  pub clients : List DownloadClientRow
  pub queue : List QueueItem
  pub history : List HistoryEvent
  pub discovery_lists : List DiscoveryList
  pub jobs : List ConversionJob
  pub koreader : List KoreaderProgress
  pub shelves : List Shelf
  pub shelf_books : List ShelfBook
  pub users : List User
  pub progress : List ReadingProgress
  pub cache : List MetadataCache
