-- ===== src/Clients.antt =====
-- src/libarr/clients: what a download client reports, the common surface of the adapters, and the
-- registry that builds an adapter from a row.
use libarr.Prelude.{
  leb, ℕ, Text, codes, mem_text, Option, List, [], ◌∷◌, Result, ok, err, if◌then◌else◌,
}
use libarr.Models.{DownloadClientRow}

-- The values of `ClientItem.status`.
pub data ClientStatus : Type 0 where
  queued downloading complete error removed : ClientStatus

pub record ClientItem : Type 0 where
  pub id : Text
  pub name : Text
  pub status : ClientStatus
  pub progress : ℕ
  pub size_bytes : Option ℕ
  pub save_path : Option Text

-- The protocol of an adapter. `W` is the state of the remote programs; the error of a call is the
-- text of its `DownloadError`.
pub record DownloadClient (W : Type 0) : Type 0 where
  pub name : Text
  pub add_url : Text → W → Result Text Text × W
  pub list_items : W → Result Text (List ClientItem) × W

-- The operations of the adapter classes, given the row that configures one.
pub record Adapters (W : Type 0) : Type 0 where
  pub add_url : DownloadClientRow → Text → W → Result Text Text × W
  pub list_items : DownloadClientRow → W → Result Text (List ClientItem) × W

-- `CLIENT_KINDS`
unfoldable pub client_kinds : List Text
unfolding codes
client_kinds =
    codes "deluge"
    ∷ codes "nzbget"
    ∷ codes "qbittorrent"
    ∷ codes "sabnzbd"
    ∷ codes "transmission"
    ∷ []

-- Each adapter keeps the name of its row.
unfoldable pub build_client :
    {W : Type 0} → Adapters W → DownloadClientRow → Result Text (DownloadClient W)
unfolding client_kinds mem_text
build_client adapters row =
    if mem_text row.kind client_kinds
    then ok (record {
      name = row.name;
      add_url = adapters.add_url row;
      list_items = adapters.list_items row;
    })
    else err (codes "unknown download client kind")

-- `_status`: what an adapter reports for a state of its program, with the progress in percent.
unfoldable pub status_of : Text → ℕ → List Text → ClientStatus
status_of state progress complete_states =
    if mem_text state complete_states
    then complete
    else if mem_text state (codes "error" ∷ codes "failed" ∷ codes "Error" ∷ codes "FAILED" ∷ [])
    then error
    else if leb 100 progress
    then complete
    else downloading
