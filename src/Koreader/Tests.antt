-- ===== src/Koreader/Tests.antt =====
-- Two users and one document.
use libarr.Prelude.{
  ℕ, Text, codes, text_eq, ◌≡◌, refl, none, some, List, [], ◌∷◌, arith, next_id, ok,
}
use libarr.Models.{KoreaderProgress, User, Session}
use libarr.Samples.{empty_session, sample_user}
use libarr.Koreader.{
  Upload, user_by_token, with_token, new_row, set_upload, upload_for, progress_upload, progress_get,
}
use libarr.Koreader.Sync.{progress_upload-other}

abbrev keyed : ℕ → Text → User
keyed id key = record (sample_user id key (codes "user")) { api_key = some key }

abbrev session_of : List KoreaderProgress → Session
session_of rows = record empty_session {
  users = keyed 1 (codes "k") ∷ keyed 2 (codes "l") ∷ [];
  koreader = rows;
}

abbrev upload : Upload
upload = record {
  document = codes "d";
  title = none;
  progress = 250000;
  device = none;
  client = none;
}

uploaded_d :
    progress_upload (some (codes "k")) upload 9 (session_of [])
    ≡ ok (session_of (new_row 1 1 upload 9 ∷ []))
unfolding progress_upload with_token upload_for set_upload user_by_token codes text_eq next_id
uploaded_d = refl

k_is_1 : user_by_token (some (codes "k")) (session_of []) ≡ some (keyed 1 (codes "k"))
unfolding user_by_token codes text_eq
k_is_1 = refl

l_is_2 : user_by_token (some (codes "l")) (session_of []) ≡ some (keyed 2 (codes "l"))
unfolding user_by_token codes text_eq
l_is_2 = refl

progress_upload-other_example :
    progress_get (some (codes "l")) (codes "d" ∷ []) (session_of (new_row 1 1 upload 9 ∷ []))
    ≡ progress_get (some (codes "l")) (codes "d" ∷ []) (session_of [])
progress_upload-other_example =
    progress_upload-other (some (codes "k")) (some (codes "l")) upload 9 (codes "d" ∷ [])
      (session_of []) (session_of (new_row 1 1 upload 9 ∷ [])) (keyed 1 (codes "k"))
      (keyed 2 (codes "l")) uploaded_d k_is_1 l_is_2 (omega arith)
