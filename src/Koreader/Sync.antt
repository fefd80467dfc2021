-- ===== src/Koreader/Sync.antt =====
-- src/libarr/koreader.py: what an upload of reading progress leaves to other users.
use libarr.Prelude.{
  ok_inj, guard-returned, if-ind, ℕ, Text, text_eq_iff, is_empty, mem_text, ◌≡◌, refl, ap, subst,
  ◌∙◌, ◌≢◌, inl, inr, Bool, false, ◌&&◌, Option, some, List, [], ◌∷◌, arith, next_id, select, ok,
  Bool-cases, if◌then◌else◌, ◌==◌, ==_iff,
}
use libarr.Models.{KoreaderProgress, User, Session}
use libarr.Koreader.{
  with_user, Upload, row_id, user_by_token, with_token, is_of, uploaded, set_upload, is_unchanged,
  new_row, upload_for, progress_upload, rows_of, progress_get,
}

uploaded-user_id :
    (upload : Upload) (now : ℕ) (row : KoreaderProgress)
    → (uploaded upload now row).user_id ≡ row.user_id
uploaded-user_id upload now row =
    if-ind (λ (r : KoreaderProgress). r.user_id ≡ row.user_id) (is_unchanged upload row) refl refl

uploaded-document :
    (upload : Upload) (now : ℕ) (row : KoreaderProgress)
    → (uploaded upload now row).document ≡ row.document
uploaded-document upload now row =
    if-ind (λ (r : KoreaderProgress). r.document ≡ row.document) (is_unchanged upload row) refl refl

set_upload-select :
    (p : KoreaderProgress → Bool) (id user : ℕ) (upload : Upload) (now : ℕ)
    → ((row : KoreaderProgress)
        → row.user_id ≡ user
        → row.document ≡ upload.document
        → p row ≡ false)
    → (rows : List KoreaderProgress) → select p (set_upload id user upload now rows) ≡ select p rows
unfolding set_upload
set_upload-select p id user upload now out [] = rw (out (new_row id user upload now) refl refl) refl
set_upload-select p id user upload now out (row ∷ rows) =
    elim (Bool-cases (is_of user upload.document row)) [
      | inr other ↦ rw other (
          ap (λ rest. if p row then row ∷ rest else rest)
            (set_upload-select p id user upload now out rows))
      | inl same ↦
          let owner : row.user_id ≡ user = (==_iff row.user_id user).0 (ground arith) in
          let named : row.document ≡ upload.document =
            (text_eq_iff row.document upload.document).0 (ground arith) in
          rw
            (
              same,
              out (uploaded upload now row) (uploaded-user_id upload now row ∙ owner)
                  (uploaded-document upload now row ∙ named),
              out row owner named,
            )
            refl
    ]

upload_for-returned :
    (upload : Upload) (now : ℕ) (s s' : Session) (u : User)
    → upload_for upload now s u ≡ ok s'
    → (is_empty upload.document ≡ false)
      × (record s { koreader = set_upload (next_id row_id s.koreader) u.id upload now s.koreader }
          ≡ s')
unfolding upload_for
upload_for-returned upload now s s' u e =
    let (named, same) = guard-returned (is_empty upload.document) _ _ e in (named, ok_inj same)

rows_of-other :
    (documents : List Text) (id : ℕ) (u v : User) (upload : Upload) (now : ℕ) (s : Session)
    → u.id ≢ v.id
    → rows_of documents (record s { koreader = set_upload id u.id upload now s.koreader }) v
      ≡ rows_of documents s v
unfolding rows_of
rows_of-other documents id u v upload now s apart =
    set_upload-select (λ row. row.user_id == v.id && mem_text row.document documents) id u.id upload
      now (λ row owner named. ground arith) s.koreader

-- An upload that succeeds for one user changes nothing of what a user with another id gets.
pub progress_upload-other :
    (token other : Option Text) (upload : Upload) (now : ℕ) (documents : List Text) (s s' : Session)
    (u v : User)
    → progress_upload token upload now s ≡ ok s'
    → user_by_token token s ≡ some u
    → user_by_token other s ≡ some v
    → u.id ≢ v.id
    → progress_get other documents s' ≡ progress_get other documents s
unfolding progress_upload with_token
progress_upload-other token other upload now documents s s' u v e mine yours apart =
    let id = next_id row_id s.koreader in
    let (named, made) = upload_for-returned upload now s s' u (upload_of e) in
    subst (λ r. progress_get other documents r ≡ progress_get other documents s) made (read id)
  where
    upload_of :
        with_user (user_by_token token s) (upload_for upload now s) ≡ ok s'
        → upload_for upload now s u ≡ ok s'
    upload_of h = subst (λ o. with_user o (upload_for upload now s) ≡ ok s') mine h

    read :
        (id : ℕ)
        → progress_get other documents
            (record s { koreader = set_upload id u.id upload now s.koreader })
          ≡ progress_get other documents s
    read id =
        let same : user_by_token other
              (record s { koreader = set_upload id u.id upload now s.koreader })
            ≡ some v =
          unfold user_by_token in yours in
        unfold progress_get in
        rw (same, yours) (ap ok (rows_of-other documents id u v upload now s apart))
