-- ===== src/Catalog/Names.antt =====
-- src/libarr/api/routes.py: the names of indexers and download clients when one is created.
use libarr.Prelude.{
  get_row, get_row-append_new, true, ◌==◌, some, if◌then◌else◌, Option, Bool, any-append,
  text_eq_comm, ok_inj, guard-returned, ℕ, Text, codes, text_eq, mem_text, ◌≡◌, refl, ap, subst,
  ◌∙◌, false, not, ◌||◌, List, [], ◌∷◌, ◌++◌, arith, next_id, next_id-fresh, any, ok,
}
use libarr.Models.{Indexer, DownloadClientRow, Session}
use libarr.Clients.{client_kinds}
use libarr.Catalog.{
  indexer_id, client_id, IndexerIn, ClientIn, indexer_row, client_row, supported_kinds,
  create_indexer, create_client, get_indexer, get_client, found_or,
}

module _ {R : Type 0} (name : R → Text) where
  -- No two rows share a name.
  abbrev pub HasDistinctNames : List R → Type 0
  HasDistinctNames [] = Unit
  HasDistinctNames (r ∷ rs) =
      (any (λ t. text_eq (name t) (name r)) rs ≡ false) × HasDistinctNames rs

  append-HasDistinctNames :
      (rs : List R) (new : R)
      → HasDistinctNames rs
      → any (λ t. text_eq (name t) (name new)) rs ≡ false
      → HasDistinctNames (rs ++ new ∷ [])
  append-HasDistinctNames [] new h fresh = (refl, tt)
  append-HasDistinctNames (r ∷ rs) new (first, rest) fresh = (
    any-append (λ t. text_eq (name t) (name r)) rs (new ∷ []) ∙ alone,
    append-HasDistinctNames rs new rest (ground arith),
  )
    where
      apart : text_eq (name r) (name new) ≡ false
      apart = ground arith

      apart_sym : text_eq (name new) (name r) ≡ false
      apart_sym = text_eq_comm (name new) (name r) ∙ apart

      alone :
          (any (λ t. text_eq (name t) (name r)) rs || (text_eq (name new) (name r) || false))
          ≡ false
      alone = rw (first, apart_sym) refl

pub found_or-if :
    {A : Type 0} (detail : Text) (test : Bool) (row : A) (found : Option A)
    → found_or detail (if test then some row else found)
      ≡ (if test then ok row else found_or detail found)
unfolding found_or
found_or-if detail true row found = refl
found_or-if detail false row found = refl

-- A new indexer has a supported kind and a name that no other has, so the names stay distinct; it is
-- read back under its id, and every other id reads what it read before.
pub create_indexer-HasDistinctNames :
    (body : IndexerIn) (s : Session) (row : Indexer) (s' : Session)
    → HasDistinctNames (λ r. r.name) s.indexers
    → create_indexer body s ≡ ok (row, s')
    → (mem_text row.kind supported_kinds ≡ true)
      × HasDistinctNames (λ r. r.name) s'.indexers
      × ((j : ℕ) → get_indexer j s' ≡ (if j == row.id then ok row else get_indexer j s))
unfolding create_indexer
create_indexer-HasDistinctNames body s row s' h e =
    let (kind, e1) = guard-returned (not (mem_text body.kind supported_kinds)) _ _ e in
    let (fresh, e2) = guard-returned (any (λ r. text_eq r.name body.name) s.indexers) _ _ e1 in
    let new = indexer_row (next_id indexer_id s.indexers) body in
    subst
      (λ r.
        (mem_text r.0.kind supported_kinds ≡ true)
        × HasDistinctNames (λ r. r.name) r.1.indexers
        × ((j : ℕ) → get_indexer j r.1 ≡ (if j == r.0.id then ok r.0 else get_indexer j s)))
      (ok_inj e2)
      (
        ground arith,
        append-HasDistinctNames (λ r. r.name) s.indexers new h fresh,
        λ j.
            unfold get_indexer in
            ap (found_or (codes "Indexer not found"))
              (get_row-append_new indexer_id j s.indexers new (next_id-fresh indexer_id s.indexers))
            ∙ found_or-if (codes "Indexer not found") (j == new.id) new
                (get_row indexer_id j s.indexers),
      )

-- A new download client has a name that no other has, so the names stay distinct; it is read back under its id, and every other id reads what it read before.
create_client-HasDistinctNames :
    (body : ClientIn) (s : Session) (row : DownloadClientRow) (s' : Session)
    → HasDistinctNames (λ r. r.name) s.clients
    → create_client body s ≡ ok (row, s')
    → HasDistinctNames (λ r. r.name) s'.clients
      × ((j : ℕ) → get_client j s' ≡ (if j == row.id then ok row else get_client j s))
unfolding create_client
create_client-HasDistinctNames body s row s' h e =
    let (kind, e1) = guard-returned (not (mem_text body.kind client_kinds)) _ _ e in
    let (fresh, e2) = guard-returned (any (λ r. text_eq r.name body.name) s.clients) _ _ e1 in
    let new = client_row (next_id client_id s.clients) body in
    subst
      (λ r.
        HasDistinctNames (λ r. r.name) r.1.clients
        × ((j : ℕ) → get_client j r.1 ≡ (if j == r.0.id then ok r.0 else get_client j s)))
      (ok_inj e2)
      (
        append-HasDistinctNames (λ r. r.name) s.clients new h fresh,
        λ j.
            unfold get_client in
            ap (found_or (codes "Download client not found"))
              (get_row-append_new client_id j s.clients new (next_id-fresh client_id s.clients))
            ∙ found_or-if (codes "Download client not found") (j == new.id) new
                (get_row client_id j s.clients),
      )
