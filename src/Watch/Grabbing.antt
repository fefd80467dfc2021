-- ===== src/Watch/Grabbing.antt =====
-- src/libarr/tasks/download_watch.py: the grab phase, row by row.
use libarr.Prelude.{
  update_row-HasDistinctIds, All, HasDistinctIds, ℕ_discrete, sym, subst, ◌∙◌, codes, ℕ, ◌+◌, Text,
  ◌≡◌, refl, ◌≢◌, ◌⊎◌, inl, inr, some, List, [], ◌∷◌, arith, get_row, get_row-update_row, Result,
  ok, err, length, Bool-cases, is_empty, or_empty,
}
use libarr.Models.{QueueItem, downloading}
use libarr.Clients.{DownloadClient}
use libarr.Watch.{Cycle, item_id, to_failed, grabbed, grab_item, grab}

-- An item is handed to the client, with the id that the client gave it, or it fails with a reason.
abbrev pub IsGrabbed : Text → QueueItem → QueueItem → Type 0
IsGrabbed name r r' =
    ((download_id : Text) × (r' ≡ record r {
      client_download_id = some download_id;
      client_name = some name;
      status = downloading;
    }))
    ⊎ ((message : Text) × (r' ≡ to_failed message r))

abbrev sent_row : Text → Text → QueueItem → QueueItem
sent_row name download_id r = record r {
  client_download_id = some download_id;
  client_name = some name;
  status = downloading;
}

module _ {W : Type 0} where
  sent-other :
      (name : Text) (item : QueueItem) (reply : Result Text Text × W) (k : ℕ) (c : Cycle W)
      → item.id ≢ k
      → get_row item_id k (grabbed name item reply c).session.queue
        ≡ get_row item_id k c.session.queue
  unfolding grabbed
  sent-other name item (ok d, w) k c ne =
      ground
        (arith, get_row-update_row item_id item.id k (sent_row name d) (λ r. refl) c.session.queue)
  sent-other name item (err m, w) k c ne =
      ground (arith, get_row-update_row item_id item.id k (to_failed m) (λ r. refl) c.session.queue)

  sent_self :
      (name : Text) (item r : QueueItem) (reply : Result Text Text × W) (c : Cycle W)
      → get_row item_id item.id c.session.queue ≡ some r
      → (r' : QueueItem) × (get_row item_id item.id (grabbed name item reply c).session.queue
          ≡ some r')
        × IsGrabbed name r r'
  unfolding grabbed
  sent_self name item r (ok d, w) c e = (
    sent_row name d r,
    ground (
      arith,
      get_row-update_row item_id item.id item.id (sent_row name d) (λ r. refl) c.session.queue,
    ),
    inl (d, refl),
  )
  sent_self name item r (err m, w) c e = (
    to_failed m r,
    ground (
      arith,
      get_row-update_row item_id item.id item.id (to_failed m) (λ r. refl) c.session.queue,
    ),
    inr (m, refl),
  )

  sent-counts :
      (name : Text) (item : QueueItem) (reply : Result Text Text × W) (c : Cycle W)
      → (grabbed name item reply c).stats.grabbed + (grabbed name item reply c).stats.failures
        ≡ c.stats.grabbed + c.stats.failures + 1
  unfolding grabbed
  sent-counts name item (ok d, w) c = omega arith
  sent-counts name item (err m, w) c = omega arith

  sent-distinct :
      (name : Text) (item : QueueItem) (reply : Result Text Text × W) (c : Cycle W)
      → HasDistinctIds item_id c.session.queue
      → HasDistinctIds item_id (grabbed name item reply c).session.queue
  unfolding grabbed
  sent-distinct name item (ok i, w) c d =
      update_row-HasDistinctIds item_id item.id (sent_row name i) (λ r. refl) _ d
  sent-distinct name item (err m, w) c d =
      update_row-HasDistinctIds item_id item.id (to_failed m) (λ r. refl) _ d

  module _ (client : DownloadClient W) where
    grab_item-other :
        (item : QueueItem) (k : ℕ) (c : Cycle W)
        → item.id ≢ k
        → get_row item_id k (grab_item client item c).session.queue
          ≡ get_row item_id k c.session.queue
    unfolding grab_item
    grab_item-other item k c ne = elim (Bool-cases (is_empty (or_empty item.download_url))) [
      | inl e ↦ rw e (
          ground (
            arith,
            get_row-update_row item_id item.id k (to_failed (codes "no download URL")) (λ r. refl)
                c.session.queue,
          ))
      | inr e ↦ rw e (sent-other client.name item (client.add_url _ c.world) k c ne)
    ]

    grab_item_self :
        (item r : QueueItem) (c : Cycle W)
        → get_row item_id item.id c.session.queue ≡ some r
        → (r' : QueueItem) × (get_row item_id item.id (grab_item client item c).session.queue
            ≡ some r')
          × IsGrabbed client.name r r'
    unfolding grab_item
    grab_item_self item r c h = elim (Bool-cases (is_empty (or_empty item.download_url))) [
      | inl e ↦ rw e (
        to_failed (codes "no download URL") r,
        ground (
          arith,
          get_row-update_row item_id item.id item.id (to_failed (codes "no download URL"))
              (λ r. refl) c.session.queue,
        ),
        inr (_, refl),
      )
      | inr e ↦ rw e (sent_self client.name item r (client.add_url _ c.world) c h)
    ]

    pub grab-other :
        (items : List QueueItem) (k : ℕ) (c : Cycle W)
        → All (λ i. i.id ≢ k) items
        → get_row item_id k (grab client items c).session.queue ≡ get_row item_id k c.session.queue
    unfolding grab
    grab-other [] k c h = refl
    grab-other (item ∷ items) k c h =
        grab-other items k (grab_item client item c) h.1 ∙ grab_item-other item k c h.0

    -- A selected item is grabbed exactly once.
    pub grab_self :
        (items : List QueueItem) (k : ℕ) (i r : QueueItem) (c : Cycle W)
        → HasDistinctIds item_id items
        → get_row item_id k items ≡ some i
        → get_row item_id k c.session.queue ≡ some r
        → (r' : QueueItem) × (get_row item_id k (grab client items c).session.queue ≡ some r')
          × IsGrabbed client.name r r'
    unfolding grab get_row
    grab_self [] k i r c d m h = cc
    grab_self (item ∷ items) k i r c d m h = elim (ℕ_discrete item.id k) [
      | yes e ↦
          let here = subst (λ j. get_row item_id j c.session.queue ≡ some r) (sym e) h in
          let (r', found, is) = grab_item_self item r c here in
          (r', rw (← e) (grab-other items item.id (grab_item client item c) d.0 ∙ found), is)
      | no ne ↦
          grab_self items k i r (grab_item client item c) d.1 (ground arith)
            (grab_item-other item k c ne ∙ h)
    ]

    grab_item-counts :
        (item : QueueItem) (c : Cycle W)
        → (grab_item client item c).stats.grabbed + (grab_item client item c).stats.failures
          ≡ c.stats.grabbed + c.stats.failures + 1
    unfolding grab_item
    grab_item-counts item c = elim (Bool-cases (is_empty (or_empty item.download_url))) [
      | inl e ↦ rw e (omega arith)
      | inr e ↦ rw e (sent-counts client.name item (client.add_url _ c.world) c)
    ]

    -- Every selected item is counted once, as grabbed or as failed.
    grab-counts :
        (items : List QueueItem) (c : Cycle W)
        → (grab client items c).stats.grabbed + (grab client items c).stats.failures
          ≡ c.stats.grabbed + c.stats.failures + length items
    unfolding grab
    grab-counts [] c = omega arith
    grab-counts (item ∷ items) c =
        omega (arith, grab-counts items (grab_item client item c), grab_item-counts item c)

    grab_item-distinct :
        (item : QueueItem) (c : Cycle W)
        → HasDistinctIds item_id c.session.queue
        → HasDistinctIds item_id (grab_item client item c).session.queue
    unfolding grab_item
    grab_item-distinct item c d = elim (Bool-cases (is_empty (or_empty item.download_url))) [
      | inl e ↦ rw e (update_row-HasDistinctIds item_id item.id _ (λ r. refl) _ d)
      | inr e ↦ rw e (sent-distinct client.name item (client.add_url _ c.world) c d)
    ]

    pub grab-distinct :
        (items : List QueueItem) (c : Cycle W)
        → HasDistinctIds item_id c.session.queue
        → HasDistinctIds item_id (grab client items c).session.queue
    unfolding grab
    grab-distinct [] c d = d
    grab-distinct (item ∷ items) c d =
        grab-distinct items (grab_item client item c) (grab_item-distinct item c d)
