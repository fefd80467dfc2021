-- ===== src/Works/Again.antt =====
-- src/libarr/discovery.py: `import_works`, called twice.
use libarr.Prelude.{
  ℕ, zero, suc, text_eq_refl, ◌≡◌, refl, sym, ap, subst, ◌∙◌, ◌⊎◌, inl, inr, Bool, true, false,
  ◌||◌, Option, List, [], ◌∷◌, ◌++◌, arith, All, Bool-cases,
}
use libarr.Python.{Unicode}
use libarr.Models.{Session}
use libarr.History.{record_event}
use libarr.Works.{
  DiscoveryWork, Key, same_key, has_key, work_key, existing_keys, author_for, add_book, import_work,
  import_each, tell_added, import_works, book_key,
}
use libarr.Works.Keys.{IsSound, author_for-IsAuthorFor, existing_keys-add_book, add_book-IsSound}

has_key-append :
    (k new : Key) (ks : List Key) → has_key k (ks ++ new ∷ []) ≡ (has_key k ks || same_key k new)
unfolding has_key
has_key-append k new [] = ground arith
has_key-append k new (x ∷ ks) = ground (arith, has_key-append k new ks)

same_key_refl : (k : Key) → same_key k k ≡ true
same_key_refl (a, b) = rw (text_eq_refl a, text_eq_refl b) refl

-- The keys of the one list are keys of the other.
abbrev IsCovered : List Key → List Key → Type 0
IsCovered ks ls = (k : Key) → has_key k ks ≡ true → has_key k ls ≡ true

or-cases : (a b : Bool) → (a || b) ≡ true → (a ≡ true) ⊎ (b ≡ true)
or-cases true b h = inl refl
or-cases false b h = inr h

append-IsCovered :
    (ks ls : List Key) (new : Key) → IsCovered ks ls → IsCovered (new ∷ ks) (ls ++ new ∷ [])
unfolding has_key
append-IsCovered ks ls new c k h = elim (or-cases (same_key k new) (has_key k ks) h) [
  | inl e ↦ has_key-append k new ls ∙ ground (arith, e)
  | inr e ↦ has_key-append k new ls ∙ ground (arith, c k e)
]

append-IsKeptKey : (ls : List Key) (new : Key) → IsCovered ls (ls ++ new ∷ [])
append-IsKeptKey ls new k h = has_key-append k new ls ∙ ground (arith, h)

last-IsCovered : (ls : List Key) (new : Key) → has_key new (ls ++ new ∷ []) ≡ true
last-IsCovered ls new = has_key-append new new ls ∙ ground (arith, same_key_refl new)

module _ (u : Unicode) (monitored : Bool) where
  abbrev AreIn : List DiscoveryWork → List Key → Type 0
  AreIn works ks = All (λ w. has_key (work_key u w) ks ≡ true) works

  -- What the loop keeps: the tables are sound, and `existing` is of keys of the library.
  abbrev IsState : Session × List Key × ℕ → Type 0
  IsState (s, existing, added) = IsSound s × IsCovered existing (existing_keys u s)

  -- A later state: the library has the keys that it had.
  abbrev IsGrownTo : Session × List Key × ℕ → Session × List Key × ℕ → Type 0
  IsGrownTo a b = IsState b × IsCovered (existing_keys u a.0) (existing_keys u b.0)

  import_work-IsGrownTo :
      (work : DiscoveryWork) (s : Session) (existing : List Key) (n : ℕ)
      → IsState (s, existing, n)
      → IsGrownTo (s, existing, n) (import_work u monitored work (s, existing, n))
        × (has_key
              (work_key u work)
              (existing_keys u (import_work u monitored work (s, existing, n)).0)
            ≡ true)
  unfolding import_work
  import_work-IsGrownTo work s existing n (sound, covered) =
      elim (Bool-cases (has_key (work_key u work) existing)) [
        | inl known ↦ rw known (((sound, covered), (λ k h. h)), covered (work_key u work) known)
        | inr new ↦ rw new (((sound', added'), kept'), last')
      ]
    where
      by : Option ℕ × Session
      by = author_for u work.author s

      facts :
          existing_keys u (add_book u work monitored by) ≡ existing_keys u s ++ work_key u work ∷ []
      facts =
          existing_keys-add_book u work monitored s by sound
            (author_for-IsAuthorFor u work.author s sound.0)

      sound' : IsSound (add_book u work monitored by)
      sound' =
          add_book-IsSound u work monitored s by sound
            (author_for-IsAuthorFor u work.author s sound.0)

      added' :
          IsCovered (work_key u work ∷ existing) (existing_keys u (add_book u work monitored by))
      added' =
          subst (IsCovered (work_key u work ∷ existing)) (sym facts)
            (append-IsCovered existing (existing_keys u s) (work_key u work) covered)

      kept' : IsCovered (existing_keys u s) (existing_keys u (add_book u work monitored by))
      kept' =
          subst (IsCovered (existing_keys u s)) (sym facts)
            (append-IsKeptKey (existing_keys u s) (work_key u work))

      last' : has_key (work_key u work) (existing_keys u (add_book u work monitored by)) ≡ true
      last' =
          subst (λ ks. has_key (work_key u work) ks ≡ true) (sym facts)
            (last-IsCovered (existing_keys u s) (work_key u work))

  import_each-IsGrownTo :
      (works : List DiscoveryWork) (state : Session × List Key × ℕ)
      → IsState state
      → IsGrownTo state (import_each u monitored works state)
        × AreIn works (existing_keys u (import_each u monitored works state).0)
  unfolding import_each
  import_each-IsGrownTo [] state h = ((h, (λ k e. e)), tt)
  import_each-IsGrownTo (work ∷ works) (s, existing, n) h =
      let (first, here) = import_work-IsGrownTo work s existing n h in
      let (rest, more) =
        import_each-IsGrownTo works (import_work u monitored work (s, existing, n)) first.0 in
      ((rest.0, (λ k e. rest.1 k (first.1 k e))), (rest.1 (work_key u work) here, more))

  -- Works that are known are passed over.
  import_each-known :
      (works : List DiscoveryWork) (s : Session) (existing : List Key) (n : ℕ)
      → AreIn works existing
      → import_each u monitored works (s, existing, n) ≡ (s, existing, n)
  unfolding import_each import_work
  import_each-known [] s existing n h = refl
  import_each-known (work ∷ works) s existing n h =
      rw h.0 (import_each-known works s existing n h.1)

existing_keys-tell_added :
    (u : Unicode) (works : List DiscoveryWork) (n : ℕ) (s : Session)
    → existing_keys u (tell_added u works n s) ≡ existing_keys u s
unfolding existing_keys tell_added record_event book_key
existing_keys-tell_added u works zero s = refl
existing_keys-tell_added u works (suc n) s = refl

-- Where the authors have distinct ids and every author of a book is a row, importing the same works
-- a second time adds nothing and changes no row of any table, also where it should monitor the works
-- and did not before, or the reverse.
pub import_works-twice :
    (u : Unicode) (works : List DiscoveryWork) (first again : Bool) (s : Session)
    → IsSound s
    → import_works u works again (import_works u works first s).1
      ≡ (0, (import_works u works first s).1)
unfolding import_works
import_works-twice u works first again s sound =
    ap (λ (r : Session × List Key × ℕ). (r.2, tell_added u works r.2 r.0)) same
  where
    done : Session × List Key × ℕ
    done = import_each u first works (s, existing_keys u s, 0)

    after : Session
    after = tell_added u works done.2 done.0

    known : All (λ w. has_key (work_key u w) (existing_keys u after) ≡ true) works
    known =
        subst (λ ks. All (λ w. has_key (work_key u w) ks ≡ true) works)
          (sym (existing_keys-tell_added u works done.2 done.0))
          (import_each-IsGrownTo u first works (s, existing_keys u s, 0) (sound, (λ k h. h))).1

    same :
        import_each u again works (after, existing_keys u after, 0)
        ≡ (after, existing_keys u after, 0)
    same = import_each-known u again works after (existing_keys u after) 0 known
