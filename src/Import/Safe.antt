-- ===== src/Import/Safe.antt =====
-- src/libarr/acquisition/import_pipeline.py: the check of a zip's members, and `_sanitize_segment`.
use libarr.Prelude.{
  inr, inl, ◌⊎◌, is_some, ℕ, Text, ◌≡◌, refl, Bool, true, false, not, Option, none, some, List, [],
  ◌∷◌, arith, find, Result, ok, err, All,
}
use libarr.Python.{Unicode}
use libarr.Python.Paths.{PurePath}
use libarr.Import.Disk.{Raised, Files, is_inside, extract_unless, extract_if_safe, safe_extract_zip}
use libarr.Import.Naming.{is_forbidden}

module _ {W : Type 0} (u : Unicode) (fs : Files W) where
  none_unsafe :
      (p : Text → Bool) (ms : List Text)
      → find (λ m. not (p m)) ms ≡ none
      → All (λ m. p m ≡ true) ms
  none_unsafe p [] e = tt
  none_unsafe p (m ∷ ms) e = ground (arith, none_unsafe p ms)

  -- The archive was left alone, with an exception.
  abbrev pub IsRefused : W → Option Raised × W → Type 0
  IsRefused w end_ = (is_some end_.0 ≡ true) × (end_.1 ≡ w)

  -- The archive was handed to `zipfile`, and every member of it is inside the target.
  abbrev pub IsExtracted : PurePath → PurePath → W → Option Raised × W → List Text → Type 0
  IsExtracted archive target w end_ members =
      (fs.zip_members archive w ≡ ok members)
      × All (λ m. is_inside u fs target w m ≡ true) members
      × (end_ ≡ fs.extract_zip archive target w)

  abbrev IsSafe : PurePath → PurePath → W → Option Raised × W → Type 0
  IsSafe archive target w end_ =
      IsRefused w end_ ⊎ ((members : List Text) × IsExtracted archive target w end_ members)

  extract_unless-IsSafe :
      (archive target : PurePath) (w : W) (members : List Text) (unsafe : Option Text)
      → find (λ m. not (is_inside u fs target w m)) members ≡ unsafe
      → fs.zip_members archive w ≡ ok members
      → IsSafe archive target w (extract_unless u fs archive target unsafe w)
  unfolding extract_unless
  extract_unless-IsSafe archive target w members (some m) e read = inl (refl, refl)
  extract_unless-IsSafe archive target w members none e read =
      inr (members, (read, none_unsafe (is_inside u fs target w) members e, refl))

  extract_if_safe-IsSafe :
      (archive target : PurePath) (w : W) (read : Result Raised (List Text))
      → fs.zip_members archive w ≡ read
      → IsSafe archive target w (extract_if_safe u fs archive target read w)
  unfolding extract_if_safe
  extract_if_safe-IsSafe archive target w (err e) read = inl (refl, refl)
  extract_if_safe-IsSafe archive target w (ok members) read =
      extract_unless-IsSafe archive target w members _ refl read

  -- The extraction of a zip either raises and leaves the outside world as it was, or every member of
  -- the archive, joined to the target and resolved, is a path below the resolved target, and the
  -- call does what `extractall` does.
  pub safe_extract_zip-IsExtracted :
      (archive target : PurePath) (w : W)
      → IsRefused w (safe_extract_zip u fs archive target w)
        ⊎ ((members : List Text) × IsExtracted archive target w
              (safe_extract_zip u fs archive target w)
              members)
  unfolding safe_extract_zip
  safe_extract_zip-IsExtracted archive target w =
      extract_if_safe-IsSafe archive target w (fs.zip_members archive w) refl

-- A character that `_sanitize_segment` keeps.
abbrev pub IsAllowed : ℕ → Type 0
IsAllowed c = is_forbidden c ≡ false
