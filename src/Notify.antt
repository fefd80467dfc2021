-- ===== src/Notify.antt =====
-- src/libarr/notify.py, and the columns of `Settings` in src/libarr/config.py that the cycles read.
use libarr.Prelude.{
  Text, is_empty, Bool, false, not, List, [], ◌∷◌, ◌++◌, map, select, if◌then◌else◌, ◌==◌,
}
use libarr.Python.{Unicode, strip}

pub record Settings : Type 0 where
  pub apprise_urls : Text
  pub library_dir : Text
  pub import_template : Text
  pub import_mode : Text
  pub conversion_out_dir : Text

-- `urls.split(",")`: `cur` is the part so far.
split_commas : Text → Text → List Text
split_commas cur [] = cur ∷ []
split_commas cur (c ∷ t) =
    let closed = cur ∷ split_commas [] t in
    let longer = split_commas (cur ++ c ∷ []) t in if c == b',' then closed else longer

module _ (u : Unicode) (settings : Settings) where
  unfoldable pub configured : Bool
  configured = not (is_empty settings.apprise_urls)

  unfoldable pub services : List Text
  unfolding split_commas strip
  services =
      select (λ t. not (is_empty t))
        (map (strip u.is_space) (split_commas [] settings.apprise_urls))

  -- `send` is Apprise: it gets the services, the title and the body.
  module _ {W : Type 0} (send : List Text → Text → Text → W → Bool × W) where
    unfoldable pub notify : Text → Text → W → Bool × W
    unfolding configured services
    notify title body w = if configured then send services title body w else (false, w)
