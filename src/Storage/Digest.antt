-- ===== src/Storage/Digest.antt =====
-- hashlib.sha256 as `_key_path` uses it: a file name for each key, and no two keys share one.
use dub_manga_studio.Common.{String, ◌≡◌}

pub record Digest : Type 0 where
  pub hexdigest : String → String
  pub injective : (s t : String) → hexdigest s ≡ hexdigest t → s ≡ t
