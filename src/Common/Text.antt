-- ===== src/Common/Text.antt =====
-- Texts: a prefix put before a text, and the order of code points by which `sorted` compares.
use Prim.Native.Char.{code}
use Prim.Native.String.{String}
use mathlib.Core.Path.{◌≡◌, refl}
use mathlib.Core.Bool.{Bool, true, false}
use native.Mathlib.Omega.{arith}
use text.Mathlib.Text.{◌==◌ as str_eq}
use text.Mathlib.TextEquality.{eq_iff}
use dub_manga_studio.Common.Tests.{ltb, ◌==◌, if◌then◌else◌}

-- p + s
unfoldable pub prefixed : String → String → String
prefixed String.[] s = s
prefixed (String.◌∷◌ c p) s = String.◌∷◌ c (prefixed p s)

tail_of : String → String
tail_of String.[] = String.[]
tail_of (String.◌∷◌ c s) = s

prefixed-injective : (p s t : String) → prefixed p s ≡ prefixed p t → s ≡ t
unfolding prefixed
prefixed-injective String.[] s t e = e
prefixed-injective (String.◌∷◌ c p) s t e = prefixed-injective p s t (cc)

-- A common prefix does not change whether two keys are equal.
pub prefixed-eq : (p s t : String) → str_eq (prefixed p s) (prefixed p t) ≡ str_eq s t
prefixed-eq p s t =
    ground (arith, eq_iff s t, eq_iff (prefixed p s) (prefixed p t), prefixed-injective p s t)

-- s <= t
unfoldable pub leb_str : String → String → Bool
leb_str String.[] t = true
leb_str (String.◌∷◌ c s) String.[] = false
leb_str (String.◌∷◌ c s) (String.◌∷◌ d t) =
    let rest = leb_str s t in
    if ltb (code c) (code d) then true else if ltb (code d) (code c) then false else rest

pub leb_str_total : (s t : String) → leb_str s t ≡ false → leb_str t s ≡ true
unfolding leb_str
leb_str_total String.[] t h = absurd (cc)
leb_str_total (String.◌∷◌ c s) String.[] h = refl
leb_str_total (String.◌∷◌ c s) (String.◌∷◌ d t) h = ground (arith, leb_str_total s t)

pub leb_str_trans : (s t u : String) → leb_str s t ≡ true → leb_str t u ≡ true → leb_str s u ≡ true
unfolding leb_str
leb_str_trans String.[] t u h k = refl
leb_str_trans (String.◌∷◌ c s) String.[] u h k = absurd (cc)
leb_str_trans (String.◌∷◌ c s) (String.◌∷◌ d t) String.[] h k = absurd (cc)
leb_str_trans (String.◌∷◌ c s) (String.◌∷◌ d t) (String.◌∷◌ e u) h k =
    ground (arith, leb_str_trans s t u)

-- s.startswith(p)
unfoldable pub has_prefix : String → String → Bool
has_prefix String.[] s = true
has_prefix (String.◌∷◌ c p) String.[] = false
has_prefix (String.◌∷◌ c p) (String.◌∷◌ d s) =
    let rest = has_prefix p s in if code c == code d then rest else false
