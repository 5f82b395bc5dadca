-- ===== src/Batches/Versions.antt =====
-- Saving and loading the versions of a batch.
use dub_manga_studio.Common.{
  ℕ, ◌+◌, ◌≤◌, ◌<◌, String, ◌≡◌, refl, Bool, ◌&&◌, none, some, List, [], ◌∷◌, ◌==◌, length, keep,
  if◌then◌else◌, Bool-cases, inl, inr, arith, All, All-map,
}
use dub_manga_studio.Batches.{
  Version, Edition, of_batch, is_file, write_version, save_batch_version, load_batch_version,
}

-- How many versions of a batch are saved.
unfoldable pub saved : ℕ → List Version → ℕ
unfolding keep
saved batch_no vs = length (keep (of_batch batch_no) vs)

-- The versions of each batch are numbered up to how many there are.
abbrev pub IsNumbered : List Version → Type 0
IsNumbered vs = All (λ v. v.version ≤ saved v.batch vs) vs

load-write_version :
    (v : Version) (vs : List Version) (b n : ℕ)
    → load_batch_version b n (write_version v vs)
      ≡ (if v.batch == b && v.version == n then some v else load_batch_version b n vs)
unfolding load_batch_version write_version
load-write_version v [] b n = refl
load-write_version v (w ∷ ws) b n = ground (arith, load-write_version v ws b n)

-- Beyond the last number there is no version.
load-above :
    (b m n : ℕ) (vs : List Version)
    → All (λ v. v.batch ≡ b → v.version ≤ m) vs
    → m < n
    → load_batch_version b n vs ≡ none
unfolding load_batch_version
load-above b m n [] h less = refl
load-above b m n (v ∷ vs) h less =
    let rest = load-above b m n vs h.1 less in
    elim (Bool-cases (is_file b n v)) [
      | inl e ↦
          let same : v.batch ≡ b = ground arith in
          let low = h.0 same in absurd (ground (arith, low, less, e))
      | inr e ↦ rw e rest
    ]

one_if : Bool → ℕ
one_if b = if b then 1 else 0

-- A new file is one more version of its batch.
saved-write_version :
    (b : ℕ) (v : Version) (vs : List Version)
    → load_batch_version v.batch v.version vs ≡ none
    → saved b (write_version v vs) ≡ saved b vs + one_if (v.batch == b)
unfolding saved keep write_version load_batch_version one_if
saved-write_version b v [] e = ground arith
saved-write_version b v (w ∷ ws) e = elim (Bool-cases (is_file v.batch v.version w)) [
  | inl t ↦ absurd (let e' = rw t at e in cc)
  | inr t ↦
      let rest = saved-write_version b v ws (rw t at e) in
      elim (Bool-cases (w.batch == b)) [
        | inl u ↦ rw t (rw u (omega (arith, rest)))
        | inr u ↦ rw t (rw u rest)
      ]
]

All-write_version :
    (P : Version → Type 0) (v : Version) (vs : List Version)
    → P v
    → All P vs
    → All P (write_version v vs)
unfolding write_version
All-write_version P v [] p h = (p, tt)
All-write_version P v (w ∷ ws) p h = elim (Bool-cases (is_file v.batch v.version w)) [
  | inl t ↦ rw t (p, h.1)
  | inr t ↦ rw t (h.0, All-write_version P v ws p h.1)
]

-- The version that is saved for a batch.
abbrev pub new_version : ℕ → ℕ → List String → String → String → List Version → Version
new_version now batch_no lines provider model vs = record {
  batch = batch_no;
  version = saved batch_no vs + 1;
  provider = provider;
  model = model;
  lines = lines;
  ts = now;
}

written-IsNumbered :
    (v : Version) (vs : List Version)
    → IsNumbered vs
    → load_batch_version v.batch v.version vs ≡ none
    → v.version ≡ saved v.batch vs + 1
    → IsNumbered (write_version v vs)
unfolding one_if
written-IsNumbered v vs h new number =
    All-write_version (λ w. w.version ≤ saved w.batch (write_version v vs)) v vs
      (let grown = saved-write_version v.batch v vs new in ground (arith, grown, number))
      (All-map
        (λ w below. let grown = saved-write_version w.batch v vs new in omega (arith, grown, below))
        vs h)

-- Where the versions of each batch are numbered up to how many there are, a new version gets a
-- number that is not in use, so that no saved version is overwritten. It is then loaded under that
-- number, each other version as before, and the versions are numbered so again.
pub save_batch_version_lem :
    (now batch_no : ℕ) (lines : List String) (provider model : String) (e : Edition)
    → IsNumbered e.versions
    → let (ver, after) = save_batch_version now batch_no lines provider model e in
      (load_batch_version batch_no ver e.versions ≡ none)
      × IsNumbered after.versions
      × ((b n : ℕ)
          → load_batch_version b n after.versions ≡ (
              if batch_no == b && ver == n
              then some (new_version now batch_no lines provider model e.versions)
              else load_batch_version b n e.versions))
unfolding save_batch_version saved
save_batch_version_lem now batch_no lines provider model e h =
    let v : Version = new_version now batch_no lines provider model e.versions in
    let new =
      load-above batch_no (saved batch_no e.versions) (saved batch_no e.versions + 1) e.versions
        (All-map (λ w below same. rw same at below) e.versions h) (omega arith) in
    (new, written-IsNumbered v e.versions h new refl, (λ b n. load-write_version v e.versions b n))
