-- ===== src/Storage/Kv.antt =====
-- FilesystemKVStore of storage_manager/filesystem.py: a directory of JSON files, one for each
-- key, named by the digest of the key. Values are typed: writing and reading JSON is pydantic's
-- and json's, and gives the value back. Times are in seconds since the epoch.
pub mod Reads
pub mod Spec
pub mod Shown
pub mod Map
use dub_manga_studio.Common.{
  ℕ, zero, suc, ◌+◌, ◌-◌, String, Bool, true, false, ℤ, pos, neg, ◌+ℤ◌, Option, none, some, List,
  [], ◌∷◌, leb, leb_str, sort_by, if◌then◌else◌,
}
use dub_manga_studio.Common.Dict.{Dict, lookup, put, remove}
use dub_manga_studio.Storage.Digest.{Digest}

pub record Record (V : Type 0) : Type 0 where
  pub key : String
  pub value : V
  pub created_at : ℕ
  pub expires_at : Option ℕ

abbrev pub Files : Type 0 → Type 0
Files V = Dict (Record V)

-- `expires_at and fromisoformat(expires_at) <= _utc_now()`
unfoldable pub is_expired : {V : Type 0} → ℕ → Record V → Bool
is_expired now r = elim r.expires_at [ none ↦ false | some t ↦ leb t now ]

-- `ttl` of zero is no expiry, as `if ttl` reads it.
unfoldable pub expiry : ℕ → Option ℕ → Option ℕ
expiry now none = none
expiry now (some zero) = none
expiry now (some (suc t)) = some (now + suc t)

module _ (digest : Digest) {V : Type 0} where
  open digest use {hexdigest}

  -- set(key, value, ttl)
  unfoldable pub set : ℕ → String → V → Option ℕ → Files V → Files V
  unfolding expiry
  set now key value ttl files =
      put (hexdigest key)
        (record { key = key; value = value; created_at = now; expires_at = expiry now ttl }) files

  -- delete(key)
  unfoldable pub delete : String → Files V → Bool × Files V
  delete key files = elim (lookup (hexdigest key) files) [
    | none ↦ (false, files)
    | some r ↦ (true, remove (hexdigest key) files)
  ]

  -- _read_record(key): an expired file is deleted on the way.
  unfoldable pub read_record : ℕ → String → Files V → Option (Record V) × Files V
  unfolding is_expired delete
  read_record now key files = elim (lookup (hexdigest key) files) [
    | none ↦ (none, files)
    | some r ↦ if is_expired now r then (none, (delete key files).1) else (some r, files)
  ]

  -- get(key)
  unfoldable pub get : ℕ → String → Files V → Option V × Files V
  unfolding read_record
  get now key files =
      let (found, files') = read_record now key files in
      elim found [ none ↦ (none, files') | some r ↦ (some r.value, files') ]

  -- exists(key)
  unfoldable pub exists : ℕ → String → Files V → Bool × Files V
  unfolding read_record
  exists now key files =
      let (found, files') = read_record now key files in
      elim found [ none ↦ (false, files') | some r ↦ (true, files') ]

  -- The loop of `keys`, over the paths in order; `matches` is fnmatch against the pattern.
  unfoldable pub keys_from :
      ℕ → (String → Bool) → List (String × Record V) → Files V → List String × Files V
  unfolding exists
  keys_from now matches [] files = ([], files)
  keys_from now matches ((name, r) ∷ paths) files = elim (matches r.key) [
    | true ↦
        let (there, files') = exists now r.key files in
        let (hits, visited) = keys_from now matches paths files' in
        (if there then r.key ∷ hits else hits, visited)
    | false ↦ keys_from now matches paths files
  ]

  -- keys(pattern)
  unfoldable pub keys : ℕ → (String → Bool) → Files V → List String × Files V
  unfolding keys_from sort_by leb_str
  keys now matches files =
      keys_from now matches (sort_by (λ (a b : String × Record V). leb_str a.0 b.0) files) files

  -- ttl(key), in whole seconds: `none` without a record or an expiry.
  unfoldable pub ttl : ℕ → String → Files V → Option ℕ × Files V
  unfolding read_record
  ttl now key files =
      let (found, files') = read_record now key files in
      elim found [
        | none ↦ (none, files')
        | some r ↦ elim r.expires_at [ none ↦ (none, files') | some t ↦ (some (t - now), files') ]
      ]

  -- expire(key, ttl)
  unfoldable pub expire : ℕ → String → ℕ → Files V → Bool × Files V
  unfolding get set
  expire now key seconds files =
      let (found, files') = get now key files in
      elim found [ none ↦ (false, files') | some v ↦ (true, set now key v (some seconds) files') ]

module _ (digest : Digest) where
  -- incr(key, amount), on the store's integers
  unfoldable pub incr : ℕ → String → ℤ → Files ℤ → ℤ × Files ℤ
  unfolding read_record set
  incr now key amount files =
      let (found, files') = read_record digest now key files in
      let current = elim found as (λ _. ℤ) [ none ↦ pos 0 | some r ↦ r.value ] in
      (current +ℤ amount, set digest now key (current +ℤ amount) none files')

  -- decr(key, amount)
  unfoldable pub decr : ℕ → String → ℤ → Files ℤ → ℤ × Files ℤ
  unfolding incr
  decr now key amount files = incr now key (neg amount) files
