-- ===== src/Storage/Kv/Reads.antt =====
-- FilesystemKVStore: what `get` reads after the other calls.
use dub_manga_studio.Common.{
  ℕ, String, ◌≡◌, Option, none, some, arith, All, str_eq, eq_iff, if◌then◌else◌, Option-cases,
  Bool-cases, inl, inr,
}
use dub_manga_studio.Common.Dict.{lookup, lookup-put}
use dub_manga_studio.Common.Dict.Entries.{All-lookup}
use dub_manga_studio.Storage.Digest.{Digest}
use dub_manga_studio.Storage.Kv.{Record, Files, is_expired, expiry, set, read_record, get}

-- Two keys share a file only if they are one key.
pub key_eq :
    (digest : Digest) (j k : String) → str_eq (digest.hexdigest j) (digest.hexdigest k) ≡ str_eq j k
key_eq digest j k =
    ground
      (arith, eq_iff j k, eq_iff (digest.hexdigest j) (digest.hexdigest k), digest.injective j k)

module _ (digest : Digest) {V : Type 0} where
  open digest use {hexdigest}

  -- The value that a reader at `now` is given for a file.
  abbrev pub live : ℕ → Option (Record V) → Option V
  live now none = none
  live now (some r) = if is_expired now r then none else some r.value

  pub get_value :
      (now : ℕ) (key : String) (files : Files V)
      → (get digest now key files).0 ≡ live now (lookup (hexdigest key) files)
  unfolding get read_record
  get_value now key files = elim (Option-cases (lookup (hexdigest key) files)) [
    | inl e ↦ rw (e, get, read_record)
    | inr (r, e) ↦
        rw (e, get, read_record)
          (elim (Bool-cases (is_expired now r)) [ inl t ↦ rw t | inr t ↦ rw t ])
  ]

  abbrev pub value_of : Option (Record V) → Option V
  value_of none = none
  value_of (some r) = some r.value

  read_record-persistent :
      (now : ℕ) (key : String) (files : Files V)
      → All (λ (e : String × Record V). e.1.expires_at ≡ none) files
      → read_record digest now key files ≡ (lookup (hexdigest key) files, files)
  unfolding read_record is_expired
  read_record-persistent now key files h = elim (Option-cases (lookup (hexdigest key) files)) [
    | inl e ↦ rw (e, read_record)
    | inr (r, e) ↦
        let lasts : r.expires_at ≡ none =
          All-lookup (λ (e : String × Record V). e.1.expires_at ≡ none) (hexdigest key) r files h
            e in
        rw (e, read_record) (rw (lasts, is_expired))
  ]

  -- A store with no expiring file is read as it stands, and is not changed by a read.
  pub get-persistent :
      (now : ℕ) (key : String) (files : Files V)
      → All (λ (e : String × Record V). e.1.expires_at ≡ none) files
      → get digest now key files ≡ (value_of (lookup (hexdigest key) files), files)
  unfolding get
  get-persistent now key files h =
      rw (read_record-persistent now key files h, get)
        (elim (Option-cases (lookup (hexdigest key) files)) [
          | inl e ↦ rw e (rw (read_record-persistent now key files h))
          | inr (r, e) ↦ rw e (rw (read_record-persistent now key files h))
        ])

  -- A reader, then or later, sees what `set` wrote and nothing else changed.
  pub get-set :
      (now later : ℕ) (j k : String) (v : V) (ttl : Option ℕ) (files : Files V)
      → (get digest later j (set digest now k v ttl files)).0 ≡ (
          if str_eq k j
          then (if is_expired later
                (record { key = k; value = v; created_at = now; expires_at = expiry now ttl })
              then none
              else some v)
          else (get digest later j files).0)
  unfolding set
  get-set now later j k v ttl files =
      rw
        (
          get_value,
          get_value later j files,
          lookup-put (hexdigest k) (hexdigest j),
          key_eq digest k j,
        )
        (elim (Bool-cases (str_eq k j)) [ inl e ↦ rw e | inr e ↦ rw e ])
