-- ===== src/Storage/Kv/Shown.antt =====
-- What the files of FilesystemKVStore show of a map, and how each call keeps it.
use dub_manga_studio.Common.{
  ℕ, ◌≤◌, String, ◌≡◌, refl, sym, ap, subst, ◌∙◌, true, false, Option, none, some, arith, str_eq,
  eq_iff, if◌then◌else◌, Option-cases, Bool-cases, inl, inr,
}
use dub_manga_studio.Common.Dict.{lookup, remove, lookup-put, lookup-remove}
use dub_manga_studio.Storage.Digest.{Digest}
use dub_manga_studio.Storage.Kv.{
  Record, Files, is_expired, expiry, set, delete, read_record, get, exists, ttl, expire,
}
use dub_manga_studio.Storage.Kv.Reads.{key_eq}
use dub_manga_studio.Storage.Kv.Spec.{
  Entry, Map, past, seen, written, value_of, is_there, time_left,
}

past_later : (now t : ℕ) (e : Option ℕ) → now ≤ t → past now e ≡ true → past t e ≡ true
past_later now t none h p = absurd (cc)
past_later now t (some x) h p = ground (arith, p, h)

module _ {V : Type 0} where
  abbrev pub entry_of : Option (Record V) → Option (Entry V)
  entry_of none = none
  entry_of (some r) = some (r.value, r.expires_at)

  -- The files show what the map shows, from now on.
  abbrev pub Shows : Digest → ℕ → Files V → Map V → Type 0
  Shows digest now files m =
      (j : String) (t : ℕ)
      → now ≤ t
      → seen t (entry_of (lookup (digest.hexdigest j) files)) ≡ seen t (m j)

  expired-past : (now : ℕ) (r : Record V) → is_expired now r ≡ past now r.expires_at
  unfolding is_expired
  expired-past now r = elim (Option-cases r.expires_at) [
    | inl e ↦ rw (is_expired, e) refl
    | inr (t, e) ↦ rw (is_expired, e) refl
  ]

  module _ (digest : Digest) where
    open digest use {hexdigest}

    pub set-Shows :
        (now : ℕ) (k : String) (v : V) (n : Option ℕ) (files : Files V) (m : Map V)
        → Shows digest now files m
        → Shows digest now (set digest now k v n files) (written k (v, expiry now n) m)
    unfolding set
    set-Shows now k v n files m h j t later = elim (Bool-cases (str_eq k j)) [
      | inl e ↦ rw (lookup-put (hexdigest k) (hexdigest j), key_eq digest k j) (rw e refl)
      | inr e ↦ rw (lookup-put (hexdigest k) (hexdigest j), key_eq digest k j) (rw e (h j t later))
    ]

    lookup-removed :
        (j k : String) (files : Files V)
        → lookup (hexdigest j) (remove (hexdigest k) files)
          ≡ (if str_eq k j then none else lookup (hexdigest j) files)
    lookup-removed j k files =
        lookup-remove (hexdigest k) (hexdigest j) files ∙ rw (key_eq digest k j) refl

    -- Removing a file that nobody sees any more.
    remove-Shows :
        (now : ℕ) (k : String) (r : Record V) (files : Files V) (m : Map V)
        → Shows digest now files m
        → lookup (hexdigest k) files ≡ some r
        → past now r.expires_at ≡ true
        → Shows digest now (remove (hexdigest k) files) m
    remove-Shows now k r files m h e p j t later = elim (Bool-cases (str_eq k j)) [
      | inr other ↦ rw (lookup-removed j k files) (rw other (h j t later))
      | inl same ↦
          let key : k ≡ j = (eq_iff k j).0 same in
          let found : lookup (hexdigest j) files ≡ some r =
            subst (λ x. lookup (hexdigest x) files ≡ some r) key e in
          let gone : seen t (m j) ≡ none =
            sym (h j t later) ∙ rw found (rw (past_later now t r.expires_at later p) refl) in
          rw (lookup-removed j k files) (rw same (sym gone))
    ]

    -- What a read finds, and what it leaves.
    abbrev LooksUp : ℕ → String → Files V → Map V → Type 0
    LooksUp now k files m =
        (entry_of (read_record digest now k files).0 ≡ seen now (m k))
        × Shows digest now (read_record digest now k files).1 m

    pub read_record-Shows :
        (now : ℕ) (k : String) (files : Files V) (m : Map V)
        → Shows digest now files m
        → LooksUp now k files m
    unfolding read_record delete
    read_record-Shows now k files m h = elim (Option-cases (lookup (hexdigest k) files)) [
      | inl e ↦ rw (read_record, e) ((rw e at (h k now (omega arith))), h)
      | inr (r, e) ↦
          let at_now : seen now (some (r.value, r.expires_at)) ≡ seen now (m k) =
            rw e at (h k now (omega arith)) in
          elim (Bool-cases (past now r.expires_at)) [
            | inl p ↦
                let gone : none ≡ seen now (m k) = rw p at at_now in
                let expired : is_expired now r ≡ true = expired-past now r ∙ p in
                rw (read_record, e)
                  (rw expired (gone, rw (delete, e) (remove-Shows now k r files m h e p)))
            | inr p ↦
                let there : some (r.value, r.expires_at) ≡ seen now (m k) = rw p at at_now in
                let lives : is_expired now r ≡ false = expired-past now r ∙ p in
                rw (read_record, e) (rw lives (there, h))
          ]
    ]

    pub get-read :
        (now : ℕ) (k : String) (files : Files V)
        → let (found, files') = read_record digest now k files in
          get digest now k files ≡ (value_of (entry_of found), files')
    unfolding get
    get-read now k files = elim (Option-cases (read_record digest now k files).0) [
      | inl e ↦ rw (get, e) refl
      | inr (r, e) ↦ rw (get, e) refl
    ]

    pub exists-read :
        (now : ℕ) (k : String) (files : Files V)
        → let (found, files') = read_record digest now k files in
          exists digest now k files ≡ (is_there (entry_of found), files')
    unfolding exists
    exists-read now k files = elim (Option-cases (read_record digest now k files).0) [
      | inl e ↦ rw (exists, e) refl
      | inr (r, e) ↦ rw (exists, e) refl
    ]

    pub ttl-read :
        (now : ℕ) (k : String) (files : Files V)
        → let (found, files') = read_record digest now k files in
          ttl digest now k files ≡ (time_left now (entry_of found), files')
    unfolding ttl
    ttl-read now k files = elim (Option-cases (read_record digest now k files).0) [
      | inl e ↦ rw (ttl, e) refl
      | inr (r, e) ↦ elim (Option-cases r.expires_at) [
        | inl x ↦ rw (ttl, e) (rw x refl)
        | inr (t, x) ↦ rw (ttl, e) (rw x refl)
      ]
    ]

    pub delete-Shows :
        (now : ℕ) (k : String) (files : Files V) (m : Map V)
        → Shows digest now files m
        → Shows digest now (delete digest k files).1 (λ j. if str_eq k j then none else m j)
    unfolding delete
    delete-Shows now k files m h j t later = elim (Option-cases (lookup (hexdigest k) files)) [
      | inl e ↦ elim (Bool-cases (str_eq k j)) [
        | inr other ↦ rw (delete, e) (rw other (h j t later))
        | inl same ↦
            let key : k ≡ j = (eq_iff k j).0 same in
            let found : lookup (hexdigest j) files ≡ none =
              subst (λ x. lookup (hexdigest x) files ≡ none) key e in
            rw (delete, e) (rw same (rw found refl))
      ]
      | inr (r, e) ↦ elim (Bool-cases (str_eq k j)) [
        | inr other ↦ rw (delete, e) (rw (lookup-removed j k files) (rw other (h j t later)))
        | inl same ↦ rw (delete, e) (rw (lookup-removed j k files) (rw same refl))
      ]
    ]

    pub expire-none :
        (now : ℕ) (k : String) (n : ℕ) (files : Files V)
        → (read_record digest now k files).0 ≡ none
        → expire digest now k n files ≡ (false, (read_record digest now k files).1)
    unfolding expire
    expire-none now k n files e =
        rw (expire, get-read now k files, e)
          (ap (λ (x : Option V × Files V). (false, x.1)) (get-read now k files))

    pub expire-some :
        (now : ℕ) (k : String) (n : ℕ) (files : Files V) (r : Record V)
        → (read_record digest now k files).0 ≡ some r
        → expire digest now k n files
          ≡ (true, set digest now k r.value (some n) (read_record digest now k files).1)
    unfolding expire
    expire-some now k n files r e =
        rw (expire, get-read now k files, e)
          (ap (λ (x : Option V × Files V). (true, set digest now k r.value (some n) x.1))
            (get-read now k files))
