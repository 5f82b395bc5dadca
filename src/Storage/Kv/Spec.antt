-- ===== src/Storage/Kv/Spec.antt =====
-- FilesystemKVStore as a map that forgets nothing: the specification, which models no code, and the
-- same calls on the files.
use dub_manga_studio.Common.{
  ℕ, ◌+◌, ◌-◌, String, Bool, true, false, Option, none, some, List, [], ◌∷◌, str_eq, if◌then◌else◌,
  leb,
}
use dub_manga_studio.Storage.Digest.{Digest}
use dub_manga_studio.Storage.Kv.{Files, expiry, set, delete, get, exists, ttl, expire}

-- A value, and when it expires.
abbrev pub Entry : Type 0 → Type 0
Entry V = V × Option ℕ

abbrev pub Map : Type 0 → Type 0
Map V = String → Option (Entry V)

abbrev pub past : ℕ → Option ℕ → Bool
past now none = false
past now (some t) = leb t now

-- The calls, and what they answer. `delete` answers whether there was a file, which depends on
-- whether an expired one was read before, so that its answer is left out.
pub data Call (V : Type 0) : Type 0 where
  sets : String → V → Option ℕ → Call V
  deletes gets asks asks_ttl : String → Call V
  expires : String → ℕ → Call V

pub data Answer (V : Type 0) : Type 0 where
  nothing : Answer V
  value : Option V → Answer V
  truth : Bool → Answer V
  seconds : Option ℕ → Answer V

module _ {V : Type 0} where
  -- What a reader at `now` sees of an entry.
  abbrev pub seen : ℕ → Option (Entry V) → Option (Entry V)
  seen now none = none
  seen now (some e) = if past now e.1 then none else some e

  abbrev pub written : String → Entry V → Map V → Map V
  written k e m j = if str_eq k j then some e else m j

  abbrev pub value_of : Option (Entry V) → Option V
  value_of none = none
  value_of (some e) = some e.0

  abbrev pub is_there : Option (Entry V) → Bool
  is_there none = false
  is_there (some e) = true

  abbrev pub time_left : ℕ → Option (Entry V) → Option ℕ
  time_left now none = none
  time_left now (some (v, none)) = none
  time_left now (some (v, some t)) = some (t - now)

  abbrev pub extended : ℕ → String → ℕ → Option (Entry V) → Map V → Map V
  extended now k n none m = m
  extended now k n (some e) m = written k (e.0, expiry now (some n)) m

  -- One call on the map.
  abbrev pub answer_map : ℕ → Call V → Map V → Answer V × Map V
  answer_map now (sets k v n) m = (nothing, written k (v, expiry now n) m)
  answer_map now (deletes k) m = (nothing, (λ j. if str_eq k j then none else m j))
  answer_map now (gets k) m = (value (value_of (seen now (m k))), m)
  answer_map now (asks k) m = (truth (is_there (seen now (m k))), m)
  answer_map now (asks_ttl k) m = (seconds (time_left now (seen now (m k))), m)
  answer_map now (expires k n) m =
      (truth (is_there (seen now (m k))), extended now k n (seen now (m k)) m)

  -- One call on the files.
  abbrev pub answer_files : Digest → ℕ → Call V → Files V → Answer V × Files V
  answer_files digest now (sets k v n) files = (nothing, set digest now k v n files)
  answer_files digest now (deletes k) files = (nothing, (delete digest k files).1)
  answer_files digest now (gets k) files =
      (value (get digest now k files).0, (get digest now k files).1)
  answer_files digest now (asks k) files =
      (truth (exists digest now k files).0, (exists digest now k files).1)
  answer_files digest now (asks_ttl k) files =
      (seconds (ttl digest now k files).0, (ttl digest now k files).1)
  answer_files digest now (expires k n) files =
      (truth (expire digest now k n files).0, (expire digest now k n files).1)

  -- A program: before each call some time passes.
  abbrev pub answers_map : ℕ → List (ℕ × Call V) → Map V → List (Answer V)
  answers_map now [] m = []
  answers_map now ((wait, c) ∷ calls) m =
      let step = answer_map (now + wait) c m in step.0 ∷ answers_map (now + wait) calls step.1

  abbrev pub answers_files : Digest → ℕ → List (ℕ × Call V) → Files V → List (Answer V)
  answers_files digest now [] files = []
  answers_files digest now ((wait, c) ∷ calls) files =
      let step = answer_files digest (now + wait) c files in
      step.0 ∷ answers_files digest (now + wait) calls step.1
