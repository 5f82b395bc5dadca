-- ===== src/Storage/Kv/Map.antt =====
-- FilesystemKVStore as a map: a program of calls has the same answers from the files as from a map
-- that forgets nothing.
use dub_manga_studio.Common.{
  ℕ, ◌+◌, ◌≡◌, refl, sym, ap, ◌∙◌, none, some, List, [], ◌∷◌, arith, Option-cases, inl, inr,
}
use dub_manga_studio.Common.Dict.{lookup}
use dub_manga_studio.Storage.Digest.{Digest}
use dub_manga_studio.Storage.Kv.{Files, read_record}
use dub_manga_studio.Storage.Kv.Spec.{
  Map, Call, sets, deletes, gets, asks, asks_ttl, expires, Answer, value, truth, seconds, seen,
  value_of, is_there, time_left, answer_map, answer_files, answers_map, answers_files,
}
use dub_manga_studio.Storage.Kv.Shown.{
  entry_of, Shows, set-Shows, read_record-Shows, get-read, exists-read, ttl-read, delete-Shows,
  expire-none, expire-some,
}

module _ {V : Type 0} (digest : Digest) where
  -- The answers are the same, and the files still show the map.
  abbrev Same : ℕ → Answer V × Files V → Answer V × Map V → Type 0
  Same now x y = (x.0 ≡ y.0) × Shows digest now x.1 y.1

  answer_files-Same :
      (now : ℕ) (c : Call V) (files : Files V) (m : Map V)
      → Shows digest now files m
      → Same now (answer_files digest now c files) (answer_map now c m)
  answer_files-Same now (sets k v n) files m h = (refl, set-Shows digest now k v n files m h)
  answer_files-Same now (deletes k) files m h = (refl, delete-Shows digest now k files m h)
  answer_files-Same now (gets k) files m h =
      let read = read_record-Shows digest now k files m h in
      rw (get-read digest now k files) (ap (λ x. value (value_of x)) read.0, read.1)
  answer_files-Same now (asks k) files m h =
      let read = read_record-Shows digest now k files m h in
      rw (exists-read digest now k files) (ap (λ x. truth (is_there x)) read.0, read.1)
  answer_files-Same now (asks_ttl k) files m h =
      let read = read_record-Shows digest now k files m h in
      rw (ttl-read digest now k files) (ap (λ x. seconds (time_left now x)) read.0, read.1)
  answer_files-Same now (expires k n) files m h =
      let read = read_record-Shows digest now k files m h in
      let left : Files V = (read_record digest now k files).1 in
      elim (Option-cases (read_record digest now k files).0) [
        | inl e ↦
            let unseen : seen now (m k) ≡ none = sym read.0 ∙ ap entry_of e in
            rw (expire-none digest now k n files e) (rw unseen (refl, read.1))
        | inr (r, e) ↦
            let sees : seen now (m k) ≡ some (r.value, r.expires_at) = sym read.0 ∙ ap entry_of e in
            rw (expire-some digest now k n files r e)
              (rw sees (refl, set-Shows digest now k r.value (some n) left m read.1))
      ]

  answers-Same :
      (now : ℕ) (calls : List (ℕ × Call V)) (files : Files V) (m : Map V)
      → Shows digest now files m
      → answers_files digest now calls files ≡ answers_map now calls m
  answers-Same now [] files m h = refl
  answers-Same now ((wait, c) ∷ calls) files m h =
      let step =
        answer_files-Same (now + wait) c files m (λ j t later. h j t (omega (arith, later))) in
      let rest =
        answers-Same (now + wait) calls (answer_files digest (now + wait) c files).1
          (answer_map (now + wait) c m).1 step.1 in
      cc

  -- A store of files that is empty at first answers every program of calls, with any time
  -- between them, as a map from keys to values with their times of expiry: the files that hold a
  -- key, and when an expired one is deleted, cannot be seen. The answer of `delete` is left out.
  pub answers_files-answers_map :
      (now : ℕ) (calls : List (ℕ × Call V))
      → answers_files digest now calls [] ≡ answers_map now calls (λ _. none)
  unfolding lookup
  answers_files-answers_map now calls = answers-Same now calls [] (λ _. none) (λ j t later. refl)
