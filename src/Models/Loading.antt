-- ===== src/Models/Loading.antt =====
-- `load_model` and `generate`.
use dub_manga_studio.Common.{ℕ, String, ◌≡◌, false, none, some, ◌⊎◌, str_eq, Json}
use dub_manga_studio.Common.Exec.{Result, ok, err}
use dub_manga_studio.Common.Dict.{Dict, lookup}
use dub_manga_studio.Models.{
  not_registered, failed, ModelRecord, ModelRuntime, ModelManager, ModelError, runtime_error,
  handler_error, new_record,
}
use dub_manga_studio.Models.Instances.{Instances}

-- The record of a model is `r`, and those of the other models are as they were.
abbrev pub OnlyRecord :
    {W : Type 0} → ModelManager W → String → ModelRecord → ModelManager W → Type 0
OnlyRecord m id r t =
    (lookup id t.records ≡ some r)
    × ((j : String) → str_eq id j ≡ false → lookup j t.records ≡ lookup j m.records)

-- The record that is there, or a new one.
abbrev pub record_of : Json → Dict ModelRecord → String → ModelRecord
record_of empty records id = elim (lookup id records) [ none ↦ new_record empty id | some r ↦ r ]

abbrev failure : (ModelError → String) → ModelError → ModelRecord → ModelRecord
failure message_of e r = record r { status = failed; last_error = some (message_of e) }

module _ {W : Type 0} (runtime : ModelRuntime W) (empty : Json)
    (message_of : ModelError → String) where
  -- What loading gives: the model is loaded, or its record says why not and the error goes on.
  abbrev pub Tried :
      ModelManager W
      → String
      → ModelRecord
      → ModelRecord
      → Result ModelError ModelRecord
      → ModelManager W
      → Type 0
  Tried m id starting done (ok r) t = (r ≡ done) × OnlyRecord m id done t
  Tried m id starting done (err e) t =
      ((text : String) × (e ≡ runtime_error text)
        × OnlyRecord m id (failure message_of e starting) t)
      ⊎ ((e ≡ handler_error) × OnlyRecord m id (failure message_of e done) t)

  -- After the call of the runtime, and after the publication.
  abbrev Called :
      ModelManager W → String → ModelRecord → Result ModelError Unit → ModelManager W → Type 0
  Called m id r (ok _) t = OnlyRecord m id r t
  Called m id r (err e) t =
      (text : String) × (e ≡ runtime_error text) × OnlyRecord m id (failure message_of e r) t

  abbrev Told :
      ModelManager W → String → ModelRecord → Result ModelError Unit → ModelManager W → Type 0
  Told m id r (ok _) t = OnlyRecord m id r t
  Told m id r (err e) t = (e ≡ handler_error) × OnlyRecord m id (failure message_of e r) t

  -- The runtime was called once, for this model and these instances, and what became of it.
  abbrev pub Ran : String → ℕ → W → Result ModelError ModelRecord → ModelManager W → Type 0
  Ran id n w (ok _) t = ((runtime.load id n w).0 ≡ ok tt) × (t.runtime ≡ (runtime.load id n w).1)
  Ran id n w (err (runtime_error text)) t =
      ((runtime.load id n w).0 ≡ err text) × (t.runtime ≡ (runtime.load id n w).1)
  Ran id n w (err handler_error) t =
      ((runtime.load id n w).0 ≡ ok tt) × (t.runtime ≡ (runtime.load id n w).1)
  Ran id n w (err (not_registered _)) t = ⊥
