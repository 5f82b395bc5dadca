-- ===== src/Models/Calls.antt =====
-- The operations of ModelManager that call the runtime: `load_model`, `unload_model`, `generate` and
-- `health_check`; and NoopModelRuntime, an implementation of the runtime.
use dub_manga_studio.Common.{
  ℕ, String, Bool, true, ◌&&◌, not, Option, none, some, List, [], ◌∷◌, str_eq, keep, if◌then◌else◌,
  Json, int, bool, pos, str, object, no_fields, field,
}
use dub_manga_studio.Common.Exec.{Result, ok, err, pure, raise, catch, ◌>>=◌, ◌>>◌}
use dub_manga_studio.Events.{model_loaded, model_unloaded}
use dub_manga_studio.Plugins.{list_models}
use dub_manga_studio.Plugins.Capabilities.{ModelCapabilities, contains}
use dub_manga_studio.Models.{
  loading, loaded, unloading, unloaded, failed, ModelRecord, ModelRuntime, ModelError,
  runtime_error, Ambient, is_loaded, default_instances, requested_instances, ModelOp, get_record,
  record_or_new, save_record, capabilities_of, publish,
}

-- What the manager meets where the runtime raises.
abbrev pub met : {A : Type 0} → Result String A → Result ModelError A
met (ok x) = ok x
met (err text) = err (runtime_error text)

-- A call of the runtime.
unfoldable pub run : {W A : Type 0} → (W → Result String A × W) → ModelOp W A
run call m = let (r, w) = call m.runtime in (met r, record m { runtime = w })

-- {"model_id": model_id}
abbrev pub of_model : String → Json
of_model id = object (field "model_id" (str id) no_fields)

abbrev pub of_load : String → ℕ → Json
of_load id n = object (field "model_id" (str id) (field "instances" (int (pos n)) no_fields))

abbrev pub loaded_record : Ambient → ℕ → ModelRecord → ModelRecord
loaded_record a n r = record r {
  status = loaded;
  loaded_instances = n;
  last_loaded_at = some a.now;
  last_error = none;
}

abbrev pub unloaded_record : Ambient → ModelRecord → ModelRecord
unloaded_record a r = record r {
  status = unloaded;
  loaded_instances = 0;
  last_unloaded_at = some a.now;
}

-- `empty` is the default of `metadata`, and `message_of` is str(exc).
module _ {W : Type 0} (runtime : ModelRuntime W) (empty : Json)
    (message_of : ModelError → String) where
  open runtime use {load, unload, generate, is_healthy}

  -- except Exception as exc, with the record as far as it was written
  unfoldable pub load_failed : ModelRecord → ModelError → ModelOp W Unit
  load_failed r exc = do
    save_record (record r { status = failed; last_error = some (message_of exc) })
    raise exc

  -- The body of `try` in `load_model`, and its `except`; the store does not raise.
  unfoldable pub load_now : Ambient → String → ℕ → ModelRecord → ModelOp W ModelRecord
  load_now a id n r = do
    catch (run (load id n)) (load_failed r)
    save_record (loaded_record a n r)
    catch (publish a model_loaded (of_load id n) id) (load_failed (loaded_record a n r))
    pure (loaded_record a n r)

  -- load_model(model_id, instances=)
  unfoldable pub load_model : Ambient → String → Option ℕ → ModelOp W ModelRecord
  load_model a id instances = do
    capabilities ← capabilities_of id
    r ← record_or_new empty id
    let n = requested_instances instances (default_instances capabilities)
    let starting : ModelRecord = record r { status = loading; last_error = none }
    if is_loaded r.status then pure r else (do save_record starting; load_now a id n starting)

  -- The loop of `unload_model(None)`.
  unfoldable pub unload_each : Ambient → List ModelCapabilities → ModelOp W Unit
  unload_each a [] = pure tt
  unload_each a (c ∷ cs) = do
    r ← record_or_new empty c.model_id
    save_record (unloaded_record a r)
    publish a model_unloaded (of_model c.model_id) c.model_id
    unload_each a cs

  -- unload_model(model_id)
  unfoldable pub unload_model : Ambient → Option String → ModelOp W Unit
  unload_model a none = do run (unload none); λ m. unload_each a (list_models m.registry) m
  unload_model a (some id) = do
    capabilities_of id
    r ← record_or_new empty id
    save_record (record r { status = unloading })
    run (unload (some id))
    save_record (unloaded_record a (record r { status = unloading }))
    publish a model_unloaded (of_model id) id

  abbrev pub needs_load : Option ModelRecord → Bool
  needs_load none = true
  needs_load (some r) = not (is_loaded r.status)

  -- generate(model_id, request)
  unfoldable pub generate_with : Ambient → String → Json → ModelOp W Json
  generate_with a id request = do
    capabilities_of id
    found ← get_record id
    if needs_load found then load_model a id none >> pure tt else pure tt
    run (generate id request)

  -- health_check(model_id)
  unfoldable pub health_check : String → ModelOp W Bool
  health_check id = do
    capabilities_of id
    healthy ← run (is_healthy id)
    r ← record_or_new empty id
    if not healthy && is_loaded r.status
        then save_record
            (record r { status = failed; last_error = some "runtime health check failed" })
        else pure tt
    pure healthy

-- NoopModelRuntime: the set of loaded models, as a list.
unfoldable pub noop_load : String → ℕ → List String → Result String Unit × List String
noop_load id instances set = (ok tt, if contains id set then set else id ∷ set)

unfoldable pub noop_unload : Option String → List String → Result String Unit × List String
noop_unload none set = (ok tt, [])
noop_unload (some id) set = (ok tt, keep (λ x. not (str_eq x id)) set)

-- {"ok": True, "model_id": model_id, "request": request}
unfoldable pub noop_generate : String → Json → List String → Result String Json × List String
noop_generate id request set = (
  ok (
      object
        (field "ok" (bool true) (field "model_id" (str id) (field "request" request no_fields)))),
  set,
)

unfoldable pub noop_is_healthy : String → List String → Result String Bool × List String
noop_is_healthy id set = (ok (contains id set), set)

abbrev pub noop_runtime : ModelRuntime (List String)
noop_runtime = record {
  load = noop_load;
  unload = noop_unload;
  generate = noop_generate;
  is_healthy = noop_is_healthy;
}
