-- ===== src/Storage/Samples.antt =====
-- Small inputs, tests, and the properties at them.
use dub_manga_studio.Common.{
  List, true, false, ℕ, ◌≡◌, refl, arith, none, some, [], ◌∷◌, pos, sort_by, leb_str, keep,
  if◌then◌else◌, ◌≤◌, str_eq,
}
use dub_manga_studio.Common.Dict.{lookup, put, remove, values}
use dub_manga_studio.Storage.Digest.{Digest}
use dub_manga_studio.Storage.Kv
use dub_manga_studio.Storage.Kv.{Files}
use dub_manga_studio.Storage.Kv.Spec.{
  Call, sets, deletes, gets, asks, expires, nothing, value, truth, answers_files, answers_map,
}
use dub_manga_studio.Storage.Kv.Map.{answers_files-answers_map}
use dub_manga_studio.Storage.Queue
use dub_manga_studio.Storage.Queue.{Message, Queue, enqueue, dequeue, requeue, ack}
use dub_manga_studio.Storage.Queue.Messages.{IsQueue, Dequeued, dequeue_one, enqueue-IsQueue}
use dub_manga_studio.Storage.Queue.Places.{places, places_kept}

abbrev plain : Digest
plain = record { hexdigest = λ s. s; injective = λ s t e. e }

abbrev files : Files ℕ
files = Kv.set plain 10 "a" 1 none []

abbrev messages : Queue ℕ
messages =
    enqueue "y" 2 "jobs" 8 (pos 3)
      (enqueue "x" 1 "jobs" 7 (pos 0) (record { queued = []; inflight = []; acked = [] }))

program : Unit {0}
unfolding lookup put remove values sort_by leb_str keep Kv.set Kv.get Kv.read_record Kv.is_expired
    Kv.delete Kv.expiry Queue.comes_before Queue.enqueue Queue.files_in_order Queue.load_messages
    Queue.take_messages Queue.dequeue Queue.requeue Queue.ack places
program = tt

expiry_test :
    ((Kv.get plain 11 "b" (Kv.set plain 10 "b" 2 (some 5) files)).0 ≡ some 2)
    × ((Kv.get plain 15 "b" (Kv.set plain 10 "b" 2 (some 5) files)).0 ≡ none)
    × ((Kv.get plain 15 "b" (Kv.set plain 10 "b" 2 (some 5) files)).1 ≡ files)
unfolding program
expiry_test = (refl, refl, refl)

priority_test : (dequeue 3 "jobs" 5 messages).0 ≡ ("y", 8) ∷ ("x", 7) ∷ []
unfolding program
priority_test = refl

abbrev calls : List (ℕ × Call ℕ)
calls =
    (1, sets "a" 7 (some 5))
    ∷ (2, gets "a")
    ∷ (1, expires "a" 0)
    ∷ (9, gets "a")
    ∷ (0, deletes "a")
    ∷ (3, asks "a")
    ∷ []

-- A time to live of zero does not expire.
calls_test :
    answers_files plain 10 calls []
    ≡ nothing ∷ value (some 7) ∷ truth true ∷ value (some 7) ∷ nothing ∷ truth false ∷ []
unfolding program Kv.exists Kv.expire
calls_test = refl

answers_files-answers_map_example :
    answers_files plain 10 calls [] ≡ answers_map 10 calls (λ _. none)
answers_files-answers_map_example = answers_files-answers_map plain 10 calls

messages-IsQueue : IsQueue messages
messages-IsQueue =
    enqueue-IsQueue "y" 2 "jobs" 8 (pos 3) _
      (enqueue-IsQueue "x" 1 "jobs" 7 (pos 0) _ (record { keys = tt; named = tt }))

dequeue_one_example : Dequeued 3 "jobs" messages
dequeue_one_example = dequeue_one 3 "jobs" messages messages-IsQueue

one_place : (places "y" messages ≤ 1) × (places "z" messages ≡ 0)
unfolding program
one_place = (omega arith, refl)

places_kept_example :
    (places "y" (requeue "y" messages).1 ≡ places "y" messages)
    × (places "y" (ack "y" messages).1 ≡ places "y" messages)
    × (places "y" (dequeue 3 "jobs" 1 messages).1 ≡ places "y" messages)
    × (places "y" (enqueue "z" 3 "jobs" 9 (pos 1) messages)
        ≡ (if str_eq "z" "y" then 1 else places "y" messages))
places_kept_example = places_kept "y" "z" "y" "jobs" 3 1 9 (pos 1) messages one_place.0 one_place.1
