-- ===== src/Storage/Queue.antt =====
-- FilesystemQueue of storage_manager/filesystem.py: three directories of message files, each
-- named by its message's id. Ids are uuid4 texts of one length, so that file names are ordered
-- as ids are. Creation times are numbers that order as their ISO texts do.
pub mod Order
pub mod Messages
pub mod Places
use dub_manga_studio.Common.{
  ℕ, ◌+◌, String, Bool, true, false, ℤ, leb_ℤ, Option, none, some, List, [], ◌∷◌, leb, leb_str,
  length, take, keep, map, sort_by, str_eq, if◌then◌else◌,
}
use dub_manga_studio.Common.Dict.{Dict, lookup, put, remove, values}

-- QueueMessage of storage_manager/models.py
pub record Message (P : Type 0) : Type 0 where
  pub id : String
  pub queue : String
  pub payload : P
  pub priority : ℤ
  pub created_at : ℕ
  pub attempts : ℕ
  pub visible_at : Option ℕ

pub record Queue (P : Type 0) : Type 0 where
  pub queued : Dict (Message P)
  pub inflight : Dict (Message P)
  pub acked : Dict (Message P)

module _ {P : Type 0} where
  -- The order of `_message_sort_key`, (-priority, created_at).
  unfoldable pub comes_before : Message P → Message P → Bool
  comes_before m n =
      if leb_ℤ m.priority n.priority
      then (if leb_ℤ n.priority m.priority then leb m.created_at n.created_at else false)
      else true

  -- QueueMessage(queue=..., payload=..., priority=...), with the id and the time that it reads
  abbrev pub new_message : String → ℕ → String → P → ℤ → Message P
  new_message id now name payload priority = record {
    id = id;
    queue = name;
    payload = payload;
    priority = priority;
    created_at = now;
    attempts = 0;
    visible_at = none;
  }

  -- enqueue(queue, payload, priority)
  unfoldable pub enqueue : String → ℕ → String → P → ℤ → Queue P → Queue P
  enqueue id now name payload priority q = record q {
    queued = put id (new_message id now name payload priority) q.queued;
  }

  -- The messages of a bucket, in the order of their file names.
  unfoldable pub files_in_order : Dict (Message P) → List (Message P)
  unfolding values sort_by leb_str
  files_in_order bucket = values (sort_by (λ (a b : String × Message P). leb_str a.0 b.0) bucket)

  -- _load_messages(bucket, queue)
  unfoldable pub load_messages : Dict (Message P) → String → List (Message P)
  unfolding comes_before files_in_order keep sort_by
  load_messages bucket name =
      sort_by comes_before (keep (λ m. str_eq m.queue name) (files_in_order bucket))

  -- The loop of `dequeue`.
  unfoldable pub take_messages : ℕ → List (Message P) → Queue P → List (String × P) × Queue P
  unfolding lookup put remove
  take_messages now [] q = ([], q)
  take_messages now (m ∷ ms) q =
      let taken = record m { attempts = m.attempts + 1; visible_at = some now } in
      let moved = record q {
        queued = remove m.id q.queued;
        inflight = put m.id taken q.inflight;
      } in
      elim (lookup m.id q.queued) [
        | none ↦ take_messages now ms q
        | some _ ↦
            let (results, after) = take_messages now ms moved in
            ((m.id, m.payload) ∷ results, after)
      ]

  -- dequeue(queue, count)
  unfoldable pub dequeue : ℕ → String → ℕ → Queue P → List (String × P) × Queue P
  unfolding take_messages load_messages
  dequeue now name count q = take_messages now (take count (load_messages q.queued name)) q

  -- peek(queue, count)
  unfoldable pub peek : String → ℕ → Queue P → List (String × P)
  unfolding load_messages
  peek name count q = map (λ m. (m.id, m.payload)) (take count (load_messages q.queued name))

  -- size(queue)
  unfoldable pub size : String → Queue P → ℕ
  unfolding load_messages
  size name q = length (load_messages q.queued name)

  -- requeue(queue, job_id)
  unfoldable pub requeue : String → Queue P → Bool × Queue P
  unfolding lookup put remove
  requeue id q = elim (lookup id q.inflight) [
    | none ↦ (false, q)
    | some m ↦ (true, record q { inflight = remove id q.inflight; queued = put id m q.queued })
  ]

  -- ack(queue, job_id)
  unfoldable pub ack : String → Queue P → Bool × Queue P
  unfolding lookup put remove
  ack id q = elim (lookup id q.inflight) [
    | none ↦ (false, q)
    | some m ↦ (true, record q { inflight = remove id q.inflight; acked = put id m q.acked })
  ]
