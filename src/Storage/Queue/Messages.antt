-- ===== src/Storage/Queue/Messages.antt =====
-- FilesystemQueue: where each message is, and what `dequeue` of one message does.
use dub_manga_studio.Common.{
  All-map, ℕ, ◌+◌, ℤ, String, ◌≡◌, refl, true, List, [], ◌∷◌, some, arith, All, subst, All-intro,
  All-of-Any, str_eq, inl, inr, ◌⊎◌,
}
use dub_manga_studio.Common.Dict.{lookup, put, remove}
use dub_manga_studio.Common.Dict.Entries.{
  HasKeys, lookup-Holds, HasKeys-put, HasKeys-remove, Every-put, Every-remove,
}
use dub_manga_studio.Storage.Queue.{
  Message, Queue, load_messages, take_messages, enqueue, dequeue, ack,
}
use dub_manga_studio.Storage.Queue.Order.{
  Earlier, comes_before-Earlier, All-load_messages, All-load_messages_inv, load_messages-first,
}

module _ {P : Type 0} where
  -- The queued directory: one file for each message, named by the message's id.
  pub record IsQueue (q : Queue P) : Type 0 where
    pub keys : HasKeys q.queued
    pub named : All (λ (e : String × Message P). e.0 ≡ e.1.id) q.queued

  Holds-self :
      (q : Queue P)
      → IsQueue q
      → All (λ (e : String × Message P). lookup e.1.id q.queued ≡ some e.1) q.queued
  Holds-self q v = All-intro _ q.queued λ e held.
      let (a, named, same) = All-of-Any q.queued v.named held in
      let key : e.0 ≡ e.1.id = rw same at named in
      subst (λ k. lookup k q.queued ≡ some e.1) key (lookup-Holds e.0 e.1 q.queued v.keys held)

  -- The queue after `dequeue` took `m`.
  abbrev pub moved : ℕ → Message P → Queue P → Queue P
  moved now m q = record q {
    queued = remove m.id q.queued;
    inflight = put m.id (record m { attempts = m.attempts + 1; visible_at = some now }) q.inflight;
  }

  abbrev pub InQueue : String → (Message P → Type 0) → Queue P → Type 0
  InQueue name Q q = All (λ (e : String × Message P). str_eq e.1.queue name ≡ true → Q e.1) q.queued

  abbrev pub Dequeued : ℕ → String → Queue P → Type 0
  Dequeued now name q =
      (dequeue now name 1 q ≡ ([], q)) × InQueue name (λ _. ⊥) q
      ⊎ ((m : Message P) × (lookup m.id q.queued ≡ some m)
          × (str_eq m.queue name ≡ true)
          × (dequeue now name 1 q ≡ ((m.id, m.payload) ∷ [], moved now m q))
          × InQueue name (Earlier m) q)

  dequeue_list :
      (now : ℕ) (name : String) (q : Queue P)
      → IsQueue q
      → (ms : List (Message P)) → load_messages q.queued name ≡ ms
      → Dequeued now name q
  unfolding dequeue take_messages
  dequeue_list now name q v [] e =
      inl (rw (e, dequeue), All-load_messages_inv (λ _. ⊥) q.queued name (rw e tt))
  dequeue_list now name q v (m ∷ ms) e =
      let first = (rw e at (All-load_messages _ q.queued name (Holds-self q v))).0 in
      inr (
        m,
        first.0,
        first.1,
        rw (e, dequeue) (rw (first.0, take_messages)),
        All-map (λ x f q_name. comes_before-Earlier m x.1 (f q_name)) q.queued
            (load_messages-first q.queued name e),
      )

  -- Asked for one message of a queue, `dequeue` returns nothing, changes nothing and no message of
  -- that queue waits; or it returns a stored message of that queue than which no other
  -- of the queue has a higher priority, or the same and is older, and moves it, and no other, to the
  -- ones in flight, with one more attempt.
  pub dequeue_one : (now : ℕ) (name : String) (q : Queue P) → IsQueue q → Dequeued now name q
  dequeue_one now name q v = dequeue_list now name q v (load_messages q.queued name) refl

  -- The bucket of queued messages stays a directory of messages by id.
  pub enqueue-IsQueue :
      (id : String) (now : ℕ) (name : String) (payload : P) (priority : ℤ) (q : Queue P)
      → IsQueue q
      → IsQueue (enqueue id now name payload priority q)
  unfolding enqueue
  enqueue-IsQueue id now name payload priority q v = record {
    keys = HasKeys-put id _ q.queued v.keys;
    named = Every-put (λ (e : String × Message P). e.0 ≡ e.1.id) id _ q.queued refl v.named;
  }

  pub moved-IsQueue : (now : ℕ) (m : Message P) (q : Queue P) → IsQueue q → IsQueue (moved now m q)
  moved-IsQueue now m q v = record {
    keys = HasKeys-remove m.id q.queued v.keys;
    named = Every-remove (λ (e : String × Message P). e.0 ≡ e.1.id) m.id q.queued v.named;
  }

  -- Acknowledging a message does not touch the queued ones.
  pub queued-ack : (id : String) (q : Queue P) → (ack id q).1.queued ≡ q.queued
  unfolding ack
  queued-ack id q = ground arith
