-- ===== src/Storage/Queue/Places.antt =====
-- FilesystemQueue: a message is in one directory at a time, and no operation loses it.
use dub_manga_studio.Common.{
  ℕ, ◌+◌, ◌≤◌, String, ◌≡◌, refl, ◌∙◌, List, [], ◌∷◌, Option, none, some, arith, ℤ, str_eq, eq_iff,
  if◌then◌else◌, take, Option-cases, inl, inr, Bool-cases,
}
use dub_manga_studio.Common.Dict.{Dict, lookup, put, remove, lookup-put, lookup-remove}
use dub_manga_studio.Storage.Queue.{
  Message, Queue, load_messages, take_messages, enqueue, dequeue, requeue, ack,
}
use dub_manga_studio.Storage.Queue.Messages.{moved}

module _ {P : Type 0} where
  abbrev there : Option (Message P) → ℕ
  there none = 0
  there (some m) = 1

  -- In how many of the three directories the message is.
  unfoldable pub places : String → Queue P → ℕ
  places id q =
      there (lookup id q.queued) + there (lookup id q.inflight) + there (lookup id q.acked)

  -- A new message is put in one directory, and the others stay where they are.
  pub places-enqueue :
      (id j : String) (now : ℕ) (name : String) (payload : P) (priority : ℤ) (q : Queue P)
      → places id q ≡ 0
      → places j (enqueue id now name payload priority q) ≡ (if str_eq id j then 1 else places j q)
  unfolding places enqueue
  places-enqueue id j now name payload priority q h =
      rw (lookup-put id j _ q.queued) (ground (arith, eq_iff id j))

  -- Moving the file of `id` from one directory to another.
  move-there :
      (id j : String) (m n : Message P) (from to : Dict (Message P))
      → lookup id from ≡ some m
      → there (lookup j to) + there (lookup j from) ≤ 1
      → there (lookup j (put id n to)) + there (lookup j (remove id from))
        ≡ there (lookup j to) + there (lookup j from)
  move-there id j m n from to found h =
      rw (lookup-put id j n to, lookup-remove id j from)
        (elim (Bool-cases (str_eq id j)) [
          | inl e ↦
              let same : id ≡ j = (eq_iff id j).0 e in
              let held : lookup j from ≡ some m = rw same at found in
              let bound : there (lookup j to) + 1 ≤ 1 = rw held at h in rw (e, held) (omega arith)
          | inr e ↦ rw e
        ])

  -- `requeue` moves a message that is in flight back, and no other.
  pub places-requeue :
      (id j : String) (q : Queue P) → places j q ≤ 1 → places j (requeue id q).1 ≡ places j q
  unfolding places requeue
  places-requeue id j q h = elim (Option-cases (lookup id q.inflight)) [
    | inl e ↦ rw (e, requeue)
    | inr (m, e) ↦
        rw (e, requeue) (omega (arith, move-there id j m m q.inflight q.queued e (omega arith)))
  ]

  -- `ack` moves a message that is in flight to the acknowledged ones, and no other.
  pub places-ack :
      (id j : String) (q : Queue P) → places j q ≤ 1 → places j (ack id q).1 ≡ places j q
  unfolding places ack
  places-ack id j q h = elim (Option-cases (lookup id q.inflight)) [
    | inl e ↦ rw (e, ack)
    | inr (m, e) ↦
        rw (e, ack) (omega (arith, move-there id j m m q.inflight q.acked e (omega arith)))
  ]

  places-moved :
      (now : ℕ) (j : String) (m n : Message P) (q : Queue P)
      → lookup m.id q.queued ≡ some n
      → places j q ≤ 1
      → places j (moved now m q) ≡ places j q
  unfolding places
  places-moved now j m n q e h =
      let taken = record m { attempts = m.attempts + 1; visible_at = some now } in
      omega (arith, move-there m.id j n taken q.queued q.inflight e (omega arith))

  take_messages-places :
      (now : ℕ) (j : String) (ms : List (Message P)) (q : Queue P)
      → places j q ≤ 1
      → places j (take_messages now ms q).1 ≡ places j q
  unfolding take_messages
  take_messages-places now j [] q h = refl
  take_messages-places now j (m ∷ ms) q h = elim (Option-cases (lookup m.id q.queued)) [
    | inl e ↦ rw (e, take_messages) (take_messages-places now j ms q h)
    | inr (n, e) ↦
        let same = places-moved now j m n q e h in
        rw (e, take_messages)
          (take_messages-places now j ms (moved now m q) (omega (arith, same)) ∙ same)
  ]

  -- `dequeue` moves the messages that it returns to the ones in flight, and no other.
  pub places-dequeue :
      (now : ℕ) (name : String) (count : ℕ) (j : String) (q : Queue P)
      → places j q ≤ 1
      → places j (dequeue now name count q).1 ≡ places j q
  unfolding dequeue
  places-dequeue now name count j q h =
      take_messages-places now j (take count (load_messages q.queued name)) q h

  -- A message that is in at most one directory: requeueing, acknowledging and dequeueing keep the
  -- number of directories that it is in, so that none is lost or doubled. Enqueueing under an id
  -- that is in none puts that message in one, and leaves the others where they are.
  pub places_kept :
      (id new j name : String) (now count : ℕ) (payload : P) (priority : ℤ) (q : Queue P)
      → places j q ≤ 1
      → places new q ≡ 0
      → (places j (requeue id q).1 ≡ places j q)
        × (places j (ack id q).1 ≡ places j q)
        × (places j (dequeue now name count q).1 ≡ places j q)
        × (places j (enqueue new now name payload priority q)
            ≡ (if str_eq new j then 1 else places j q))
  places_kept id new j name now count payload priority q h h' = (
    places-requeue id j q h,
    places-ack id j q h,
    places-dequeue now name count j q h,
    places-enqueue new j now name payload priority q h',
  )
