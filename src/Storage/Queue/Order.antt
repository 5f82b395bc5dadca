-- ===== src/Storage/Queue/Order.antt =====
-- FilesystemQueue: what `_load_messages` lists, and in which order.
use dub_manga_studio.Common.{
  leb_ℤ, ◌≤◌, String, ◌≡◌, true, false, List, ◌∷◌, arith, All, All-keep, All-keep_inv, All-sort_by,
  All-sort_by_inv, IsOrder, IsAscending, sort_by-IsAscending, str_eq, leb_str, keep,
}
use dub_manga_studio.Common.Dict.{Dict, All-values, All-values_inv}
use dub_manga_studio.Storage.Queue.{Message, comes_before, files_in_order, load_messages}

module _ {P : Type 0} where
  comes_before_total : (m n : Message P) → comes_before m n ≡ false → comes_before n m ≡ true
  unfolding comes_before
  comes_before_total m n h = ground arith

  comes_before_trans :
      (l m n : Message P)
      → comes_before l m ≡ true
      → comes_before m n ≡ true
      → comes_before l n ≡ true
  unfolding comes_before
  comes_before_trans l m n h k = ground arith

  -- No lower a priority, and of the same priority no younger.
  abbrev pub Earlier : Message P → Message P → Type 0
  Earlier m n =
      (leb_ℤ n.priority m.priority ≡ true)
      × (leb_ℤ m.priority n.priority ≡ true → m.created_at ≤ n.created_at)

  pub comes_before-Earlier : (m n : Message P) → comes_before m n ≡ true → Earlier m n
  unfolding comes_before
  comes_before-Earlier m n h = (ground (arith, h), (λ e. ground (arith, h, e)))

  comes_before-IsOrder : IsOrder (comes_before {P = P})
  comes_before-IsOrder = record { total = comes_before_total; trans = comes_before_trans }

  -- What holds of every stored message of the queue holds of every message that is listed.
  pub All-load_messages :
      (Q : Message P → Type 0) (bucket : Dict (Message P)) (name : String)
      → All (λ (e : String × Message P). Q e.1) bucket
      → All (λ m. Q m × (str_eq m.queue name ≡ true)) (load_messages bucket name)
  unfolding load_messages files_in_order
  All-load_messages Q bucket name h =
      All-sort_by comes_before _ _ (
        All-keep Q _ _
          (All-values Q _ (All-sort_by _ (λ (e : String × Message P). Q e.1) bucket h)))

  -- And the other way round: no stored message of the queue is left out.
  pub All-load_messages_inv :
      (Q : Message P → Type 0) (bucket : Dict (Message P)) (name : String)
      → All Q (load_messages bucket name)
      → All (λ (e : String × Message P). str_eq e.1.queue name ≡ true → Q e.1) bucket
  unfolding load_messages files_in_order
  All-load_messages_inv Q bucket name h =
      All-sort_by_inv (λ (a b : String × Message P). leb_str a.0 b.0) _ bucket
        (All-values_inv (λ m. str_eq m.queue name ≡ true → Q m) _
          (All-keep_inv Q (λ m. str_eq m.queue name) _ (All-sort_by_inv comes_before Q _ h)))

  -- The list is in the order of the sort key.
  pub load_messages-IsAscending :
      (bucket : Dict (Message P)) (name : String)
      → IsAscending comes_before (load_messages bucket name)
  unfolding load_messages
  load_messages-IsAscending bucket name =
      sort_by-IsAscending comes_before-IsOrder
        (keep (λ m. str_eq m.queue name) (files_in_order bucket))

  -- The first message that is listed comes no later than any message of the queue.
  pub load_messages-first :
      (bucket : Dict (Message P)) (name : String) {m : Message P} {ms : List (Message P)}
      → load_messages bucket name ≡ m ∷ ms
      → All
          (λ (e : String × Message P). str_eq e.1.queue name ≡ true → comes_before m e.1 ≡ true)
          bucket
  unfolding comes_before
  load_messages-first bucket name {m} {ms} e =
      All-load_messages_inv (λ n. comes_before m n ≡ true) bucket name
        (rw e (ground arith, (rw e at (load_messages-IsAscending bucket name)).0))
