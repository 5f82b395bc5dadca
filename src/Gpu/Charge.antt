-- ===== src/Gpu/Charge.antt =====
-- The memory that a device's allocations hold, after a change to one of them.
use dub_manga_studio.Common.{
  ℕ, ◌+◌, ◌≤◌, String, ◌≡◌, some, [], ◌∷◌, inl, inr, if◌then◌else◌, Bool-cases, arith, str_eq, All,
  ap,
}
use dub_manga_studio.Common.Dict.{Dict, lookup, put, remove}
use dub_manga_studio.Common.Dict.Entries.{HasKeys}
use dub_manga_studio.Gpu.Memory.{Allocation, holds_memory, sum_vram}
use dub_manga_studio.Gpu.{evict_from}

-- What one allocation counts for.
abbrev pub charge : Allocation → ℕ
charge x = if holds_memory x.status then x.vram else 0

sum_vram-cons :
    (id : String) (x : Allocation) (xs : Dict Allocation)
    → sum_vram ((id, x) ∷ xs) ≡ charge x + sum_vram xs
unfolding sum_vram
sum_vram-cons id x xs = ground arith

pub sum_vram-remove : (k : String) (d : Dict Allocation) → sum_vram (remove k d) ≤ sum_vram d
unfolding remove
sum_vram-remove k [] = omega arith
sum_vram-remove k ((j, x) ∷ d) = elim (Bool-cases (str_eq j k)) [
  | inl e ↦ let rest = sum_vram-remove k d in let sum = sum_vram-cons j x d in rw e (omega arith)
  | inr e ↦
      let rest = sum_vram-remove k d in
      let sum = sum_vram-cons j x d in
      let sum' = sum_vram-cons j x (remove k d) in rw e (omega arith)
]

pub sum_vram-put :
    (k : String) (y : Allocation) (d : Dict Allocation)
    → sum_vram (put k y d) ≤ charge y + sum_vram d
unfolding put
sum_vram-put k y [] = let sum = sum_vram-cons k y [] in omega arith
sum_vram-put k y ((j, x) ∷ d) =
    let sum = sum_vram-cons j x d in
    elim (Bool-cases (str_eq j k)) [
      | inl e ↦ let sum' = sum_vram-cons k y d in rw e (omega arith)
      | inr e ↦
          let rest = sum_vram-put k y d in
          let sum' = sum_vram-cons j x (put k y d) in rw e (omega arith)
    ]

-- An allocation in place of one that counts for as much.
pub sum_vram-put_same :
    (k : String) (x y : Allocation) (d : Dict Allocation)
    → lookup k d ≡ some x
    → charge y ≡ charge x
    → sum_vram (put k y d) ≡ sum_vram d
unfolding put lookup
sum_vram-put_same k x y [] e same = absurd (cc)
sum_vram-put_same k x y ((j, z) ∷ d) e same =
    let sum = sum_vram-cons j z d in
    elim (Bool-cases (str_eq j k)) [
      | inl t ↦
          let sum' = sum_vram-cons k y d in
          let value : z ≡ x = ground arith in rw t (omega (arith, same, ap charge value))
      | inr t ↦
          let rest = sum_vram-put_same k x y d (ground arith) same in
          let sum' = sum_vram-cons j z (put k y d) in rw t (omega arith)
    ]

pub sum_vram-evict_from :
    (model : String) (d : Dict Allocation) → sum_vram (evict_from model d).1 ≤ sum_vram d
unfolding evict_from
sum_vram-evict_from model [] = omega arith
sum_vram-evict_from model ((j, x) ∷ d) =
    let rest = sum_vram-evict_from model d in
    let sum = sum_vram-cons j x d in
    elim (Bool-cases (str_eq x.model_id model)) [
      | inl e ↦ rw e (omega arith)
      | inr e ↦ let sum' = sum_vram-cons j x (evict_from model d).1 in rw e (omega arith)
    ]

pub All-evict_from :
    (P : String × Allocation → Type 0) (model : String) (d : Dict Allocation)
    → All P d
    → All P (evict_from model d).1
unfolding evict_from
All-evict_from P model [] h = tt
All-evict_from P model ((j, x) ∷ d) h = elim (Bool-cases (str_eq x.model_id model)) [
  | inl e ↦ rw e (All-evict_from P model d h.1)
  | inr e ↦ rw e (h.0, All-evict_from P model d h.1)
]

pub HasKeys-evict_from :
    (model : String) (d : Dict Allocation) → HasKeys d → HasKeys (evict_from model d).1
unfolding evict_from
HasKeys-evict_from model [] h = tt
HasKeys-evict_from model ((j, x) ∷ d) h = elim (Bool-cases (str_eq x.model_id model)) [
  | inl e ↦ rw e (HasKeys-evict_from model d h.1)
  | inr e ↦ rw e (All-evict_from _ model d h.0, HasKeys-evict_from model d h.1)
]
