-- ===== src/Workflow/Order.antt =====
-- What `_topological_order` gives: every node, after all that it depends on.
use dub_manga_studio.Common.{
  ℕ, zero, suc, ◌≤◌, ◌<◌, String, ◌≡◌, refl, sym, ◌∙◌, List, [], ◌∷◌, ◌++◌, length, inl, inr, ◌⊎◌,
  Bool-cases, arith, eq_iff, str_eq, All, Any, All-map, All-sort_by, leb_str, subst,
}
use dub_manga_studio.Common.Exec.{Result, ok, err}
use dub_manga_studio.Common.Dict.{remove}
use dub_manga_studio.Common.Dict.Entries.{Every-remove}
use dub_manga_studio.Workflow.Graph.{
  GraphError, has_cycle, Pending, discard, discard_all, free_ids, ready_ids, place_each, order_loop,
}

abbrev pub Member : String → List String → Type 0
Member x xs = Any (λ y. y ≡ x) xs

Member-append : (x : String) (xs ys : List String) → Member x xs → Member x (xs ++ ys)
Member-append x [] ys a = absurd a
Member-append x (z ∷ zs) ys (inl e) = inl e
Member-append x (z ∷ zs) ys (inr a) = inr (Member-append x zs ys a)

Member-last : (x : String) (xs : List String) → Member x (xs ++ x ∷ [])
Member-last x [] = inl refl
Member-last x (z ∷ zs) = inr (Member-last x zs)

-- A round that went on had a ready node.
ok-of_ready :
    (ready : List String) (rest : Result GraphError (List String)) (found : List String)
    → elim ready as (λ _. Result GraphError (List String)) [ [] ↦ err has_cycle | _ ∷ _ ↦ rest ]
      ≡ ok found
    → rest ≡ ok found
ok-of_ready [] rest found e = absurd (cc)
ok-of_ready (x ∷ xs) rest found e = e

module _ (deps : String → List String) where
  -- An order that is built from its end: each node comes after all that it depends on.
  pub data Sound : List String → Type 0 where
    nothing : Sound []
    after :
        {xs : List String} (x : String)
        → Sound xs
        → All (λ d. Member d xs) (deps x)
        → Sound (xs ++ x ∷ [])

  -- Each dependency of a pending node is placed, or is still among those that it waits for.
  abbrev pub Waits : List String → String × List String → Type 0
  Waits order (k, ds) = All (λ d. Member d order ⊎ Member d ds) (deps k)

  Member-discard :
      (d id : String) (ds : List String) → Member d ds → (id ≡ d) ⊎ Member d (discard id ds)
  unfolding discard
  Member-discard d id [] a = absurd a
  Member-discard d id (x ∷ xs) (inl e) = elim (Bool-cases (str_eq x id)) [
    | inl t ↦ inl (sym ((eq_iff x id).0 t) ∙ e)
    | inr t ↦ rw t (inr (inl e))
  ]
  Member-discard d id (x ∷ xs) (inr a) = elim (Member-discard d id xs a) [
    | inl e ↦ inl e
    | inr b ↦ elim (Bool-cases (str_eq x id)) [ inl t ↦ rw t (inr b) | inr t ↦ rw t (inr (inr b)) ]
  ]

  Waits-discard :
      (order : List String) (id : String) (ps : Pending)
      → All (Waits order) ps
      → All (Waits (order ++ id ∷ [])) (discard_all id ps)
  unfolding discard_all
  Waits-discard order id [] h = tt
  Waits-discard order id ((k, ds) ∷ ps) h = (
    All-map
        (λ d w. elim w [
          | inl a ↦ inl (Member-append d order (id ∷ []) a)
          | inr a ↦ elim (Member-discard d id ds a) [
            | inl e ↦ inl (subst (λ x. Member x (order ++ id ∷ [])) e (Member-last id order))
            | inr b ↦ inr b
          ]
        ])
        (deps k) h.0,
    Waits-discard order id ps h.1,
  )

  abbrev Placeable : List String → String → Type 0
  Placeable order id = All (λ d. Member d order) (deps id)

  Placeable-append :
      (order : List String) (x : String) (ids : List String)
      → All (Placeable order) ids
      → All (Placeable (order ++ x ∷ [])) ids
  Placeable-append order x ids h =
      All-map (λ id p. All-map (λ d a. Member-append d order (x ∷ []) a) (deps id) p) ids h

  place_each-Sound :
      (ready order : List String) (ps : Pending)
      → Sound order
      → All (Placeable order) ready
      → All (Waits order) ps
      → let (order', ps') = place_each ready order ps in Sound order' × All (Waits order') ps'
  unfolding place_each
  place_each-Sound [] order ps s h w = (s, w)
  place_each-Sound (id ∷ ready) order ps s h w =
      place_each-Sound ready (order ++ id ∷ []) (discard_all id (remove id ps)) (after id s h.0)
        (Placeable-append order id ready h.1)
        (Waits-discard order id (remove id ps) (Every-remove (Waits order) id ps w))

  free_ids-Placeable :
      (order : List String) (ps : Pending)
      → All (Waits order) ps
      → All (Placeable order) (free_ids ps)
  unfolding free_ids
  free_ids-Placeable order [] h = tt
  free_ids-Placeable order ((k, []) ∷ ps) h = (
    All-map (λ d w. elim w [ inl a ↦ a | inr a ↦ absurd a ]) (deps k) h.0,
    free_ids-Placeable order ps h.1,
  )
  free_ids-Placeable order ((k, d ∷ ds) ∷ ps) h = free_ids-Placeable order ps h.1

  pub order_loop-Sound :
      (fuel : ℕ) (order : List String) (ps : Pending) (found : List String)
      → Sound order
      → All (Waits order) ps
      → order_loop fuel order ps ≡ ok found
      → Sound found
  unfolding order_loop ready_ids
  order_loop-Sound fuel order [] found s w e = let same : order ≡ found = cc in subst Sound same s
  order_loop-Sound zero order (p ∷ ps) found s w e = absurd (cc)
  order_loop-Sound (suc fuel) order (p ∷ ps) found s w e =
      let ready : List String = ready_ids (p ∷ ps) in
      let placed =
        place_each-Sound ready order (p ∷ ps) s
          (All-sort_by leb_str (Placeable order) (free_ids (p ∷ ps))
            (free_ids-Placeable order (p ∷ ps) w))
          w in
      order_loop-Sound fuel (place_each ready order (p ∷ ps)).0 (place_each ready order (p ∷ ps)).1
        found placed.0 placed.1 (ok-of_ready ready _ found e)

-- A node is placed or pending.
abbrev pub HasKey : String → Pending → Type 0
HasKey id ps = Any (λ (e : String × List String). e.0 ≡ id) ps

pub HasKey-remove :
    (id k : String) (ps : Pending) → HasKey id ps → (k ≡ id) ⊎ HasKey id (remove k ps)
unfolding remove
HasKey-remove id k [] a = absurd a
HasKey-remove id k ((j, ds) ∷ ps) (inl e) = elim (Bool-cases (str_eq j k)) [
  | inl t ↦ inl (sym ((eq_iff j k).0 t) ∙ e)
  | inr t ↦ rw t (inr (inl e))
]
HasKey-remove id k ((j, ds) ∷ ps) (inr a) = elim (HasKey-remove id k ps a) [
  | inl e ↦ inl e
  | inr b ↦ elim (Bool-cases (str_eq j k)) [ inl t ↦ rw t (inr b) | inr t ↦ rw t (inr (inr b)) ]
]

pub HasKey-discard_all :
    (id k : String) (ps : Pending) → HasKey id ps → HasKey id (discard_all k ps)
unfolding discard_all
HasKey-discard_all id k [] a = a
HasKey-discard_all id k ((j, ds) ∷ ps) (inl e) = inl e
HasKey-discard_all id k ((j, ds) ∷ ps) (inr a) = inr (HasKey-discard_all id k ps a)

place_each-kept :
    (id : String) (ready order : List String) (ps : Pending)
    → Member id order ⊎ HasKey id ps
    → Member id (place_each ready order ps).0 ⊎ HasKey id (place_each ready order ps).1
unfolding place_each
place_each-kept id [] order ps a = a
place_each-kept id (x ∷ ready) order ps a =
    place_each-kept id ready (order ++ x ∷ []) (discard_all x (remove x ps)) (elim a [
      | inl m ↦ inl (Member-append id order (x ∷ []) m)
      | inr k ↦ elim (HasKey-remove id x ps k) [
        | inl e ↦ inl (subst (λ y. Member y (order ++ x ∷ [])) e (Member-last x order))
        | inr b ↦ inr (HasKey-discard_all id x (remove x ps) b)
      ]
    ])

pub order_loop-Member :
    (id : String) (fuel : ℕ) (order : List String) (ps : Pending) (found : List String)
    → Member id order ⊎ HasKey id ps
    → order_loop fuel order ps ≡ ok found
    → Member id found
unfolding order_loop
order_loop-Member id fuel order [] found (inl a) e =
    let same : order ≡ found = cc in subst (λ o. Member id o) same a
order_loop-Member id fuel order [] found (inr a) e = absurd a
order_loop-Member id zero order (p ∷ ps) found a e = absurd (cc)
order_loop-Member id (suc fuel) order (p ∷ ps) found a e =
    let ready : List String = ready_ids (p ∷ ps) in
    order_loop-Member id fuel (place_each ready order (p ∷ ps)).0
      (place_each ready order (p ∷ ps)).1 found (place_each-kept id ready order (p ∷ ps) a)
      (ok-of_ready ready _ found e)

-- Each round places a node.
length-discard_all : (id : String) (ps : Pending) → length (discard_all id ps) ≡ length ps
unfolding discard_all
length-discard_all id [] = refl
length-discard_all id (p ∷ ps) = omega (arith, length-discard_all id ps)

length-remove_le : (id : String) (ps : Pending) → length (remove id ps) ≤ length ps
unfolding remove
length-remove_le id [] = omega arith
length-remove_le id ((j, ds) ∷ ps) = ground (arith, length-remove_le id ps)

length-remove_lt : (id : String) (ps : Pending) → HasKey id ps → length (remove id ps) < length ps
unfolding remove
length-remove_lt id [] a = absurd a
length-remove_lt id ((j, ds) ∷ ps) (inl e) = ground (arith, length-remove_le id ps, eq_iff j id)
length-remove_lt id ((j, ds) ∷ ps) (inr a) =
    ground (arith, length-remove_le id ps, length-remove_lt id ps a)

length-place_each :
    (ready order : List String) (ps : Pending) → length (place_each ready order ps).1 ≤ length ps
unfolding place_each
length-place_each [] order ps = omega arith
length-place_each (x ∷ ready) order ps =
    let later = length-place_each ready (order ++ x ∷ []) (discard_all x (remove x ps)) in
    let same = length-discard_all x (remove x ps) in
    let less = length-remove_le x ps in omega (arith, later, same, less)

free_ids-HasKey : (ps : Pending) → All (λ id. HasKey id ps) (free_ids ps)
unfolding free_ids
free_ids-HasKey [] = tt
free_ids-HasKey ((k, []) ∷ ps) =
    (inl refl, All-map (λ id a. inr a) (free_ids ps) (free_ids-HasKey ps))
free_ids-HasKey ((k, d ∷ ds) ∷ ps) = All-map (λ id a. inr a) (free_ids ps) (free_ids-HasKey ps)

abbrev pub Finished : Result GraphError (List String) → Type 0
Finished (ok order) = Unit
Finished (err has_cycle) = Unit
Finished (err _) = ⊥

Finished-of_ready :
    (ready : List String) (rest : Result GraphError (List String))
    → ((x : String) (xs : List String) → ready ≡ x ∷ xs → Finished rest)
    → Finished
        (elim ready as (λ _. Result GraphError (List String)) [ [] ↦ err has_cycle | _ ∷ _ ↦ rest ])
Finished-of_ready [] rest f = tt
Finished-of_ready (x ∷ xs) rest f = f x xs refl

pub order_loop-Finished :
    (fuel : ℕ) (order : List String) (ps : Pending)
    → length ps ≤ fuel
    → Finished (order_loop fuel order ps)
unfolding order_loop ready_ids place_each
order_loop-Finished fuel order [] h = tt
order_loop-Finished zero order (p ∷ ps) h = absurd (omega (arith, h))
order_loop-Finished (suc fuel) order (p ∷ ps) h =
    let ready : List String = ready_ids (p ∷ ps) in
    Finished-of_ready ready _ (λ x xs e.
      let here =
        (rw e at (
          All-sort_by leb_str (λ id. HasKey id (p ∷ ps)) (free_ids (p ∷ ps))
            (free_ids-HasKey (p ∷ ps)))).0 in
      let less = length-remove_lt x (p ∷ ps) here in
      let same = length-discard_all x (remove x (p ∷ ps)) in
      let later = length-place_each xs (order ++ x ∷ []) (discard_all x (remove x (p ∷ ps))) in
      let whole : length (place_each ready order (p ∷ ps)).1
          ≤ length (discard_all x (remove x (p ∷ ps))) =
        subst
          (λ (r : List String).
            length (place_each r order (p ∷ ps)).1 ≤ length (discard_all x (remove x (p ∷ ps))))
          (sym e) later in
      order_loop-Finished fuel (place_each ready order (p ∷ ps)).0
        (place_each ready order (p ∷ ps)).1 (omega (arith, less, same, whole, h)))
