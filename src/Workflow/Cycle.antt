-- ===== src/Workflow/Cycle.antt =====
-- What `validate_graph` rejects: a definition with an id twice, with a dependency that is no node, or
-- with no order of its nodes.
use dub_manga_studio.Common.{
  ℕ, zero, suc, String, ◌≡◌, refl, sym, ◌∙◌, subst, true, false, not, some, List, [], ◌∷◌, ◌++◌,
  inl, inr, ◌⊎◌, Bool-cases, List-cases, arith, eq_iff, str_eq, keep, All, Any, All-sort_by_inv,
  All-of-Any, leb_str,
}
use dub_manga_studio.Common.Exec.{Result, err}
use dub_manga_studio.Common.Dict.{remove}
use dub_manga_studio.Common.Dict.Entries.{Every-remove}
use dub_manga_studio.Workflow.Graph.{
  WorkflowNode, GraphError, has_cycle, Pending, contains, has_duplicates, first_unknown, discard,
  discard_all, free_ids, ready_ids, place_each, order_loop,
}
use dub_manga_studio.Workflow.Order.{
  Member, Sound, nothing, after, HasKey, HasKey-remove, HasKey-discard_all,
}

-- Some id stands twice.
abbrev pub Repeats : List String → Type 0
Repeats [] = ⊥
Repeats (x ∷ xs) = Member x xs ⊎ Repeats xs

contains-Member : (x : String) (xs : List String) → contains x xs ≡ true → Member x xs
unfolding contains
contains-Member x [] h = absurd (cc)
contains-Member x (y ∷ ys) h = elim (Bool-cases (str_eq y x)) [
  | inl t ↦ inl ((eq_iff y x).0 t)
  | inr t ↦ inr (contains-Member x ys (rw t at h))
]

Member-contains : (x : String) (xs : List String) → Member x xs → contains x xs ≡ true
unfolding contains
Member-contains x [] a = absurd a
Member-contains x (y ∷ ys) (inl e) = let same = (eq_iff y x).1 e in rw same refl
Member-contains x (y ∷ ys) (inr a) = ground (arith, Member-contains x ys a)

pub has_duplicates-Repeats : (xs : List String) → has_duplicates xs ≡ true → Repeats xs
unfolding has_duplicates
has_duplicates-Repeats [] h = absurd (cc)
has_duplicates-Repeats (x ∷ xs) h = elim (Bool-cases (contains x xs)) [
  | inl t ↦ inl (contains-Member x xs t)
  | inr t ↦ inr (has_duplicates-Repeats xs (rw t at h))
]

pub Repeats-none : (xs : List String) → (Repeats xs → ⊥) → has_duplicates xs ≡ false
Repeats-none xs f = elim (Bool-cases (has_duplicates xs)) [
  | inl t ↦ absurd (f (has_duplicates-Repeats xs t))
  | inr t ↦ t
]

pub Repeats-has_duplicates : (xs : List String) → Repeats xs → has_duplicates xs ≡ true
unfolding has_duplicates
Repeats-has_duplicates [] a = absurd a
Repeats-has_duplicates (x ∷ xs) (inl a) = ground (arith, Member-contains x xs a)
Repeats-has_duplicates (x ∷ xs) (inr a) = ground (arith, Repeats-has_duplicates xs a)

-- A dependency that is none of the ids.
abbrev pub HasUnknown : List String → List String → Type 0
HasUnknown known ds = Any (λ d. Member d known → ⊥) ds

unknown_found :
    (known ds rest : List String) (x : String)
    → keep (λ d. not (contains d known)) ds ≡ x ∷ rest
    → HasUnknown known ds
unfolding keep
unknown_found known [] rest x h = absurd (cc)
unknown_found known (d ∷ ds) rest x h = elim (Bool-cases (contains d known)) [
  | inl t ↦ inr (unknown_found known ds rest x (rw t at h))
  | inr t ↦ inl (λ a. let there = Member-contains d known a in absurd (cc))
]

pub first_unknown-some :
    (known : List String) (ns : List WorkflowNode) (id : String)
    → first_unknown known ns ≡ some id
    → Any (λ (n : WorkflowNode). (n.id ≡ id) × HasUnknown known n.dependencies) ns
unfolding first_unknown
first_unknown-some known [] id h = absurd (cc)
first_unknown-some known (n ∷ ns) id h =
    elim (List-cases (keep (λ d. not (contains d known)) n.dependencies)) [
      | inl e ↦ inr (first_unknown-some known ns id (rw (first_unknown, e) at h))
      | inr (x, rest, e) ↦
          let here : some n.id ≡ some id = rw (first_unknown, e) at h in
          inl (cc, unknown_found known n.dependencies rest x e)
    ]

module _ (deps : String → List String) where
  -- What a node waits for are dependencies of it that are pending.
  abbrev pub Refs : Pending → String × List String → Type 0
  Refs ps (k, ds) = All (λ d. Member d (deps k) × HasKey d ps) ds

  discard-Refs :
      (ps qs : Pending) (id k : String)
      → ((d : String) → HasKey d ps → (id ≡ d) ⊎ HasKey d qs)
      → (ds : List String) → Refs ps (k, ds)
      → Refs qs (k, discard id ds)
  unfolding discard
  discard-Refs ps qs id k f [] h = tt
  discard-Refs ps qs id k f (d ∷ ds) h = elim (Bool-cases (str_eq d id)) [
    | inl t ↦ rw t (discard-Refs ps qs id k f ds h.1)
    | inr t ↦ rw t (
      (
        h.0.0,
        elim (f d h.0.1) [ inl e ↦ let same = (eq_iff d id).1 (sym e) in absurd (cc) | inr a ↦ a ],
      ),
      discard-Refs ps qs id k f ds h.1,
    )
  ]

  discard_all-Refs :
      (ps qs : Pending) (id : String)
      → ((d : String) → HasKey d ps → (id ≡ d) ⊎ HasKey d qs)
      → (rs : Pending) → All (Refs ps) rs
      → All (Refs qs) (discard_all id rs)
  unfolding discard_all
  discard_all-Refs ps qs id f [] h = tt
  discard_all-Refs ps qs id f ((k, ds) ∷ rs) h =
      (discard-Refs ps qs id k f ds h.0, discard_all-Refs ps qs id f rs h.1)

  discard_all-keys :
      (P : String → Type 0) (id : String) (ps : Pending)
      → All (λ (e : String × List String). P e.0) ps
      → All (λ (e : String × List String). P e.0) (discard_all id ps)
  unfolding discard_all
  discard_all-keys P id [] h = tt
  discard_all-keys P id ((k, ds) ∷ ps) h = (h.0, discard_all-keys P id ps h.1)

  -- What stays true of the pending nodes in the course of the loop.
  abbrev pub Open : List String → Pending → Type 0
  Open found ps = All (Refs ps) ps × All (λ (e : String × List String). Member e.0 found) ps

  place_each-Open :
      (found ready order : List String) (ps : Pending)
      → Open found ps
      → Open found (place_each ready order ps).1
  unfolding place_each
  place_each-Open found [] order ps h = h
  place_each-Open found (id ∷ ready) order ps (refs, keys) =
      let qs : Pending = discard_all id (remove id ps) in
      place_each-Open found ready (order ++ id ∷ []) qs (
        discard_all-Refs ps qs id
            (λ d a. elim (HasKey-remove d id ps a) [
              | inl e ↦ inl e
              | inr b ↦ inr (HasKey-discard_all d id (remove id ps) b)
            ])
            (remove id ps) (Every-remove (Refs ps) id ps refs),
        discard_all-keys (λ k. Member k found) id (remove id ps)
            (Every-remove (λ (e : String × List String). Member e.0 found) id ps keys),
      )

  -- Where no node is free, each of the pending ones waits for a pending one.
  Stuck : Pending → String × List String → Type 0
  Stuck ps (k, ds) = (d : String) × Member d (deps k) × HasKey d ps

  none_free : (ps qs : Pending) → free_ids qs ≡ [] → All (Refs ps) qs → All (Stuck ps) qs
  unfolding free_ids Stuck
  none_free ps [] e h = tt
  none_free ps ((k, []) ∷ qs) e h = absurd (cc)
  none_free ps ((k, d ∷ ds) ∷ qs) e h = ((d, h.0.0.0, h.0.0.1), none_free ps qs e h.1)

  Member-snoc : (y x : String) (xs : List String) → Member y (xs ++ x ∷ []) → Member y xs ⊎ (x ≡ y)
  Member-snoc y x [] (inl e) = inr e
  Member-snoc y x [] (inr a) = absurd a
  Member-snoc y x (z ∷ zs) (inl e) = inl (inl e)
  Member-snoc y x (z ∷ zs) (inr a) = elim (Member-snoc y x zs a) [
    | inl b ↦ inl (inr b)
    | inr e ↦ inr e
  ]

  -- Then no order has a place for one of them.
  Stuck-Sound :
      {found : List String} (ps : Pending)
      → All (Stuck ps) ps
      → Sound deps found
      → (x : String) → Member x found
      → HasKey x ps
      → ⊥
  unfolding Stuck
  Stuck-Sound ps stuck nothing x a k = a
  Stuck-Sound ps stuck (after {xs} y sound placed) x a k = elim (Member-snoc x y xs a) [
    | inl b ↦ Stuck-Sound ps stuck sound x b k
    | inr e ↦
        let (entry, (d, on, there), same) = All-of-Any ps stuck k in
        let needs : Member d (deps y) = subst (λ z. Member d (deps z)) (same ∙ sym e) on in
        let (z, before, here) = All-of-Any (deps y) placed needs in
        Stuck-Sound ps stuck sound d (subst (λ w. Member w xs) here before) there
  ]

  has_cycle-of_ready :
      (ready : List String) (rest : Result GraphError (List String))
      → elim ready as (λ _. Result GraphError (List String)) [ [] ↦ err has_cycle | _ ∷ _ ↦ rest ]
        ≡ err has_cycle
      → (ready ≡ []) ⊎ (rest ≡ err has_cycle)
  has_cycle-of_ready [] rest e = inl refl
  has_cycle-of_ready (x ∷ xs) rest e = inr e

  no_free : (xs : List String) → All (λ _. ⊥) xs → xs ≡ []
  no_free [] h = refl
  no_free (x ∷ xs) h = absurd h.0

  -- Where the loop finds a cycle, no order has a place for all that it has to place.
  pub order_loop-has_cycle :
      (found : List String)
      → Sound deps found
      → (fuel : ℕ) (order : List String) (ps : Pending) → Open found ps
      → order_loop fuel order ps ≡ err has_cycle
      → ⊥
  unfolding order_loop ready_ids
  order_loop-has_cycle found sound fuel order [] held e = cc
  order_loop-has_cycle found sound zero order (p ∷ ps) held e = cc
  order_loop-has_cycle found sound (suc fuel) order (p ∷ ps) held e =
      let ready : List String = ready_ids (p ∷ ps) in
      elim (has_cycle-of_ready ready _ e) [
        | inr r ↦
            order_loop-has_cycle found sound fuel (place_each ready order (p ∷ ps)).0
              (place_each ready order (p ∷ ps)).1 (place_each-Open found ready order (p ∷ ps) held)
              r
        | inl r ↦
            let free : free_ids (p ∷ ps) ≡ [] = no_free (free_ids (p ∷ ps)) (
              All-sort_by_inv leb_str (λ _. ⊥) (free_ids (p ∷ ps))
                (subst (λ xs. All (λ _. ⊥) xs) (sym r) tt)) in
            Stuck-Sound (p ∷ ps) (none_free (p ∷ ps) (p ∷ ps) free held.0) sound p.0 held.1.0
              (inl refl)
      ]
