-- ===== src/Providers/Choice.antt =====
-- ProviderManager.choose_provider: which provider is chosen.
use dub_manga_studio.Common.{
  leb_ℤ, leb_str, ◌≤◌, ap, Any, ℕ, String, ◌≡◌, refl, sym, ◌∙◌, Bool, true, false, ◌&&◌, not,
  Option, none, some, List, [], ◌∷◌, inl, inr, ◌⊎◌, leb_str_total, leb_str_trans, Bool-cases,
  List-cases, arith, All, All-map, IsOrder, sort_by, sort_by-IsAscending, All-sort_by,
  All-sort_by_inv,
}
use dub_manga_studio.Common.Exec.{ok}
use dub_manga_studio.Common.Dict.{Dict}
use dub_manga_studio.Providers.{Providers, settle_all, choose_provider}
use dub_manga_studio.Providers.Record.{
  ProviderRecord, is_open, is_over, is_absent, is_down, rate_limit_exhausted, settle, comes_first,
}

-- A provider may be chosen: its circuit is closed, it does not cool down, and its rate limit has
-- room.
abbrev pub available : ℕ → ProviderRecord → Bool
available now r =
    not (is_open now r.circuit_open_until)
    && not (is_open now r.cooldown_until)
    && not (rate_limit_exhausted now r)

absent_or_over :
    (now : ℕ) (until : Option ℕ)
    → is_open now until ≡ false
    → is_over now until ≡ false
    → is_absent until ≡ true
absent_or_over now none e f = refl
absent_or_over now (some t) e f = absurd (ground (arith, e, f))

-- The last case of the loop is never reached: a provider that is down is up again as soon as
-- neither its circuit nor its cooldown is open.
settle_lem :
    (now : ℕ) (r : ProviderRecord)
    → ((settle now r).0 ≡ record r { status = (settle now r).0.status })
      × ((settle now r).1 ≡ available now r)
unfolding settle
settle_lem now r = elim (Bool-cases (is_open now r.circuit_open_until)) [
  | inl a ↦ rw (settle, a) (refl, refl)
  | inr a ↦ elim (Bool-cases (is_open now r.cooldown_until)) [
    | inl b ↦ rw (settle, a) (rw b (refl, refl))
    | inr b ↦ elim (Bool-cases (is_down r.status)) [
      | inl c ↦ elim (Bool-cases (is_over now r.cooldown_until)) [
        | inl d ↦ rw (settle, a) (rw b (rw c (rw d (refl, refl))))
        | inr d ↦
            let e = absent_or_over now r.cooldown_until b d in
            rw (settle, a) (rw b (rw c (rw d (rw e (refl, refl)))))
      ]
      | inr c ↦ rw (settle, a) (rw b (rw c (refl, refl)))
    ]
  ]
]

comes_first_total : (p r : ProviderRecord) → comes_first p r ≡ false → comes_first r p ≡ true
unfolding comes_first
comes_first_total p r h = ground (arith, leb_str_total p.name r.name)

comes_first_trans :
    (p q r : ProviderRecord)
    → comes_first p q ≡ true
    → comes_first q r ≡ true
    → comes_first p r ≡ true
unfolding comes_first
comes_first_trans p q r h k = ground (arith, leb_str_trans p.name q.name r.name)

comes_first-IsOrder : IsOrder comes_first
comes_first-IsOrder = record { total = comes_first_total; trans = comes_first_trans }

-- The records under the same names, each as it was but for its status.
abbrev pub OnlyStatus : Dict ProviderRecord → Dict ProviderRecord → Type 0
OnlyStatus [] [] = Unit
OnlyStatus [] (e ∷ es) = ⊥
OnlyStatus (d ∷ ds) [] = ⊥
OnlyStatus (d ∷ ds) (e ∷ es) =
    (e.0 ≡ d.0) × (e.1 ≡ record d.1 { status = e.1.status }) × OnlyStatus ds es

settle_all-OnlyStatus : (now : ℕ) (rs : Dict ProviderRecord) → OnlyStatus rs (settle_all now rs).0
unfolding settle_all
settle_all-OnlyStatus now [] = tt
settle_all-OnlyStatus now ((name, r) ∷ rs) =
    (refl, (settle_lem now r).0, settle_all-OnlyStatus now rs)

found-All :
    (P : ProviderRecord → Type 0) (now : ℕ) (rs : Dict ProviderRecord)
    → All (λ (e : String × ProviderRecord). available now e.1 ≡ true → P (settle now e.1).0) rs
    → All P (settle_all now rs).1
unfolding settle_all
found-All P now [] h = tt
found-All P now ((name, r) ∷ rs) h = elim (Bool-cases (available now r)) [
  | inl t ↦
      let c : (settle now r).1 ≡ true = (settle_lem now r).1 ∙ t in
      rw c (h.0 t, found-All P now rs h.1)
  | inr t ↦
      let c : (settle now r).1 ≡ false = (settle_lem now r).1 ∙ t in rw c (found-All P now rs h.1)
]

found-All_inv :
    (P : ProviderRecord → Type 0) (now : ℕ) (rs : Dict ProviderRecord)
    → All P (settle_all now rs).1
    → All (λ (e : String × ProviderRecord). available now e.1 ≡ true → P (settle now e.1).0) rs
unfolding settle_all
found-All_inv P now [] h = tt
found-All_inv P now ((name, r) ∷ rs) h = elim (Bool-cases (available now r)) [
  | inl t ↦
      let c : (settle now r).1 ≡ true = (settle_lem now r).1 ∙ t in
      let h' : P (settle now r).0 × All P (settle_all now rs).1 = rw c at h in
      ((λ _. h'.0), found-All_inv P now rs h'.1)
  | inr t ↦
      let c : (settle now r).1 ≡ false = (settle_lem now r).1 ∙ t in
      let h' : All P (settle_all now rs).1 = rw c at h in
      ((λ u. absurd (let e = sym t ∙ u in cc)), found-All_inv P now rs h')
]

available-settled :
    (now : ℕ) (r : ProviderRecord) → available now (settle now r).0 ≡ available now r
unfolding rate_limit_exhausted
available-settled now r = ap (available now) (settle_lem now r).0

comes_first-settled :
    (now : ℕ) (p r : ProviderRecord) → comes_first p (settle now r).0 ≡ comes_first p r
unfolding comes_first
comes_first-settled now p r = ap (comes_first p) (settle_lem now r).0

comes_first_self : (r : ProviderRecord) → comes_first r r ≡ true
comes_first_self r = elim (Bool-cases (comes_first r r)) [
  | inl e ↦ e
  | inr e ↦ comes_first_total r r e
]

all_settled :
    (now : ℕ) (rs : Dict ProviderRecord)
    → All
        (λ (e : String × ProviderRecord).
          available now e.1 ≡ true → available now (settle now e.1).0 ≡ true)
        rs
all_settled now [] = tt
all_settled now ((name, r) ∷ rs) = ((λ t. available-settled now r ∙ t), all_settled now rs)

found_stored :
    (now : ℕ) (rs : Dict ProviderRecord)
    → All
        (λ r. Any (λ (e : String × ProviderRecord). e.1 ≡ r) (settle_all now rs).0)
        (settle_all now rs).1
unfolding settle_all
found_stored now [] = tt
found_stored now ((name, r) ∷ rs) =
    let rest = All-map (λ q a. inr a) (settle_all now rs).1 (found_stored now rs) in
    elim (Bool-cases (settle now r).1) [ inl c ↦ rw c (inl refl, rest) | inr c ↦ rw c rest ]

-- A lower number of priority first, then fewer failures, then the order of the names.
abbrev pub Earlier : ProviderRecord → ProviderRecord → Type 0
Earlier p r =
    (leb_ℤ p.priority r.priority ≡ true)
    × (leb_ℤ r.priority p.priority ≡ true
        → (p.failure_count ≤ r.failure_count)
          × (p.failure_count ≡ r.failure_count → leb_str p.name r.name ≡ true))

comes_first-Earlier : (p r : ProviderRecord) → comes_first p r ≡ true → Earlier p r
unfolding comes_first
comes_first-Earlier p r h =
    (ground (arith, h), (λ e. (ground (arith, h, e), (λ f. ground (arith, h, e, f)))))

-- Choosing a provider changes nothing but the statuses. It gives none exactly where no provider has
-- its circuit closed, no cooldown and room in its rate limit; else it gives a stored provider that
-- has all three, and among these one that comes first by priority, failures and name.
pub choose_provider_lem :
    (s : Providers)
    → OnlyStatus s.providers (choose_provider s).1.providers
      × ((((choose_provider s).0 ≡ ok none)
            × All (λ (e : String × ProviderRecord). available s.clock e.1 ≡ false) s.providers)
          ⊎ ((r : ProviderRecord) × ((choose_provider s).0 ≡ ok (some r))
              × (available s.clock r ≡ true)
              × Any (λ (e : String × ProviderRecord). e.1 ≡ r) (choose_provider s).1.providers
              × All
                  (λ (e : String × ProviderRecord). available s.clock e.1 ≡ true → Earlier r e.1)
                  s.providers))
unfolding choose_provider
choose_provider_lem s =
    let now = s.clock in
    let found : List ProviderRecord = (settle_all now s.providers).1 in
    (
      settle_all-OnlyStatus now s.providers,
      elim (List-cases (sort_by comes_first found)) [
        | inl e ↦
            let empty = All-sort_by_inv comes_first (λ _. ⊥) found (rw e tt) in
            inl (
              rw e refl,
              All-map
                  (λ x f. elim (Bool-cases (available now x.1)) [
                    | inl t ↦ absurd (f t)
                    | inr t ↦ t
                  ])
                  s.providers (found-All_inv (λ _. ⊥) now s.providers empty),
            )
        | inr (r, rest, e) ↦
            let kept =
              found-All (λ q. available now q ≡ true) now s.providers
                (all_settled now s.providers) in
            let fit =
              (rw e at (All-sort_by comes_first (λ q. available now q ≡ true) found kept)).0 in
            let stored =
              (rw e at (All-sort_by comes_first _ found (found_stored now s.providers))).0 in
            let first = (rw e at (sort_by-IsAscending comes_first-IsOrder found)).0 in
            let all =
              found-All_inv (λ q. comes_first r q ≡ true) now s.providers
                (All-sort_by_inv comes_first (λ q. comes_first r q ≡ true) found
                  (rw e (comes_first_self r, first))) in
            inr (
              r,
              rw e refl,
              fit,
              stored,
              All-map
                  (λ x f t. comes_first-Earlier r x.1 (sym (comes_first-settled now r x.1) ∙ f t))
                  s.providers all,
            )
      ],
    )
