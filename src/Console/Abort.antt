-- ===== src/Console/Abort.antt =====
-- main.js: the loop that aborts the outstanding requests of a page.
use rocketmq.Shared.{
  ℕ, zero, suc, ◌+◌, ◌≤◌, ◌<◌, ◌≡◌, ◌≢◌, refl, sym, ap, subst, ◌∙◌, inl, inr, Bool, false, not,
  ◌||◌, ◌==◌, none, some, List, [], ◌∷◌, ◌++◌, length, length-append, append-nil, append_assoc,
  filter, get_elem?, Option-cases, Bool-cases, All, arith,
}
use rocketmq.Console.{Console, Pending, settle, drop_req, land, abort_at, abort_from, abort_all}

-- Every second one of a list, from its first or from its second on.
abbrev pub evens : List ℕ → List ℕ
evens [] = []
evens (x ∷ []) = x ∷ []
evens (x ∷ y ∷ xs) = x ∷ evens xs

abbrev pub odds : List ℕ → List ℕ
odds [] = []
odds (x ∷ []) = []
odds (x ∷ y ∷ xs) = y ∷ odds xs

abbrev pub is_one_of : List ℕ → Pending → Bool
is_one_of [] p = false
is_one_of (i ∷ ids) p = p.id == i || is_one_of ids p

-- The requests in flight without those of some ids.
abbrev pub without : List ℕ → List Pending → List Pending
without ids = filter (λ p. not (is_one_of ids p))

abbrev pub IsDistinct : List ℕ → Type 0
IsDistinct [] = Unit
IsDistinct (x ∷ xs) = All (λ y. y ≢ x) xs × IsDistinct xs

All-middle :
    (P : ℕ → Type 0) (xs : List ℕ) (y : ℕ) (ys : List ℕ)
    → All P (xs ++ y ∷ ys)
    → P y × All P (xs ++ ys)
All-middle P [] y ys h = h
All-middle P (x ∷ xs) y ys (p, h) = let (q, rest) = All-middle P xs y ys h in (q, (p, rest))

IsDistinct-middle :
    (xs : List ℕ) (y : ℕ) (ys : List ℕ) → IsDistinct (xs ++ y ∷ ys) → IsDistinct (xs ++ ys)
IsDistinct-middle [] y ys (h, rest) = rest
IsDistinct-middle (x ∷ xs) y ys (h, rest) =
    ((All-middle (λ z. z ≢ x) xs y ys h).1, IsDistinct-middle xs y ys rest)

drop_req-middle :
    (xs : List ℕ) (y : ℕ) (ys : List ℕ)
    → IsDistinct (xs ++ y ∷ ys)
    → drop_req y (xs ++ y ∷ ys) ≡ xs ++ ys
unfolding drop_req
drop_req-middle [] y ys h = ground arith
drop_req-middle (x ∷ xs) y ys (h, rest) =
    let other = (All-middle (λ z. z ≢ x) xs y ys h).0 in
    let later = drop_req-middle xs y ys rest in ground (arith, other, later)

get_elem?-middle :
    (xs : List ℕ) (y : ℕ) (ys : List ℕ) → get_elem? (xs ++ y ∷ ys) (length xs) ≡ some y
get_elem?-middle [] y ys = refl
get_elem?-middle (x ∷ xs) y ys = get_elem?-middle xs y ys

get_elem?-lt : {A : Type 0} (xs : List A) (i : ℕ) {x : A} → get_elem? xs i ≡ some x → i < length xs
get_elem?-lt [] i h = cc
get_elem?-lt (x ∷ xs) zero h = omega arith
get_elem?-lt (x ∷ xs) (suc i) h = omega (arith, get_elem?-lt xs i h)

abort_at-past : (i : ℕ) (c : Console) → length c.outstanding_reqs ≤ i → abort_at i c ≡ c
unfolding abort_at
abort_at-past i c h = elim (Option-cases (get_elem? c.outstanding_reqs i)) [
  | inl gone ↦ rw (gone, abort_at)
  | inr (x, found) ↦ absurd (omega (arith, get_elem?-lt c.outstanding_reqs i found))
]

abort_from-past : (n i : ℕ) (c : Console) → length c.outstanding_reqs ≤ i → abort_from n i c ≡ c
unfolding abort_from
abort_from-past zero i c h = refl
abort_from-past (suc n) i c h = rw (abort_at-past i c h) (abort_from-past n (i + 1) c (omega arith))

without-none : (ps : List Pending) → without [] ps ≡ ps
without-none [] = refl
without-none (p ∷ ps) = ap (λ qs. p ∷ qs) (without-none ps)

without-land :
    (i : ℕ) (ids : List ℕ) (ps : List Pending) → without ids (land i ps) ≡ without (i ∷ ids) ps
unfolding land
without-land i ids [] = refl
without-land i ids (p ∷ ps) =
    let rest = without-land i ids ps in
    elim (Bool-cases (p.id == i)) [
      | inl same ↦ rw (same) rest
      | inr other ↦ elim (Bool-cases (is_one_of ids p)) [
        | inl gone ↦ rw (other, gone) rest
        | inr kept ↦ rw (other, kept) (ap (λ qs. p ∷ qs) rest)
      ]
    ]

-- The page of which every second request of `xs` is aborted, after the requests `pre`, which stay.
abbrev IsHalved : List ℕ → List ℕ → Console → Console → Type 0
IsHalved pre xs c d =
    (d.outstanding_reqs ≡ pre ++ odds xs) × (d.flying ≡ without (evens xs) c.flying)

-- One round, at a request that stands after `pre`.
abort_at-middle :
    (pre : List ℕ) (x : ℕ) (xs : List ℕ) (c : Console)
    → c.outstanding_reqs ≡ pre ++ x ∷ xs
    → abort_at (length pre) c ≡ settle x c
unfolding abort_at
abort_at-middle pre x xs c e =
    ap (λ o. elim o [ none ↦ c | some id ↦ settle id c ])
      (ap (λ ids. get_elem? ids (length pre)) e ∙ get_elem?-middle pre x xs)

settle-middle :
    (pre : List ℕ) (x : ℕ) (xs : List ℕ) (c : Console)
    → c.outstanding_reqs ≡ pre ++ x ∷ xs
    → IsDistinct (pre ++ x ∷ xs)
    → (settle x c).outstanding_reqs ≡ pre ++ xs
unfolding settle
settle-middle pre x xs c e h = ap (drop_req x) e ∙ drop_req-middle pre x xs h

abort_from-IsHalved :
    (n : ℕ) (pre xs : List ℕ) (c : Console)
    → c.outstanding_reqs ≡ pre ++ xs
    → IsDistinct (pre ++ xs)
    → length xs ≤ n
    → IsHalved pre xs c (abort_from n (length pre) c)
unfolding abort_from settle
abort_from-IsHalved n pre [] c e h k =
    subst (IsHalved pre [] c)
      (sym (abort_from-past n (length pre) c (rw (e, append-nil pre) (omega arith))))
      (e, sym (without-none c.flying))
abort_from-IsHalved zero pre (x ∷ xs) c e h k = absurd (omega arith)
abort_from-IsHalved (suc n) pre (x ∷ []) c e h k =
    let out = settle-middle pre x [] c e h in
    let done =
      ap (abort_from n (length pre + 1)) (abort_at-middle pre x [] c e)
      ∙ abort_from-past n (length pre + 1) (settle x c) (rw (out, append-nil pre) (omega arith)) in
    subst (IsHalved pre (x ∷ []) c) (sym done)
      (out, sym (without-none (land x c.flying)) ∙ without-land x [] c.flying)
abort_from-IsHalved (suc n) pre (x ∷ y ∷ xs) c e h k =
    let regroup = append_assoc pre (y ∷ []) in
    let out = settle-middle pre x (y ∷ xs) c e h in
    let (left, flying) =
      abort_from-IsHalved n (pre ++ y ∷ []) xs (settle x c) (out ∙ sym (regroup xs))
        (subst IsDistinct (sym (regroup xs)) (IsDistinct-middle pre x (y ∷ xs) h)) (omega arith) in
    let same : abort_from n (length (pre ++ y ∷ [])) (settle x c)
        ≡ abort_from (suc n) (length pre) c =
      ap (λ i. abort_from n i (settle x c)) (length-append pre (y ∷ []))
      ∙ sym (ap (abort_from n (length pre + 1)) (abort_at-middle pre x (y ∷ xs) c e)) in
    subst (IsHalved pre (x ∷ y ∷ xs) c) same
      (left ∙ regroup (odds xs), flying ∙ without-land x (evens xs) c.flying)

-- Aborting shortens the list while the loop walks it: where no request is listed twice, the loop aborts exactly
-- the first, the third, the fifth request and so on, which leave the list and are no longer in flight; the
-- others stay on the list and in flight.
pub abort_all-odds :
    (c : Console)
    → IsDistinct c.outstanding_reqs
    → ((abort_all c).outstanding_reqs ≡ odds c.outstanding_reqs)
      × ((abort_all c).flying ≡ without (evens c.outstanding_reqs) c.flying)
unfolding abort_all
abort_all-odds c h =
    abort_from-IsHalved (length c.outstanding_reqs) [] c.outstanding_reqs c refl h (omega arith)
