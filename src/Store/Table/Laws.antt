-- ===== src/Store/Table/Laws.antt =====
-- Edits of a table keep what holds of each entry, and of each two entries.
use in_proxy.Common.{
  ◌≡◌, refl, Bool, true, false, List, [], ◌∷◌, ◌++◌, Option, none, some, arith, All, All-append,
  All-weaken, All-both, Pairwise, Bool-cases, Option-cases, inl, inr, ok, ◌⊎◌, In,
}
use in_proxy.Store.Table.{found, add_front, replace_first, drop_all, replaced, place}

module _ {A : Type 0} (is : A → Bool) where
  pub found-none : (xs : List A) → found is xs ≡ false → All (λ x. is x ≡ false) xs
  unfolding found
  found-none [] h = tt
  found-none (x ∷ xs) h = (ground arith, found-none xs (ground arith))

  add_front-eq-some :
      (x : A) (o : Option (List A)) (ys : List A)
      → add_front is x o ≡ some ys
      → (zs : List A) × (o ≡ some zs) × (ys ≡ x ∷ zs)
  unfolding add_front
  add_front-eq-some x none ys h = cc
  add_front-eq-some x (some zs) ys h = (zs, refl, cc)

  module _ (P : A → Type 0) where
    pub All-drop_all : (xs : List A) → All P xs → All P (drop_all is xs)
    unfolding drop_all
    All-drop_all [] h = tt
    All-drop_all (x ∷ xs) (p, h) = elim (Bool-cases (is x)) [
      | inl out ↦ rw out (All-drop_all xs h)
      | inr kept ↦ rw kept (p, All-drop_all xs h)
    ]

    pub All-replace_first :
        (a : A) (xs ys : List A) → replace_first is a xs ≡ some ys → All P xs → P a → All P ys
    unfolding replace_first
    All-replace_first a [] ys e h p = cc
    All-replace_first a (x ∷ xs) ys e (q, h) p = elim (Bool-cases (is x)) [
      | inl here ↦ let whole : ys ≡ a ∷ xs = ground arith in rw whole (p, h)
      | inr later ↦
          let (zs, e', whole) = add_front-eq-some x (replace_first is a xs) ys (rw later at e) in
          rw whole (q, All-replace_first a xs zs e' h p)
    ]

  -- No entry that is to go is left, and an entry that stays is there as before.
  pub drop_all_gone : (xs : List A) → All (λ x. is x ≡ false) (drop_all is xs)
  unfolding drop_all
  drop_all_gone [] = tt
  drop_all_gone (x ∷ xs) = elim (Bool-cases (is x)) [
    | inl out ↦ rw out (drop_all_gone xs)
    | inr kept ↦ rw kept (kept, drop_all_gone xs)
  ]

  module _ (R : A → A → Type 0) where
    pub Pairwise-drop_all : (xs : List A) → Pairwise R xs → Pairwise R (drop_all is xs)
    unfolding drop_all
    Pairwise-drop_all [] h = tt
    Pairwise-drop_all (x ∷ xs) (p, h) = elim (Bool-cases (is x)) [
      | inl out ↦ rw out (Pairwise-drop_all xs h)
      | inr kept ↦ rw kept (All-drop_all (λ y. R x y) xs p, Pairwise-drop_all xs h)
    ]

    pub Pairwise-append :
        (a : A) (xs : List A) → Pairwise R xs → All (λ x. R x a) xs → Pairwise R (xs ++ a ∷ [])
    Pairwise-append a [] h k = (tt, tt)
    Pairwise-append a (x ∷ xs) (p, h) (q, k) =
        (All-append (λ y. R x y) xs (a ∷ []) p (q, tt), Pairwise-append a xs h k)

    module _ (R_sym : (x y : A) → R x y → R y x)
        (R_apart : (x y : A) → R x y → is x ≡ true → is y ≡ false) where
      apart-All :
          (x : A) (xs : List A) → is x ≡ true → All (λ y. R x y) xs → All (λ y. is y ≡ false) xs
      apart-All x xs here =
          All-weaken (λ y. R x y) (λ y. is y ≡ false) (λ y r. R_apart x y r here) xs

      separate-All :
          (a : A) (xs : List A)
          → All (λ y. is y ≡ false) xs
          → All (λ y. is y ≡ false → R a y) xs
          → All (λ y. R a y) xs
      separate-All a xs h k =
          All-weaken (λ y. (is y ≡ false) × (is y ≡ false → R a y)) (λ y. R a y) (λ y p. p.1 p.0) xs
            (All-both (λ y. is y ≡ false) (λ y. is y ≡ false → R a y) xs h k)

      -- The entry that replaces another is apart from all that the test does not hold of.
      pub Pairwise-replace_first :
          (a : A) (xs ys : List A)
          → replace_first is a xs ≡ some ys
          → Pairwise R xs
          → All (λ y. is y ≡ false → R a y) xs
          → Pairwise R ys
      unfolding replace_first
      Pairwise-replace_first a [] ys e h k = cc
      Pairwise-replace_first a (x ∷ xs) ys e (p, h) (q, k) = elim (Bool-cases (is x)) [
        | inl here ↦
            let whole : ys ≡ a ∷ xs = ground arith in
            rw whole (separate-All a xs (apart-All x xs here p) k, h)
        | inr later ↦
            let (zs, e', whole) = add_front-eq-some x (replace_first is a xs) ys (rw later at e) in
            rw whole (
              All-replace_first (λ y. R x y) a xs zs e' p (R_sym a x (q later)),
              Pairwise-replace_first a xs zs e' h k,
            )
      ]

  -- Without an entry of the kind nothing is replaced, and with one something is.
  pub replace_first-none :
      (a : A) (xs : List A) → found is xs ≡ false → replace_first is a xs ≡ none
  unfolding replace_first found
  replace_first-none a [] h = refl
  replace_first-none a (x ∷ xs) h = ground (arith, replace_first-none a xs)

  pub replace_first-some :
      (a : A) (xs : List A) → found is xs ≡ true → (ys : List A) × (replace_first is a xs ≡ some ys)
  unfolding replace_first found
  replace_first-some a [] h = cc
  replace_first-some a (x ∷ xs) h = elim (Bool-cases (is x)) [
    | inl here ↦ (a ∷ xs, rw here)
    | inr later ↦ let (ys, e) = replace_first-some a xs (rw later at h) in (x ∷ ys, rw later (rw e))
  ]

replaced-eq-ok :
    {E A : Type 0} (e : E) (o : Option (List A)) (ys : List A) → replaced e o ≡ ok ys → o ≡ some ys
unfolding replaced
replaced-eq-ok e none ys h = cc
replaced-eq-ok e (some xs) ys h = cc

-- An accepted Upsert puts the new entry at the end, where no entry has the new key, or in place of
-- the first entry of the old key, where the key stays or no entry has the new one.
pub place-cases :
    {E A : Type 0} (add same : Bool) (is_new is_old : A → Bool) (exists missing : E) (a : A)
    (xs ys : List A)
    → place add same is_new is_old exists missing a xs ≡ ok ys
    → ((add ≡ true) × (found is_new xs ≡ false) × (ys ≡ xs ++ a ∷ []))
      ⊎ ((add ≡ false)
          × ((same ≡ true) ⊎ (found is_new xs ≡ false))
          × (replace_first is_old a xs ≡ some ys))
unfolding place
place-cases true same is_new is_old exists missing a xs ys h = elim (Bool-cases (found is_new xs)) [
  | inl there ↦ absurd (ground arith)
  | inr fresh ↦ inl (refl, fresh, ground arith)
]
place-cases false true is_new is_old exists missing a xs ys h =
    inr (refl, inl refl, replaced-eq-ok missing (replace_first is_old a xs) ys h)
place-cases false false is_new is_old exists missing a xs ys h =
    elim (Bool-cases (found is_new xs)) [
      | inl there ↦ absurd (ground arith)
      | inr fresh ↦ inr (
        refl,
        inr fresh,
        replaced-eq-ok missing (replace_first is_old a xs) ys (rw (fresh, place) at h),
      )
    ]

-- So it keeps what holds of each entry and of each two, if the new entry is apart from the others.
module _ {E A : Type 0} (P : A → Type 0) (R : A → A → Type 0)
    (R_sym : (x y : A) → R x y → R y x) where
  pub place-keeps :
      (add same : Bool) (is_new is_old : A → Bool) (exists missing : E) (a : A) (xs ys : List A)
      → ((x y : A) → R x y → is_old x ≡ true → is_old y ≡ false)
      → P a
      → (found is_new xs ≡ false → All (λ y. R a y) xs)
      → (same ≡ true → All (λ y. is_old y ≡ false → R a y) xs)
      → All P xs × Pairwise R xs
      → place add same is_new is_old exists missing a xs ≡ ok ys
      → All P ys × Pairwise R ys
  place-keeps add same is_new is_old exists missing a xs ys apart p fresh_ok same_ok (ps, rs) h =
      elim (place-cases add same is_new is_old exists missing a xs ys h) [
        | inl (_, fresh, whole) ↦ rw whole (
          All-append P xs (a ∷ []) ps (p, tt),
          Pairwise-append is_new R a xs rs
              (All-weaken (λ y. R a y) (λ y. R y a) (λ y. R_sym a y) xs (fresh_ok fresh)),
        )
        | inr (_, inl kept, put) ↦ (
          All-replace_first is_old P a xs ys put ps p,
          Pairwise-replace_first is_old R R_sym apart a xs ys put rs (same_ok kept),
        )
        | inr (_, inr fresh, put) ↦ (
          All-replace_first is_old P a xs ys put ps p,
          Pairwise-replace_first is_old R R_sym apart a xs ys put rs (
              All-weaken (λ y. R a y) (λ y. is_old y ≡ false → R a y) (λ y r _. r) xs
                (fresh_ok fresh)),
        )
      ]

In-append : {A : Type 0} (a : A) (xs : List A) → In a (xs ++ a ∷ [])
In-append a [] = inl refl
In-append a (x ∷ xs) = inr (In-append a xs)

In-replace_first :
    {A : Type 0} (is : A → Bool) (a : A) (xs ys : List A)
    → replace_first is a xs ≡ some ys
    → In a ys
unfolding replace_first
In-replace_first is a [] ys h = cc
In-replace_first is a (x ∷ xs) ys h = elim (Bool-cases (is x)) [
  | inl here ↦ let whole : ys ≡ a ∷ xs = ground arith in rw whole (inl refl)
  | inr later ↦ elim (Option-cases (replace_first is a xs)) [
    | inl missing ↦ absurd (cc (rw (missing, add_front) at (rw later at h)))
    | inr (zs, found) ↦
        let h' : some (x ∷ zs) ≡ some ys = rw found at (rw later at h) in
        let whole : ys ≡ x ∷ zs = cc in rw whole (inr (In-replace_first is a xs zs found))
  ]
]

-- An accepted Upsert has put the new entry in.
pub place-In :
    {E A : Type 0} (add same : Bool) (is_new is_old : A → Bool) (exists missing : E) (a : A)
    (xs ys : List A)
    → place add same is_new is_old exists missing a xs ≡ ok ys
    → In a ys
place-In add same is_new is_old exists missing a xs ys h =
    elim (place-cases add same is_new is_old exists missing a xs ys h) [
      | inl (_, fresh, whole) ↦ rw whole (In-append a xs)
      | inr (_, kept, put) ↦ In-replace_first is_old a xs ys put
    ]
