-- ===== src/Store/Compile/Order.antt =====
-- The order of the compiled routes of a site: a permutation, longest prefix first.
use in_proxy.Common.{
  ◌≤◌, ◌≡◌, List, [], ◌∷◌, leb, arith, All, All-weaken, Pairwise, Bool-cases, ◌⊎◌, inl, inr, In,
  leb→le,
}
use in_proxy.Store.Compile.{CompiledRoute, prefix_length, insert_longest, longest_first}

abbrev pub IsNotLonger : CompiledRoute → CompiledRoute → Type 0
IsNotLonger c d = prefix_length d ≤ prefix_length c

module _ (P : CompiledRoute → Type 0) where
  All-insert_longest :
      (c : CompiledRoute) (ds : List CompiledRoute) → P c → All P ds → All P (insert_longest c ds)
  unfolding insert_longest
  All-insert_longest c [] p h = (p, tt)
  All-insert_longest c (d ∷ ds) p (q, h) =
      elim (Bool-cases (leb (prefix_length d) (prefix_length c))) [
        | inl front ↦ rw front (p, (q, h))
        | inr behind ↦ rw behind (q, All-insert_longest c ds p h)
      ]

  pub All-longest_first : (cs : List CompiledRoute) → All P cs → All P (longest_first cs)
  unfolding longest_first
  All-longest_first [] h = tt
  All-longest_first (c ∷ cs) (p, h) =
      All-insert_longest c (longest_first cs) p (All-longest_first cs h)

-- An entry of `c ∷ d ∷ ds` behind `d`, where `spread` is its place among `c` and `ds`.
past_first :
    (a c d : CompiledRoute) (ds es : List CompiledRoute)
    → ((a ≡ c) ⊎ In a ds → In a es)
    → (a ≡ c) ⊎ In a (d ∷ ds)
    → In a (d ∷ es)
past_first a c d ds es spread (inl e) = inr (spread (inl e))
past_first a c d ds es spread (inr (inl e)) = inl e
past_first a c d ds es spread (inr (inr i)) = inr (spread (inr i))

-- No route is lost.
In-insert_longest :
    (a c : CompiledRoute) (ds : List CompiledRoute) → (a ≡ c) ⊎ In a ds → In a (insert_longest c ds)
unfolding insert_longest
In-insert_longest a c [] h = h
In-insert_longest a c (d ∷ ds) h = elim (Bool-cases (leb (prefix_length d) (prefix_length c))) [
  | inl front ↦ rw front h
  | inr behind ↦ rw behind (past_first a c d ds (insert_longest c ds) (In-insert_longest a c ds) h)
]

pub In-longest_first :
    (a : CompiledRoute) (cs : List CompiledRoute) → In a cs → In a (longest_first cs)
unfolding longest_first
In-longest_first a [] i = i
In-longest_first a (c ∷ cs) (inl e) = In-insert_longest a c (longest_first cs) (inl e)
In-longest_first a (c ∷ cs) (inr i) =
    In-insert_longest a c (longest_first cs) (inr (In-longest_first a cs i))

Pairwise-insert_longest :
    (c : CompiledRoute) (ds : List CompiledRoute)
    → Pairwise IsNotLonger ds
    → Pairwise IsNotLonger (insert_longest c ds)
unfolding insert_longest
Pairwise-insert_longest c [] h = (tt, tt)
Pairwise-insert_longest c (d ∷ ds) (q, h) =
    elim (Bool-cases (leb (prefix_length d) (prefix_length c))) [
      | inl front ↦
          let le = leb→le (prefix_length d) (prefix_length c) front in
          rw front
            ((le, All-weaken (IsNotLonger d) (IsNotLonger c) (λ e k. omega arith) ds q), (q, h))
      | inr behind ↦
          rw behind (
            All-insert_longest (IsNotLonger d) c ds (ground arith) q,
            Pairwise-insert_longest c ds h,
          )
    ]

pub Pairwise-longest_first : (cs : List CompiledRoute) → Pairwise IsNotLonger (longest_first cs)
unfolding longest_first
Pairwise-longest_first [] = tt
Pairwise-longest_first (c ∷ cs) =
    Pairwise-insert_longest c (longest_first cs) (Pairwise-longest_first cs)
