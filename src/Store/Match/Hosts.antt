-- ===== src/Store/Match/Hosts.antt =====
-- The test of MatchSite on prefixes without a slash.
use in_proxy.Common.{
  ◌≡◌, refl, ◌∙◌, true, [], ◌∷◌, ◌++◌, arith, Bool-cases, inl, inr, ◌⊎◌, append_assoc,
}
use in_proxy.Text.{Text, codes, ◌==◌, eq_iff, has_prefix_sound, trim_prefix, Lacks}
use in_proxy.Store.Match.{covers}

-- The texts on both sides of a first slash.
slash_inj : (p q s t : Text) → Lacks b'/' p → Lacks b'/' q → p ++ b'/' ∷ s ≡ q ++ b'/' ∷ t → p ≡ q
slash_inj [] [] s t h k e = refl
slash_inj [] (y ∷ q) s t h (n, k) e = absurd (ground arith)
slash_inj (x ∷ p) [] s t (n, h) k e = absurd (ground arith)
slash_inj (x ∷ p) (y ∷ q) s t (n, h) (m, k) e = let ih = slash_inj p q s t h k (cc) in cc

-- The path behind the first slash of a covered path, with a slash at the end.
covered_form :
    (p path : Text)
    → covers p path ≡ true
    → (path ≡ b'/' ∷ p) ⊎ ((s : Text) × (path ≡ b'/' ∷ p ++ b'/' ∷ s))
unfolding covers
covered_form p path h = elim (Bool-cases (path == b'/' ∷ p)) [
  | inl same ↦ inl ((eq_iff path (b'/' ∷ p)).0 same)
  | inr other ↦
      let e = has_prefix_sound path (b'/' ∷ p ++ codes "/") (rw other at h) in
      inr (
        trim_prefix path (b'/' ∷ p ++ codes "/"),
        e ∙ append_assoc (b'/' ∷ p) (codes "/") (trim_prefix path (b'/' ∷ p ++ codes "/")),
      )
]

bare_or_below : (p q s : Text) → Lacks b'/' p → p ≡ q ++ b'/' ∷ s → ⊥
bare_or_below [] [] s h e = cc
bare_or_below [] (y ∷ q) s h e = cc
bare_or_below (x ∷ p) [] s (n, h) e = ground arith
bare_or_below (x ∷ p) (y ∷ q) s (n, h) e = bare_or_below p q s h (cc)

-- Two names that cover one path are one.
pub covers_unique :
    (p q path : Text)
    → Lacks b'/' p
    → Lacks b'/' q
    → covers p path ≡ true
    → covers q path ≡ true
    → p ≡ q
covers_unique p q path h k e f = elim (covered_form p path e) [
  | inl bare ↦ elim (covered_form q path f) [
    | inl bare' ↦ cc
    | inr (t, below) ↦ absurd (bare_or_below p q t h (cc))
  ]
  | inr (s, below) ↦ elim (covered_form q path f) [
    | inl bare ↦ absurd (bare_or_below q p s k (cc))
    | inr (t, below') ↦ slash_inj p q s t h k (cc)
  ]
]
