-- ===== src/Text/Trim.antt =====
-- strings.TrimSpace, and strings.Trim with the cutset "/".
use in_proxy.Common.{
  ℕ, ◌≡◌, refl, Bool, false, ◌||◌, ◌&&◌, [], ◌∷◌, arith, nat_eq, if◌then◌else◌, leb, All,
  Bool-cases, inl, inr,
}
use in_proxy.Text.{Text, to_lower, lower_byte, to_lower-IsLower, to_lower_of_IsLower}

-- '\t', '\n', '\v', '\f', '\r' and ' '
unfoldable pub is_space : ℕ → Bool
is_space c = (leb 9 c && leb c 13) || nat_eq c 32

unfoldable pub is_slash : ℕ → Bool
is_slash c = nat_eq c b'/'

module _ (cut : ℕ → Bool) where
  unfoldable pub trim_left : Text → Text
  trim_left [] = []
  trim_left (c ∷ s) = if cut c then trim_left s else c ∷ s

  keep_unless_cut : ℕ → Text → Text
  keep_unless_cut c [] = if cut c then [] else c ∷ []
  keep_unless_cut c (d ∷ s) = c ∷ d ∷ s

  unfoldable pub trim_right : Text → Text
  unfolding keep_unless_cut
  trim_right [] = []
  trim_right (c ∷ s) = keep_unless_cut c (trim_right s)

  unfoldable pub trim : Text → Text
  unfolding trim_left trim_right
  trim s = trim_right (trim_left s)

  -- No byte of the cutset is at the front, nor at the back.
  abbrev pub StartsClean : Text → Type 0
  StartsClean [] = Unit
  StartsClean (c ∷ s) = cut c ≡ false

  pub trim_left-StartsClean : (s : Text) → StartsClean (trim_left s)
  unfolding trim_left
  trim_left-StartsClean [] = tt
  trim_left-StartsClean (c ∷ s) = ground (arith, trim_left-StartsClean s)

  trim_left_of_StartsClean : (s : Text) → StartsClean s → trim_left s ≡ s
  unfolding trim_left
  trim_left_of_StartsClean [] h = refl
  trim_left_of_StartsClean (c ∷ s) h = rw h

  StartsClean-trim_right : (s : Text) → StartsClean s → StartsClean (trim_right s)
  unfolding trim_right
  StartsClean-trim_right [] h = tt
  StartsClean-trim_right (c ∷ s) h = ground arith

  keep_unless_cut-trim_right :
      (c : ℕ) (t : Text) → trim_right t ≡ t → trim_right (keep_unless_cut c t) ≡ keep_unless_cut c t
  unfolding trim_right
  keep_unless_cut-trim_right c [] h = ground arith
  keep_unless_cut-trim_right c (d ∷ t) h = rw (h, keep_unless_cut)

  trim_right_idem : (s : Text) → trim_right (trim_right s) ≡ trim_right s
  unfolding trim_right
  trim_right_idem [] = refl
  trim_right_idem (c ∷ s) = keep_unless_cut-trim_right c (trim_right s) (trim_right_idem s)

  -- Trimming twice is trimming once.
  pub trim_idem : (s : Text) → trim (trim s) ≡ trim s
  unfolding trim
  trim_idem s =
      rw (trim_left_of_StartsClean _ (StartsClean-trim_right _ (trim_left-StartsClean s)))
        (trim_right_idem (trim_left s))

  pub trim-StartsClean : (s : Text) → StartsClean (trim s)
  unfolding trim
  trim-StartsClean s = StartsClean-trim_right _ (trim_left-StartsClean s)

-- strings.TrimSpace
unfoldable pub trim_space : Text → Text
unfolding trim is_space
trim_space = trim is_space

pub trim_space_idem : (s : Text) → trim_space (trim_space s) ≡ trim_space s
unfolding trim_space
trim_space_idem s = trim_idem is_space s

-- strings.Trim(s, "/")
unfoldable pub trim_slashes : Text → Text
unfolding trim is_slash
trim_slashes = trim is_slash

module _ (cut : ℕ → Bool) where
  trim_right_of_none : (s : Text) → All (λ c. cut c ≡ false) s → trim_right cut s ≡ s
  unfolding trim_right
  trim_right_of_none [] h = refl
  trim_right_of_none (c ∷ []) (x, h) = rw x
  trim_right_of_none (c ∷ d ∷ s) (x, h) = rw (trim_right_of_none (d ∷ s) h)

  -- A text that holds no byte of the cutset is left as it is.
  pub trim_of_none : (s : Text) → All (λ c. cut c ≡ false) s → trim cut s ≡ s
  unfolding trim
  trim_of_none [] h = refl
  trim_of_none (c ∷ s) (x, h) = rw x (trim_right_of_none (c ∷ s) (x, h))

module _ {κ} (P : ℕ → Type κ) (cut : ℕ → Bool) where
  All-trim_left : (s : Text) → All P s → All P (trim_left cut s)
  unfolding trim_left
  All-trim_left [] h = tt
  All-trim_left (c ∷ s) (x, h) = elim (Bool-cases (cut c)) [
    | inl out ↦ rw out (All-trim_left s h)
    | inr kept ↦ rw kept (x, h)
  ]

  All-keep_unless_cut : (c : ℕ) (t : Text) → P c → All P t → All P (keep_unless_cut cut c t)
  unfolding keep_unless_cut
  All-keep_unless_cut c [] x h = elim (Bool-cases (cut c)) [
    | inl out ↦ rw out tt
    | inr kept ↦ rw kept (x, tt)
  ]
  All-keep_unless_cut c (d ∷ t) x h = (x, h)

  All-trim_right : (s : Text) → All P s → All P (trim_right cut s)
  unfolding trim_right
  All-trim_right [] h = tt
  All-trim_right (c ∷ s) (x, h) = All-keep_unless_cut c _ x (All-trim_right s h)

  -- Trimming adds no byte.
  pub All-trim : (s : Text) → All P s → All P (trim cut s)
  unfolding trim
  All-trim s h = All-trim_right _ (All-trim_left s h)

-- A text that was put in lower case and then trimmed is a fixed point of both.
pub lower_trim_idem :
    (s : Text) → trim_space (to_lower (trim_space (to_lower s))) ≡ trim_space (to_lower s)
unfolding trim_space
lower_trim_idem s =
    rw (to_lower_of_IsLower _ (All-trim (λ c. lower_byte c ≡ c) is_space _ (to_lower-IsLower s)))
      (trim_idem is_space (to_lower s))
