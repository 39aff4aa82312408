-- ===== src/Proxy/Paths.antt =====
-- singleJoiningSlash of proxy.go.
use in_proxy.Common.{
  ◌≡◌, refl, true, false, ◌&&◌, not, [], ◌∷◌, ◌++◌, arith, nat_eq, if◌then◌else◌, append_assoc,
  Bool-cases, inl, inr, ap, ◌∙◌,
}
use in_proxy.Text.{Text, codes, has_prefix, ends_with}
use in_proxy.Config.Endpoints.{is_empty}

abbrev tail_of : Text → Text
tail_of [] = []
tail_of (c ∷ s) = s

unfoldable pub single_joining_slash : Text → Text → Text
unfolding has_prefix ends_with
single_joining_slash a b =
    let aslash = ends_with b'/' a in
    let bslash = has_prefix b (codes "/") in
    if aslash && bslash
    then a ++ tail_of b
    else if not aslash && not bslash
    then (if is_empty a then b else a ++ b'/' ∷ b)
    else a ++ b

-- A path without one slash at its end, and without one at its front.
unfoldable pub drop_end_slash : Text → Text
drop_end_slash [] = []
drop_end_slash (c ∷ []) = if nat_eq c b'/' then [] else c ∷ []
drop_end_slash (c ∷ d ∷ s) = c ∷ drop_end_slash (d ∷ s)

unfoldable pub drop_front_slash : Text → Text
drop_front_slash [] = []
drop_front_slash (c ∷ s) = if nat_eq c b'/' then s else c ∷ s

drop_end_slash_some : (a : Text) → ends_with b'/' a ≡ true → a ≡ drop_end_slash a ++ b'/' ∷ []
unfolding drop_end_slash ends_with
drop_end_slash_some [] h = cc
drop_end_slash_some (c ∷ []) h = ground arith
drop_end_slash_some (c ∷ d ∷ s) h = ap (◌∷◌ c) (drop_end_slash_some (d ∷ s) h)

drop_end_slash_none : (a : Text) → ends_with b'/' a ≡ false → drop_end_slash a ≡ a
unfolding drop_end_slash ends_with
drop_end_slash_none [] h = refl
drop_end_slash_none (c ∷ []) h = ground arith
drop_end_slash_none (c ∷ d ∷ s) h = ap (◌∷◌ c) (drop_end_slash_none (d ∷ s) h)

front_some : (b : Text) → has_prefix b (codes "/") ≡ true → b ≡ b'/' ∷ drop_front_slash b
unfolding drop_front_slash has_prefix
front_some [] h = cc
front_some (c ∷ s) h = ground arith

front_tail : (b : Text) → has_prefix b (codes "/") ≡ true → tail_of b ≡ drop_front_slash b
unfolding drop_front_slash has_prefix
front_tail [] h = cc
front_tail (c ∷ s) h = ground arith

front_none : (b : Text) → has_prefix b (codes "/") ≡ false → drop_front_slash b ≡ b
unfolding drop_front_slash has_prefix
front_none [] h = refl
front_none (c ∷ s) h = ground arith

abbrev IsJoin : Text → Text → Text → Type 0
IsJoin a b r = r ≡ drop_end_slash a ++ b'/' ∷ drop_front_slash b

IsJoin-both :
    (a b : Text)
    → ends_with b'/' a ≡ true
    → has_prefix b (codes "/") ≡ true
    → IsJoin a b (a ++ tail_of b)
IsJoin-both a b h k = rw (front_tail b k) (
    ap (λ t. t ++ drop_front_slash b) (drop_end_slash_some a h)
    ∙ append_assoc (drop_end_slash a) (b'/' ∷ []) (drop_front_slash b))

IsJoin-left :
    (a b : Text) → ends_with b'/' a ≡ true → has_prefix b (codes "/") ≡ false → IsJoin a b (a ++ b)
IsJoin-left a b h k =
    rw (front_none b k)
      (ap (λ t. t ++ b) (drop_end_slash_some a h) ∙ append_assoc (drop_end_slash a) (b'/' ∷ []) b)

IsJoin-right :
    (a b : Text) → ends_with b'/' a ≡ false → has_prefix b (codes "/") ≡ true → IsJoin a b (a ++ b)
IsJoin-right a b h k = rw (drop_end_slash_none a h) (ap (◌++◌ a) (front_some b k))

IsJoin-neither :
    (a b : Text)
    → ends_with b'/' a ≡ false
    → has_prefix b (codes "/") ≡ false
    → IsJoin a b (a ++ b'/' ∷ b)
IsJoin-neither a b h k = rw (drop_end_slash_none a h, front_none b k)

-- If the first path is not empty or the second begins with a slash, the join is the first without
-- its final slash, one slash, and the second without its first slash.
pub single_joining_slash_lem :
    (a b : Text)
    → is_empty a && not (has_prefix b (codes "/")) ≡ false
    → single_joining_slash a b ≡ drop_end_slash a ++ b'/' ∷ drop_front_slash b
unfolding single_joining_slash
single_joining_slash_lem a b h = elim (Bool-cases (ends_with b'/' a)) [
  | inl al ↦ elim (Bool-cases (has_prefix b (codes "/"))) [
    | inl bl ↦ rw al (rw bl (IsJoin-both a b al bl))
    | inr bl ↦ rw al (rw bl (IsJoin-left a b al bl))
  ]
  | inr al ↦ elim (Bool-cases (has_prefix b (codes "/"))) [
    | inl bl ↦ rw al (rw bl (IsJoin-right a b al bl))
    | inr bl ↦
        let named : is_empty a ≡ false = ground arith in
        rw al (rw bl (rw named (IsJoin-neither a b al bl)))
  ]
]

-- A target without a path leaves the path as it is.
pub single_joining_slash-nil : (b : Text) → single_joining_slash [] b ≡ b
unfolding single_joining_slash
single_joining_slash-nil b = ground arith
