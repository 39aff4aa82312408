-- ===== src/Store/Forwards/Unique.antt =====
-- The table of forwards of config.go, and what makes it valid: normal entries, with no two of one name or at one address.
use in_proxy.Common.{
  ◌≡◌, ◌≢◌, refl, sym, true, false, List, [], ◌∷◌, none, arith, All, All-weaken, All-both, Pairwise,
  Bool-cases, Option-cases, Result-cases, inl, inr, ok,
}
use in_proxy.Text.{Text, ◌==◌, eq_iff}
use in_proxy.Config.{Forward}
use in_proxy.Config.Endpoints.{is_empty}
use in_proxy.Config.Validate.{validate_forward}
use in_proxy.Config.Validate.Forwards.{IsNormalForward, validate_forward-IsNormal}
use in_proxy.Config.Errors.{exists_already, not_there}
use in_proxy.Store.{Store, Io, written, write_fails, rename_fails, persist, fire_forwards}
use in_proxy.Store.Table.{found, drop_all}
use in_proxy.Store.Table.Laws.{found-none, All-drop_all, Pairwise-drop_all, place-keeps}
use in_proxy.Store.Forwards.{
  has_name, clashes, first_clash, place_forward, save_forwards, upsert_forward, delete_forward,
}

-- Two forwards have different names, and differ in protocol or listen address.
pub record Apart (e f : Forward) : Type 0 where
  pub names : e.name ≢ f.name
  pub addresses : e.proto ≡ f.proto → e.listen ≢ f.listen

pub record IsSound (fs : List Forward) : Type 0 where
  pub normal : All IsNormalForward fs
  pub apart : Pairwise Apart fs

Apart-sym : (e f : Forward) → Apart e f → Apart f e
Apart-sym e f a = record {
  names = λ p. a.names (sym p);
  addresses = λ p q. a.addresses (sym p) (sym q);
}

Apart-has_name :
    (old : Text) (e f : Forward) → Apart e f → has_name old e ≡ true → has_name old f ≡ false
Apart-has_name old e f a h = elim (Bool-cases (has_name old f)) [
  | inl same ↦ absurd (a.names (ground (arith, eq_iff e.name old, eq_iff f.name old)))
  | inr other ↦ other
]

first_clash-none :
    (f : Forward) (fs : List Forward) → first_clash f fs ≡ none → All (λ e. clashes f e ≡ false) fs
unfolding first_clash
first_clash-none f [] h = tt
first_clash-none f (e ∷ es) h = elim (Bool-cases (clashes f e)) [
  | inl hit ↦ absurd (ground arith)
  | inr miss ↦ (miss, first_clash-none f es (rw miss at h))
]

Apart-clashes : (f e : Forward) → f.name ≢ e.name → clashes f e ≡ false → Apart f e
unfolding clashes
Apart-clashes f e n h = record {
  names = n;
  addresses =
      λ p q. ground (arith, eq_iff e.name f.name, eq_iff e.proto f.proto, eq_iff e.listen f.listen);
}

other_name : (f e : Forward) → has_name f.name e ≡ false → f.name ≢ e.name
other_name f e h p = ground (arith, eq_iff e.name f.name)

Apart-All :
    (f : Forward) (fs : List Forward)
    → first_clash f fs ≡ none
    → found (has_name f.name) fs ≡ false
    → All (λ e. Apart f e) fs
Apart-All f fs h k =
    All-weaken (λ e. (clashes f e ≡ false) × (has_name f.name e ≡ false)) (λ e. Apart f e)
      (λ e p. Apart-clashes f e (other_name f e p.1) p.0) fs
      (All-both (λ e. clashes f e ≡ false) (λ e. has_name f.name e ≡ false) fs
        (first_clash-none f fs h) (found-none (has_name f.name) fs k))

kept_name :
    (old : Text) (f : Forward) (fs : List Forward)
    → old ≡ f.name
    → first_clash f fs ≡ none
    → All (λ e. has_name old e ≡ false → Apart f e) fs
kept_name old f fs same h =
    All-weaken (λ e. clashes f e ≡ false) (λ e. has_name old e ≡ false → Apart f e)
      (λ e p q. Apart-clashes f e (other_name f e (rw (sym same) q)) p) fs (first_clash-none f fs h)

-- What an accepted edit makes of a sound table is sound.
place_forward-IsSound :
    (old : Text) (f : Forward) (fs gs : List Forward)
    → IsNormalForward f
    → IsSound fs
    → place_forward old f fs ≡ ok gs
    → IsSound gs
unfolding place_forward
place_forward-IsSound old f fs gs n v e = elim (Option-cases (first_clash f fs)) [
  | inr (c, clash) ↦ absurd (ground arith)
  | inl free ↦
      let (normal, apart) =
        place-keeps IsNormalForward Apart Apart-sym (is_empty old) (old == f.name) (has_name f.name)
          (has_name old) (exists_already f.name) (not_there old) f fs gs (Apart-has_name old) n
          (Apart-All f fs free) (λ same. kept_name old f fs ((eq_iff old f.name).0 same) free)
          (v.normal, v.apart) (rw (free, place_forward) at e) in
      record { normal = normal; apart = apart }
]

-- Whatever the file system does, saving puts the list in memory.
forwards-save_forwards :
    (io : Io) (s : Store) (fs : List Forward) → (save_forwards io s fs).1.forwards ≡ fs
unfolding persist fire_forwards
forwards-save_forwards written s fs = ground arith
forwards-save_forwards write_fails s fs = refl
forwards-save_forwards rename_fails s fs = refl

-- UpsertForward keeps the table of forwards sound, on every path, errors included.
pub upsert_forward-IsSound :
    (old : Text) (f : Forward) (io : Io) (s : Store)
    → IsSound s.forwards
    → IsSound (upsert_forward old f io s).1.forwards
unfolding upsert_forward
upsert_forward-IsSound old f io s v = elim (Result-cases (validate_forward f)) [
  | inr (e, bad) ↦ rw (bad, upsert_forward) v
  | inl (g, good) ↦ elim (Result-cases (place_forward old g s.forwards)) [
    | inr (e, bad) ↦ rw (good, upsert_forward) (rw (bad, upsert_forward) v)
    | inl (gs, placed) ↦
        rw (good, upsert_forward)
          (rw (placed, upsert_forward)
            (rw (forwards-save_forwards io s gs) (
              place_forward-IsSound old g s.forwards gs (validate_forward-IsNormal f g good) v
                placed)))
  ]
]

pub delete_forward-IsSound :
    (name : Text) (io : Io) (s : Store)
    → IsSound s.forwards
    → IsSound (delete_forward name io s).1.forwards
unfolding delete_forward
delete_forward-IsSound name io s v = elim (Bool-cases (found (has_name name) s.forwards)) [
  | inr missing ↦ rw missing v
  | inl there ↦ rw there (
      rw (forwards-save_forwards io s (drop_all (has_name name) s.forwards)) (record {
        normal = All-drop_all (has_name name) IsNormalForward s.forwards v.normal;
        apart = Pairwise-drop_all (has_name name) Apart s.forwards v.apart;
      }))
]
