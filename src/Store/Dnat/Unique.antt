-- ===== src/Store/Dnat/Unique.antt =====
-- The table of DNAT rules of config.go, and what makes it valid: normal rules, with no two of one name or at one public port.
use in_proxy.Common.{
  ◌≡◌, ◌≢◌, refl, sym, true, false, List, [], ◌∷◌, none, arith, All, All-weaken, All-both, Pairwise,
  Bool-cases, Option-cases, Result-cases, inl, inr, ok,
}
use in_proxy.Text.{Text, ◌==◌, eq_iff}
use in_proxy.Config.{DnatRule}
use in_proxy.Common.Int.{int_eq_iff}
use in_proxy.Config.Endpoints.{is_empty}
use in_proxy.Config.Validate.{validate_dnat}
use in_proxy.Config.Validate.Forwards.{IsNormalDnat, validate_dnat-IsNormal}
use in_proxy.Config.Errors.{exists_already, not_there}
use in_proxy.Store.{Store, Io, written, write_fails, rename_fails, persist, fire_dnat}
use in_proxy.Store.Table.{found, drop_all}
use in_proxy.Store.Table.Laws.{found-none, All-drop_all, Pairwise-drop_all, place-keeps}
use in_proxy.Store.Dnat.{
  has_name, clashes, first_clash, place_dnat, save_dnat, upsert_dnat, delete_dnat,
}

-- Two rules have different names, and differ in protocol or public port.
pub record Apart (e f : DnatRule) : Type 0 where
  pub names : e.name ≢ f.name
  pub ports : e.proto ≡ f.proto → e.listen_port ≢ f.listen_port

pub record IsSound (fs : List DnatRule) : Type 0 where
  pub normal : All IsNormalDnat fs
  pub apart : Pairwise Apart fs

Apart-sym : (e f : DnatRule) → Apart e f → Apart f e
Apart-sym e f a = record { names = λ p. a.names (sym p); ports = λ p q. a.ports (sym p) (sym q) }

Apart-has_name :
    (old : Text) (e f : DnatRule) → Apart e f → has_name old e ≡ true → has_name old f ≡ false
Apart-has_name old e f a h = elim (Bool-cases (has_name old f)) [
  | inl same ↦ absurd (a.names (ground (arith, eq_iff e.name old, eq_iff f.name old)))
  | inr other ↦ other
]

first_clash-none :
    (f : DnatRule) (fs : List DnatRule)
    → first_clash f fs ≡ none
    → All (λ e. clashes f e ≡ false) fs
unfolding first_clash
first_clash-none f [] h = tt
first_clash-none f (e ∷ es) h = elim (Bool-cases (clashes f e)) [
  | inl hit ↦ absurd (ground arith)
  | inr miss ↦ (miss, first_clash-none f es (rw miss at h))
]

Apart-clashes : (f e : DnatRule) → f.name ≢ e.name → clashes f e ≡ false → Apart f e
unfolding clashes
Apart-clashes f e n h = record {
  names = n;
  ports = λ p q.
      ground (
        arith,
        eq_iff e.name f.name,
        eq_iff e.proto f.proto,
        int_eq_iff e.listen_port f.listen_port,
      );
}

other_name : (f e : DnatRule) → has_name f.name e ≡ false → f.name ≢ e.name
other_name f e h p = ground (arith, eq_iff e.name f.name)

Apart-All :
    (f : DnatRule) (fs : List DnatRule)
    → first_clash f fs ≡ none
    → found (has_name f.name) fs ≡ false
    → All (λ e. Apart f e) fs
Apart-All f fs h k =
    All-weaken (λ e. (clashes f e ≡ false) × (has_name f.name e ≡ false)) (λ e. Apart f e)
      (λ e p. Apart-clashes f e (other_name f e p.1) p.0) fs
      (All-both (λ e. clashes f e ≡ false) (λ e. has_name f.name e ≡ false) fs
        (first_clash-none f fs h) (found-none (has_name f.name) fs k))

kept_name :
    (old : Text) (f : DnatRule) (fs : List DnatRule)
    → old ≡ f.name
    → first_clash f fs ≡ none
    → All (λ e. has_name old e ≡ false → Apart f e) fs
kept_name old f fs same h =
    All-weaken (λ e. clashes f e ≡ false) (λ e. has_name old e ≡ false → Apart f e)
      (λ e p q. Apart-clashes f e (other_name f e (rw (sym same) q)) p) fs (first_clash-none f fs h)

-- What an accepted edit makes of a sound table is sound.
place_dnat-IsSound :
    (old : Text) (f : DnatRule) (fs gs : List DnatRule)
    → IsNormalDnat f
    → IsSound fs
    → place_dnat old f fs ≡ ok gs
    → IsSound gs
unfolding place_dnat
place_dnat-IsSound old f fs gs n v e = elim (Option-cases (first_clash f fs)) [
  | inr (c, clash) ↦ absurd (ground arith)
  | inl free ↦
      let (normal, apart) =
        place-keeps IsNormalDnat Apart Apart-sym (is_empty old) (old == f.name) (has_name f.name)
          (has_name old) (exists_already f.name) (not_there old) f fs gs (Apart-has_name old) n
          (Apart-All f fs free) (λ same. kept_name old f fs ((eq_iff old f.name).0 same) free)
          (v.normal, v.apart) (rw (free, place_dnat) at e) in
      record { normal = normal; apart = apart }
]

-- Whatever the file system does, saving puts the list in memory.
dnat-save_dnat : (io : Io) (s : Store) (fs : List DnatRule) → (save_dnat io s fs).1.dnat ≡ fs
unfolding persist fire_dnat
dnat-save_dnat written s fs = ground arith
dnat-save_dnat write_fails s fs = refl
dnat-save_dnat rename_fails s fs = refl

-- UpsertDNAT keeps the table of rules sound, on every path, errors included.
pub upsert_dnat-IsSound :
    (old : Text) (f : DnatRule) (io : Io) (s : Store)
    → IsSound s.dnat
    → IsSound (upsert_dnat old f io s).1.dnat
unfolding upsert_dnat
upsert_dnat-IsSound old f io s v = elim (Result-cases (validate_dnat f)) [
  | inr (e, bad) ↦ rw (bad, upsert_dnat) v
  | inl (g, good) ↦ elim (Result-cases (place_dnat old g s.dnat)) [
    | inr (e, bad) ↦ rw (good, upsert_dnat) (rw (bad, upsert_dnat) v)
    | inl (gs, placed) ↦
        rw (good, upsert_dnat)
          (rw (placed, upsert_dnat)
            (rw (dnat-save_dnat io s gs)
              (place_dnat-IsSound old g s.dnat gs (validate_dnat-IsNormal f g good) v placed)))
  ]
]

pub delete_dnat-IsSound :
    (name : Text) (io : Io) (s : Store) → IsSound s.dnat → IsSound (delete_dnat name io s).1.dnat
unfolding delete_dnat
delete_dnat-IsSound name io s v = elim (Bool-cases (found (has_name name) s.dnat)) [
  | inr missing ↦ rw missing v
  | inl there ↦ rw there (
      rw (dnat-save_dnat io s (drop_all (has_name name) s.dnat)) (record {
        normal = All-drop_all (has_name name) IsNormalDnat s.dnat v.normal;
        apart = Pairwise-drop_all (has_name name) Apart s.dnat v.apart;
      }))
]
