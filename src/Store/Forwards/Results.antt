-- ===== src/Store/Forwards/Results.antt =====
-- What UpsertForward does on each path: refusals, accepted edits, and writes that fail.
use in_proxy.Common.{
  ◌≡◌, ◌≢◌, refl, ◌∙◌, Bool, true, false, List, [], ◌∷◌, ◌++◌, none, some, if◌then◌else◌, arith,
  Bool-cases, inl, inr, ok, err, any,
}
use in_proxy.Text.{Text, codes, ◌==◌, eq_iff}
use in_proxy.Config.{Forward}
use in_proxy.Config.Validate.{validate_forward}
use in_proxy.Config.Errors.{address_taken, write_config, rename_config}
use in_proxy.Store.{
  Store, Io, written, write_fails, rename_fails, forwards_changed, config_of, persist,
  fire_forwards,
}
use in_proxy.Store.Forwards.{
  has_name, clashes, first_clash, place_forward, save_forwards, upsert_forward,
}

-- The store after an accepted edit that was written.
abbrev pub edited : Store → List Forward → Store
edited s fs = record s {
  forwards = fs;
  disk = some (config_of (record s { forwards = fs }));
  calls = if s.on_forward then s.calls ++ forwards_changed fs ∷ [] else s.calls;
}

save_written : (s : Store) (fs : List Forward) → save_forwards written s fs ≡ (ok tt, edited s fs)
unfolding persist fire_forwards
save_written s fs = ground arith

module _ (old : Text) (f g : Forward) (fs : List Forward) (s : Store)
    (valid : validate_forward f ≡ ok g) (placed : place_forward old g s.forwards ≡ ok fs) where
  upsert_forward-save_forwards : (io : Io) → upsert_forward old f io s ≡ save_forwards io s fs
  unfolding upsert_forward
  upsert_forward-save_forwards io = rw (valid, upsert_forward) (rw (placed, upsert_forward))

  -- An accepted edit whose write succeeds is in memory and in the file, and the listener, if one is
  -- set, is called with the new list.
  pub upsert_forward_written : upsert_forward old f written s ≡ (ok tt, edited s fs)
  upsert_forward_written = upsert_forward-save_forwards written ∙ save_written s fs

  -- An accepted edit whose write fails returns the error, and stays in memory: the file and the
  -- listener do not learn of it.
  pub upsert_forward_unwritten :
      (upsert_forward old f write_fails s ≡ (err write_config, record s { forwards = fs }))
      × (upsert_forward old f rename_fails s ≡ (err rename_config, record s { forwards = fs }))
  unfolding persist
  upsert_forward_unwritten =
      (upsert_forward-save_forwards write_fails, upsert_forward-save_forwards rename_fails)

first_clash_found :
    (f : Forward) (fs : List Forward)
    → any (clashes f) fs ≡ true
    → (e : Forward) × (first_clash f fs ≡ some e)
unfolding first_clash
first_clash_found f [] h = cc
first_clash_found f (e ∷ es) h = elim (Bool-cases (clashes f e)) [
  | inl hit ↦ (e, rw hit)
  | inr miss ↦ let (e', found') = first_clash_found f es (rw miss at h) in (e', rw miss found')
]

any-append_right :
    (p : Forward → Bool) (xs ys : List Forward) → any p ys ≡ true → any p (xs ++ ys) ≡ true
any-append_right p [] ys h = h
any-append_right p (x ∷ xs) ys h = ground (arith, any-append_right p xs ys h)

clashes_of :
    (e g : Forward) → e.name ≢ g.name → e.proto ≡ g.proto → e.listen ≡ g.listen → clashes g e ≡ true
unfolding clashes
clashes_of e g n p l =
    ground (arith, eq_iff e.name g.name, eq_iff e.proto g.proto, eq_iff e.listen g.listen)

-- A forward cannot be renamed in place: where the entry that is to be updated has another name than
-- the new one, and the same protocol and listen address, the edit is refused as a clash of addresses
-- and the store stays as it was.
pub rename_refused :
    (f g e : Forward) (before after : List Forward) (io : Io) (s : Store)
    → validate_forward f ≡ ok g
    → s.forwards ≡ before ++ e ∷ after
    → e.name ≢ g.name
    → e.proto ≡ g.proto
    → e.listen ≡ g.listen
    → (clash : Text) × (upsert_forward e.name f io s
        ≡ (err (address_taken g.proto g.listen clash), s))
unfolding upsert_forward
rename_refused f g e before after io s valid list n p l =
    let here : any (clashes g) (e ∷ after) ≡ true = rw (clashes_of e g n p l) in
    let there : any (clashes g) s.forwards ≡ true =
      rw list (any-append_right (clashes g) before (e ∷ after) here) in
    let (c, hit) = first_clash_found g s.forwards there in
    (c.name, rw (valid, upsert_forward) (rw (hit, place_forward)))

protos_differ : (codes "tcp+udp" == codes "tcp") ≡ false
unfolding ◌==◌
protos_differ = refl

no_clash : (g e : Forward) → clashes g e ≡ false → first_clash g (e ∷ []) ≡ none
unfolding first_clash
no_clash g e h = rw h

combined_apart :
    (g e : Forward) → e.proto ≡ codes "tcp+udp" → g.proto ≡ codes "tcp" → clashes g e ≡ false
unfolding clashes
combined_apart g e p q =
    let differ : (e.proto == g.proto) ≡ false = rw p (rw q protos_differ) in ground arith

combined_placed :
    (g e : Forward) (s : Store)
    → s.forwards ≡ e ∷ []
    → e.name ≢ g.name
    → e.proto ≡ codes "tcp+udp"
    → g.proto ≡ codes "tcp"
    → place_forward [] g s.forwards ≡ ok (e ∷ g ∷ [])
unfolding place_forward
combined_placed g e s list n p q =
    let other : has_name g.name e ≡ false = ground (arith, eq_iff e.name g.name) in
    let apart : first_clash g (e ∷ []) ≡ none = no_clash g e (combined_apart g e p q) in
    rw list (rw (apart, place_forward) (rw other))

-- A valid TCP forward is accepted in a store whose only forward is one for TCP and UDP at the same
-- listen address under another name, when the file is written.
pub combined_accepted :
    (f g e : Forward) (s : Store)
    → validate_forward f ≡ ok g
    → s.forwards ≡ e ∷ []
    → e.name ≢ g.name
    → e.proto ≡ codes "tcp+udp"
    → g.proto ≡ codes "tcp"
    → e.listen ≡ g.listen
    → upsert_forward [] f written s ≡ (ok tt, edited s (e ∷ g ∷ []))
combined_accepted f g e s valid list n p q l =
    upsert_forward_written [] f g (e ∷ g ∷ []) s valid (combined_placed g e s list n p q)
