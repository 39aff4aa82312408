-- ===== src/Tls.antt =====
-- tls.go: the self-signed certificate. What stands at the two paths is the state; each call that may
-- fail has its error in a record. The paths are taken to be different.
use in_proxy.Common.{
  ◌≡◌, refl, Bool, true, false, ◌&&◌, List, [], ◌∷◌, Option, none, some, if◌then◌else◌, Bool-cases,
  inl, inr, ◌⊎◌, arith,
}
use in_proxy.Text.{Text}
use in_proxy.Config.Endpoints.{is_empty}

-- The addresses and names that a certificate is for.
pub record Names : Type 0 where
  pub ips : List Text
  pub dns : List Text

-- What a file holds: a file that was opened for writing is cut off until all of it is written.
pub data Contents : Type 0 where
  cut_off : Contents
  certificate : Names → Contents
  private_key : Contents
  other : Text → Contents

pub data Place : Type 0 where
  nothing directory : Place
  file : Contents → Place

pub record Pair : Type 0 where
  pub cert : Place
  pub key : Place

-- The error of each call, if there is one.
pub record Failures : Type 0 where
  pub mkdir : Option Text
  pub generate : Option Text
  pub serial : Option Text
  pub create : Option Text
  pub open_cert : Option Text
  pub write_cert : Option Text
  pub marshal : Option Text
  pub open_key : Option Text
  pub write_key : Option Text

abbrev pub file_exists : Place → Bool
file_exists nothing = false
file_exists directory = false
file_exists (file c) = true

-- The loop over the names: those that net.ParseIP reads are addresses, and empty ones are left out.
unfoldable pub names_of : (Text → Bool) → List Text → Names
names_of is_ip [] = record { ips = []; dns = [] }
names_of is_ip (s ∷ sans) =
    let rest = names_of is_ip sans in
    if is_empty s
    then rest
    else if is_ip s
    then record rest { ips = s ∷ rest.ips }
    else record rest { dns = s ∷ rest.dns }

-- `if err := …; err != nil { return err }`
abbrev unless : Option Text → Pair → Option Text × Pair → Option Text × Pair
unless none p next = next
unless (some e) p next = (some e, p)

-- From the opening of the first file on.
write_pair : Failures → Names → Pair → Option Text × Pair
write_pair f names p =
    let opened = record p { cert = file cut_off } in
    let certified = record p { cert = file (certificate names) } in
    let key_opened = record certified { key = file cut_off } in
    unless f.open_cert p (
      unless f.write_cert opened (
        unless f.marshal certified (
          unless f.open_key certified
            (unless f.write_key key_opened (none, record certified { key = file private_key })))))

unfoldable pub ensure_tls : (Text → Bool) → Failures → List Text → Pair → Option Text × Pair
unfolding names_of write_pair
ensure_tls is_ip f sans p =
    if file_exists p.cert && file_exists p.key
    then (none, p)
    else unless f.mkdir p (
        unless f.generate p
          (unless f.serial p (unless f.create p (write_pair f (names_of is_ip sans) p))))

module _ (is_ip : Text → Bool) where
  abbrev IsFresh : List Text → Pair → Type 0
  IsFresh sans q = (q.cert ≡ file (certificate (names_of is_ip sans))) × (q.key ≡ file private_key)

  unless-none :
      (e : Option Text) (p q : Pair) (next : Option Text × Pair)
      → unless e p next ≡ (none, q)
      → next ≡ (none, q)
  unless-none none p q next h = h
  unless-none (some e) p q next h = absurd (ground arith)

  -- If it returns no error, two files were there and are as they were, or a certificate for the names
  -- and its key have been written.
  pub ensure_tls_lem :
      (f : Failures) (sans : List Text) (p q : Pair)
      → ensure_tls is_ip f sans p ≡ (none, q)
      → ((q ≡ p) × (file_exists p.cert ≡ true) × (file_exists p.key ≡ true)) ⊎ IsFresh sans q
  unfolding ensure_tls write_pair
  ensure_tls_lem f sans p q h = elim (Bool-cases (file_exists p.cert && file_exists p.key)) [
    | inl there ↦ inl (ground arith, ground arith, ground arith)
    | inr missing ↦
        let a = unless-none f.mkdir p q _ (rw missing at h) in
        let b = unless-none f.generate p q _ a in
        let c = unless-none f.serial p q _ b in
        let d = unless-none f.create p q _ c in
        let e = unless-none f.open_cert p q _ d in
        let g = unless-none f.write_cert _ q _ e in
        let i = unless-none f.marshal _ q _ g in
        let j = unless-none f.open_key _ q _ i in
        let k = unless-none f.write_key _ q _ j in inr (ground arith, ground arith)
  ]

  -- Where a file is missing and all goes well but the writing of the key, there is an error, and the
  -- key stays cut off: every later call takes the two files as they are, and returns no error.
  pub ensure_tls-cut_off :
      (f : Failures) (sans : List Text) (p : Pair) (e : Text)
      → file_exists p.cert && file_exists p.key ≡ false
      → f ≡ record {
        mkdir = none;
        generate = none;
        serial = none;
        create = none;
        open_cert = none;
        write_cert = none;
        marshal = none;
        open_key = none;
        write_key = some e;
      }
      → (q : Pair) × (ensure_tls is_ip f sans p ≡ (some e, q))
        × (q.key ≡ file cut_off)
        × ((f' : Failures) (sans' : List Text) → ensure_tls is_ip f' sans' q ≡ (none, q))
  unfolding ensure_tls write_pair
  ensure_tls-cut_off f sans p e missing fails = (
    record { cert = file (certificate (names_of is_ip sans)); key = file cut_off },
    rw fails (rw missing refl),
    refl,
    λ f' sans'. refl,
  )
