-- ===== src/DomainRouter/Replay.antt =====
-- peekConn, peekClientHelloSNI and prefixConn of domains.go.
-- A stream is the list of the bytes that the client sends. How many bytes a read of the connection
-- gives is up to the network, and is passed along.
use in_proxy.Common.{
  ℕ, zero, suc, ◌+◌, ◌≡◌, refl, sym, ap, ◌∙◌, false, List, [], ◌∷◌, ◌++◌, if◌then◌else◌, ltb,
  length, append_assoc, arith, Bool-cases, inl, inr,
}

-- The first bytes of a stream and the others.
unfoldable pub cut : ℕ → List ℕ → List ℕ × List ℕ
cut zero s = ([], s)
cut (suc n) [] = ([], [])
cut (suc n) (c ∷ s) = let (a, b) = cut n s in (c ∷ a, b)

pub record PeekConn : Type 0 where
  pub conn : List ℕ
  pub recorded : List ℕ

-- peekConn.Read, when the connection gives `k` bytes.
unfoldable pub peek_read : ℕ → PeekConn → PeekConn
unfolding cut
peek_read k c = record { conn = (cut k c.conn).1; recorded = c.recorded ++ (cut k c.conn).0 }

-- The reads of the handshake of peekClientHelloSNI, and what it returns beside the name.
unfoldable pub peek_all : List ℕ → PeekConn → PeekConn
unfolding peek_read
peek_all [] c = c
peek_all (k ∷ ks) c = peek_all ks (peek_read k c)

abbrev pub peeked : List ℕ → List ℕ → PeekConn
peeked ks stream = peek_all ks (record { conn = stream; recorded = [] })

pub record PrefixConn : Type 0 where
  pub prefix : List ℕ
  pub off : ℕ
  pub conn : List ℕ

abbrev at_most : ℕ → ℕ → ℕ
at_most n k = if ltb n k then n else k

-- prefixConn.Read into `n` bytes, when the connection would give `k`.
unfoldable pub prefix_read : ℕ → ℕ → PrefixConn → List ℕ × PrefixConn
unfolding cut
prefix_read n k c =
    let copied = (cut n (cut c.off c.prefix).1).0 in
    if ltb c.off (length c.prefix)
    then (copied, record c { off = c.off + length copied })
    else ((cut (at_most n k) c.conn).0, record c { conn = (cut (at_most n k) c.conn).1 })

-- A sequence of reads: all that they give.
unfoldable pub read_all : List (ℕ × ℕ) → PrefixConn → List ℕ × PrefixConn
unfolding prefix_read
read_all [] c = ([], c)
read_all ((n, k) ∷ reads) c =
    let (got, after) = prefix_read n k c in
    let (more, last) = read_all reads after in (got ++ more, last)

-- What can still be read.
unfoldable pub left : PrefixConn → List ℕ
unfolding cut
left c = (cut c.off c.prefix).1 ++ c.conn

cut-append : (n : ℕ) (s : List ℕ) → (cut n s).0 ++ (cut n s).1 ≡ s
unfolding cut
cut-append zero s = refl
cut-append (suc n) [] = refl
cut-append (suc n) (c ∷ s) = ap (◌∷◌ c) (cut-append n s)

cut-add : (m n : ℕ) (s : List ℕ) → (cut (m + n) s).1 ≡ (cut n (cut m s).1).1
unfolding cut
cut-add zero n s = let e : 0 + n ≡ n = omega arith in rw e refl
cut-add (suc m) n [] = let e : suc m + n ≡ suc (m + n) = omega arith in rw e (sym (cut_empty n))
  where
    cut_empty : (n : ℕ) → (cut n []).1 ≡ []
    cut_empty zero = refl
    cut_empty (suc n) = refl
cut-add (suc m) n (c ∷ s) = let e : suc m + n ≡ suc (m + n) = omega arith in rw e (cut-add m n s)

cut-length : (n : ℕ) (s : List ℕ) → (cut (length (cut n s).0) s).1 ≡ (cut n s).1
unfolding cut
cut-length zero s = refl
cut-length (suc n) [] = refl
cut-length (suc n) (c ∷ s) = cut-length n s

cut_past : (n : ℕ) (s : List ℕ) → ltb n (length s) ≡ false → (cut n s).1 ≡ []
unfolding cut
cut_past zero [] h = refl
cut_past zero (c ∷ s) h = absurd (ground arith)
cut_past (suc n) [] h = refl
cut_past (suc n) (c ∷ s) h = cut_past n s (ground arith)

prefix_read-left :
    (n k : ℕ) (c : PrefixConn) → (prefix_read n k c).0 ++ left (prefix_read n k c).1 ≡ left c
unfolding prefix_read left
prefix_read-left n k c = elim (Bool-cases (ltb c.off (length c.prefix))) [
  | inl inside ↦
      let rest = (cut c.off c.prefix).1 in
      let copied = (cut n rest).0 in
      let after : (cut (c.off + length copied) c.prefix).1 ≡ (cut n rest).1 =
        cut-add c.off (length copied) c.prefix ∙ cut-length n rest in
      rw inside (
        rw after (
          sym (append_assoc copied (cut n rest).1 c.conn)
          ∙ ap (λ s. s ++ c.conn) (cut-append n rest)))
  | inr past ↦ rw past (rw (cut_past c.off c.prefix past) (cut-append (at_most n k) c.conn))
]

-- Whatever the sizes of the reads, what they give and what is left make up what there was to read.
pub read_all-left :
    (reads : List (ℕ × ℕ)) (c : PrefixConn)
    → (read_all reads c).0 ++ left (read_all reads c).1 ≡ left c
unfolding read_all
read_all-left [] c = refl
read_all-left ((n, k) ∷ reads) c =
    let got = (prefix_read n k c).0 in
    let after = (prefix_read n k c).1 in
    append_assoc got (read_all reads after).0 (left (read_all reads after).1)
    ∙ ap (◌++◌ got) (read_all-left reads after)
    ∙ prefix_read-left n k c

peek_all-whole :
    (ks : List ℕ) (c : PeekConn)
    → (peek_all ks c).recorded ++ (peek_all ks c).conn ≡ c.recorded ++ c.conn
unfolding peek_all
peek_all-whole [] c = refl
peek_all-whole (k ∷ ks) c =
    peek_all-whole ks (peek_read k c)
    ∙ append_assoc c.recorded (cut k c.conn).0 (cut k c.conn).1
    ∙ ap (◌++◌ c.recorded) (cut-append k c.conn)

pub peeked-whole :
    (ks stream : List ℕ) → (peeked ks stream).recorded ++ (peeked ks stream).conn ≡ stream
peeked-whole ks stream = peek_all-whole ks (record { conn = stream; recorded = [] })
