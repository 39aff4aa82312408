-- ===== src/DomainRouter/Header/Given.antt =====
-- What a backend gets of a client's stream: just that, or a header in front of it that announces the
-- addresses of the connection.
use in_proxy.Common.{ℕ, ◌≡◌, ap, sym, ◌∙◌, Bool, true, false, List, [], ◌++◌, some}
use in_proxy.DomainRouter.Header.{TcpAddr, proxy_header}
use in_proxy.DomainRouter.Header.Reader.{Announced, Announces, read_header}

abbrev pub IsGiven : Bool → TcpAddr → TcpAddr → List ℕ → List ℕ → Type 0
IsGiven false s d written stream = written ≡ stream
IsGiven true s d written stream =
    (a : Announced) × (read_header written ≡ some (a, stream)) × Announces a s d

-- The bytes that the backend is given first.
abbrev pub IsBegun : Bool → TcpAddr → TcpAddr → List ℕ → Type 0
IsBegun false s d first = first ≡ []
IsBegun true s d first = proxy_header (some s) (some d) ≡ some first

pub begun-IsGiven :
    (pp : Bool) (s d : TcpAddr) (first h written stream : List ℕ)
    → IsBegun pp s d first
    → proxy_header (some s) (some d) ≡ some h
    → (a : Announced) × (read_header (h ++ stream) ≡ some (a, stream)) × Announces a s d
    → written ≡ first ++ stream
    → IsGiven pp s d written stream
begun-IsGiven false s d first h written stream b made read_back whole = rw b at whole
begun-IsGiven true s d first h written stream b made (a, got, told) whole =
    let same : h ≡ first = cc in
    (a, ap read_header (whole ∙ ap (λ t. t ++ stream) (sym same)) ∙ got, told)
