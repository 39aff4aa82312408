-- ===== src/Config/Endpoints/Spellings.antt =====
-- How normalizeHostPort of config.go treats the spelling of a port.
use in_proxy.Common.{ℕ, ◌≡◌, refl, Bool, true, ◌&&◌, ◌||◌, not, ◌∷◌, leb, ok, arith, require-eq-ok}
use in_proxy.Text.{Text}
use in_proxy.Text.Numbers.{atoi, atoi_leading_zero}
use in_proxy.Text.HostPort.{split_host_port, join_host_port}
use in_proxy.Text.HostPort.Laws.{AreParts, split_host_port-AreParts, split_host_port-join_host_port}
use in_proxy.Config.Errors.{missing_host, invalid_port}
use in_proxy.Config.Endpoints.{is_empty, is_port_text, normalize_parts, normalize_host_port}

zero_AreParts : (host port : Text) → AreParts host port → AreParts host (b'0' ∷ port)
zero_AreParts host port v = record {
  port_colon = (omega arith, v.port_colon);
  port_open = (omega arith, v.port_open);
  port_close = (omega arith, v.port_close);
  host_open = v.host_open;
  host_close = v.host_close;
}

-- Where an address is accepted whose port starts with a digit, the address with a zero in front of
-- the port is accepted too, and is returned with the zero.
pub normalize_host_port_leading_zero :
    (s host : Text) (c : ℕ) (p : Text) (allow : Bool) (t : Text)
    → split_host_port s ≡ ok (host, c ∷ p)
    → leb b'0' c && leb c b'9' ≡ true
    → normalize_host_port s allow ≡ ok t
    → normalize_host_port (join_host_port host (b'0' ∷ c ∷ p)) allow
      ≡ ok (join_host_port host (b'0' ∷ c ∷ p))
unfolding normalize_host_port
normalize_host_port_leading_zero s host c p allow t split digit h =
    let parts = split_host_port-AreParts host (c ∷ p) s split in
    let again =
      split_host_port-join_host_port host (b'0' ∷ c ∷ p) (zero_AreParts host (c ∷ p) parts) in
    let r : normalize_parts allow host (c ∷ p) ≡ ok t = rw split at h in
    let (named, r₁) = require-eq-ok (not (is_empty host) || allow) missing_host _ r in
    let (ported, _) = require-eq-ok (is_port_text (atoi (c ∷ p))) (invalid_port (c ∷ p)) _ r₁ in
    rw again (rw named (rw (atoi_leading_zero c p digit) (rw ported refl)))
