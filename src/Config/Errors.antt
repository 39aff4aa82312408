-- ===== src/Config/Errors.antt =====
-- The errors of config.go: a constructor for each message, with what the message quotes.
use in_proxy.Common.Int.{ℤ}
use in_proxy.Common.{Result}
use in_proxy.Text.{Text}
use in_proxy.Text.HostPort.{AddrError}

-- The errors of `normalizeHostPort` and `normalizeListen`.
pub data EndpointError : Type 0 where
  no_listen_port : EndpointError
  not_host_port : AddrError → EndpointError
  missing_host : EndpointError
  invalid_port : Text → EndpointError

pub data Error : Type 0 where
  bad_host bad_name bad_prefix bad_protocol bad_public_port no_forwards : Error
  reserved_prefix duplicate_prefix : Text → Error
  bad_url bad_scheme no_url_host bad_concurrency : Error
  port_out_of_range duplicate_port : ℤ → Error
  bad_listen bad_target : EndpointError → Error
  bad_port_target : ℤ → EndpointError → Error
  -- the protocol and address that the entry of this name has
  address_taken : Text → Text → Text → Error
  port_taken : Text → ℤ → Text → Error
  exists_already not_there : Text → Error
  no_route_proxy : Text → Text → Error
  no_domain_proxy : Text → ℤ → Error
  write_config rename_config : Error

abbrev pub Fallible : Type 0 → Type 0
Fallible A = Result Error A
