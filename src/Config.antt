-- ===== src/Config.antt =====
-- The protected addresses of gateway/config.py (`GatewayConfig._clean_ip`, `is_ip_whitelisted`
-- and `is_trusted_proxy`). The library `ipaddress` is a parameter; `none` is its `ValueError`.
-- Environment variables are read into the fields by the caller.
mod Whitelist
mod Tests
use erp_security.Prelude.{
  ℕ, String, ◌==◌, starts_with, Option, none, some, Bool, true, false, ◌&&◌, ◌||◌, ltb, eqb,
  if◌then◌else◌, List, [], ◌∷◌,
}
use erp_security.Prelude.Text.{strip, lstrip, before, count_char, truthy, member}

-- `ip_address`, `ip_network(_, strict=False)`, `in` and `==` of the library.
pub record IpAddress : Type 1 where
  pub Address : Type 0
  pub Network : Type 0
  pub ip_address : String → Option Address
  pub ip_network : String → Option Network
  pub contains : Network → Address → Bool
  pub same : Address → Address → Bool

-- `ip_str` without brackets or port.
unfoldable pub clean_ip : String → String
clean_ip ip_str = if truthy ip_str then strip_port (strip ip_str) else ""
  where
    strip_port : String → String
    strip_port clean =
        if starts_with clean "[" && ltb 0 (count_char b']' clean)
        then lstrip (λ c. eqb c b'[') (before b']' clean)
        else if eqb (count_char b':' clean) 1
        then strip (before b':' clean)
        else clean

abbrev pub local_hosts : List String
local_hosts = "127.0.0.1" ∷ "::1" ∷ "localhost" ∷ "testclient" ∷ []

module _ (ip : IpAddress) where
  -- One entry of a list of hosts and networks; a text that does not parse matches nothing.
  matches : ip.Address → String → Bool
  matches addr cidr =
      if ltb 0 (count_char b'/' cidr)
      then elim (ip.ip_network cidr) [ none ↦ false | some n ↦ ip.contains n addr ]
      else elim (ip.ip_address cidr) [ none ↦ false | some a ↦ ip.same addr a ]

  any_match : ip.Address → List String → Bool
  any_match addr [] = false
  any_match addr (cidr ∷ cidrs) = matches addr cidr || any_match addr cidrs

  -- The whitelist skips the entries "localhost" and "testclient".
  any_whitelisted : ip.Address → List String → Bool
  any_whitelisted addr [] = false
  any_whitelisted addr (cidr ∷ cidrs) =
      let rest = any_whitelisted addr cidrs in
      if cidr == "localhost" || cidr == "testclient" then rest else matches addr cidr || rest

  -- `internal_ip_whitelist` is the first argument.
  unfoldable pub is_ip_whitelisted : List String → String → Bool
  unfolding any_whitelisted matches
  is_ip_whitelisted whitelist ip_str =
      if truthy ip_str
      then member (clean_ip ip_str) local_hosts || elim (ip.ip_address (clean_ip ip_str)) [
        | none ↦ false
        | some addr ↦ any_whitelisted addr whitelist
      ]
      else false

  -- `trusted_proxies` is the first argument.
  unfoldable pub is_trusted_proxy : List String → String → Bool
  unfolding any_match matches
  is_trusted_proxy proxies ip_str =
      if truthy ip_str
      then member (clean_ip ip_str) local_hosts || elim (ip.ip_address (clean_ip ip_str)) [
        | none ↦ false
        | some addr ↦ any_match addr proxies
      ]
      else false
