-- ===== src/Config/Tests.antt =====
-- Runs of the address checks of gateway/config.py.
use erp_security.Prelude.{String, ◌==◌, none, some, false, ◌≡◌, refl, []}
use erp_security.Prelude.Text.{strip, lstrip, rstrip, before, count_char}
use erp_security.Config.{IpAddress, clean_ip}
use erp_security.StateStore.Interface.{SharedStore}
use erp_security.StateStore.Memory.{memory_store}
use erp_security.Mitigation.State.{Shared, MitigationEngine, init}

clean_ip_port : clean_ip " 10.0.0.1:8080" ≡ "10.0.0.1"
unfolding clean_ip strip lstrip rstrip before count_char
clean_ip_port = refl

-- Addresses that are compared as they are written, and no networks.
abbrev plain : IpAddress
plain = record {
  Address = String;
  Network = String;
  ip_address = λ s. some s;
  ip_network = λ s. none;
  contains = λ n a. false;
  same = λ a b. a == b;
}

abbrev st : SharedStore Shared
st = memory_store Shared

abbrev idle : MitigationEngine st
unfolding memory_store
idle = init st (record { nonces = []; sets = []; hashes = [] })
