-- ===== src/Tests/Execution.antt =====
-- Forwarding at concrete inputs. `ip_address` knows one public and one private address.
use custos_core.Common.{String, refl, false, Option, none, some, [], ◌∷◌, str_eq, if◌then◌else◌}
use custos_core.Common.Dict.{lookup, insert}
use custos_core.Execution.Target.{
  Url, Net, Address, no_port, checked_host, pins, pin_all, any_prefix, starts_with,
  validate_target_url,
}
use custos_core.Execution.{
  HttpExecutionAdapter, Request, answered, phase, circuit_of, can_request, first_of, send,
  forward_checked, forward,
}
use custos_core.Execution.Contacts.{Contacted, forward-Contacted}

abbrev address : String → Address
address s = record {
  address_text = s;
  is_private = str_eq s "10.0.0.1";
  is_loopback = false;
  is_link_local = false;
  is_reserved = false;
  is_unspecified = false;
}

abbrev parse : String → Option Address
parse s =
    if str_eq s "93.184.216.34"
    then some (address s)
    else if str_eq s "10.0.0.1"
    then some (address s)
    else none

abbrev pub net : Net
net = record { ip_address = parse; lower = λ s. s }

abbrev url : Url
url = record { scheme = "https"; hostname = some "example.com"; port_part = no_port }

abbrev pub adapter : HttpExecutionAdapter
adapter = record {
  allowlist = "example.com" ∷ [];
  circuit_threshold = 2;
  circuit_reset = 30000;
  circuits = [];
}

abbrev pub request : Request
request = record {
  url_text = "https://example.com";
  url = url;
  resolution = some ("93.184.216.34" ∷ []);
  now = 5;
  later = 6;
  response = answered 200 "ok";
}

forward-Contacted_example : Contacted net request adapter "93.184.216.34"
unfolding forward forward_checked send first_of can_request phase circuit_of validate_target_url
    checked_host pins pin_all any_prefix starts_with lookup insert
forward-Contacted_example = forward-Contacted net request adapter "93.184.216.34" refl
