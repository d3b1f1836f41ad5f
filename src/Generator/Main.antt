-- ===== src/Generator/Main.antt =====
-- bindings/generator/main.go: from the Rust interface, and the Rust source of the events where it is
-- given, to the contents of types.go and client.go.
use chainlink_stellar.Prelude.{Option, none, some, List, ◌++◌}
use chainlink_stellar.Config.{Bytes}
use chainlink_stellar.Generator.{Event, Contract}
use chainlink_stellar.Generator.Parser.{parse_rust_bindings, parse_events}
use chainlink_stellar.Generator.TypesFile.{generate_types}
use chainlink_stellar.Generator.Client.File.{generate_client}

abbrev pub more_events : Option Bytes → List Event → List Event
more_events none es = es
more_events (some source) es = es ++ parse_events source

unfoldable pub parsed_contract : Bytes → Bytes → Option Bytes → Contract
unfolding parse_rust_bindings parse_events
parsed_contract name input events =
    let contract = parse_rust_bindings input in
    record contract { name = name; events = more_events events contract.events }

pub record Output : Type 0 where
  pub types_code : Bytes
  pub client_code : Bytes

unfoldable pub generate_bindings : Bytes → Bytes → Bytes → Option Bytes → Output
unfolding parsed_contract generate_types generate_client
generate_bindings name pkg input events = record {
  types_code = generate_types pkg (parsed_contract name input events);
  client_code = generate_client pkg (parsed_contract name input events);
}
