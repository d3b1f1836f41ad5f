-- ===== src/Generator/Client/File.antt =====
-- bindings/generator/client_codegen.go: `GenerateClient`, the contents of client.go.
use chainlink_stellar.Prelude.{List, [], ◌∷◌, ◌++◌}
use chainlink_stellar.Config.{Bytes}
use chainlink_stellar.Generator.{Event, Contract}
use chainlink_stellar.Generator.Names.{enum_names}
use chainlink_stellar.Generator.Client.Events.{generate_event_helpers}
use chainlink_stellar.Generator.Client.Methods.{generate_method}
use chainlink_stellar.Generator.Write.{Writes, text, printf, each, render}

abbrev pub event_imports : List Event → Writes → Writes
event_imports [] ws = []
event_imports (e ∷ es) ws = ws

unfoldable pub generate_client_struct : Contract → Writes
generate_client_struct contract =
    (printf "// %sClient provides methods to interact with the %s contract.\n"
        (contract.name ∷ contract.name ∷ [])
      ∷ printf "type %sClient struct {\n" (contract.name ∷ [])
      ∷ text "\tinvoker    bindings.Invoker\n"
      ∷ text "\tcontractID string\n"
      ∷ text "}\n\n"
      ∷ [])

unfoldable pub generate_constructor : Contract → Writes
generate_constructor contract =
    (printf "// New%sClient creates a new %sClient.\n" (contract.name ∷ contract.name ∷ [])
      ∷ printf "func New%sClient(invoker bindings.Invoker, contractID string) *%sClient {\n"
          (contract.name ∷ contract.name ∷ [])
      ∷ printf "\treturn &%sClient{\n" (contract.name ∷ [])
      ∷ text "\t\tinvoker:    invoker,\n"
      ∷ text "\t\tcontractID: contractID,\n"
      ∷ text "\t}\n"
      ∷ text "}\n\n"
      ∷ text "// ContractID returns the contract ID.\n"
      ∷ printf "func (c *%sClient) ContractID() string {\n" (contract.name ∷ [])
      ∷ text "\treturn c.contractID\n"
      ∷ text "}\n\n"
      ∷ [])

abbrev pub client_writes : Bytes → Contract → Writes
client_writes pkg contract =
    let known = enum_names [] contract.enums in
    (text "// Code generated by stellar-bindings-generator. DO NOT EDIT.\n"
      ∷ printf "package %s\n\n" (pkg ∷ [])
      ∷ text "import (\n"
      ∷ text "\t\"context\"\n"
      ∷ text "\t\"fmt\"\n"
      ∷ [])
    ++ (event_imports contract.events (text "\t\"time\"\n" ∷ [])
        ++ ((text "\n"
              ∷ text "\t\"github.com/smartcontractkit/chainlink-stellar/bindings\"\n"
              ∷ text "\t\"github.com/smartcontractkit/chainlink-stellar/bindings/scval\"\n"
              ∷ [])
            ++ (event_imports contract.events
                  (text "\tprotocolrpc \"github.com/stellar/go-stellar-sdk/protocols/rpc\"\n" ∷ [])
                ++ ((text "\t\"github.com/stellar/go-stellar-sdk/xdr\"\n" ∷ text ")\n\n" ∷ [])
                    ++ (generate_client_struct contract
                        ++ (generate_constructor contract
                            ++ (each (generate_method known contract) contract.functions
                                ++ generate_event_helpers known contract)))))))

unfoldable pub generate_client : Bytes → Contract → Bytes
unfolding enum_names generate_client_struct generate_constructor generate_method
    generate_event_helpers render
generate_client pkg contract = render (client_writes pkg contract)
