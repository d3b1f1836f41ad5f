-- ===== src/Generator/Client/Methods.antt =====
-- bindings/generator/client_codegen.go: `generateMethod`.
use chainlink_stellar.Prelude.{
  not, ◌&&◌, Option, none, some, List, [], ◌∷◌, ◌++◌, map, if◌then◌else◌,
}
use chainlink_stellar.Config.{Bytes, bytes, is_prefix}
use chainlink_stellar.Generator.{Field, Function, Contract}
use chainlink_stellar.Generator.Text.{sprintf, join}
use chainlink_stellar.Generator.Names.{Known, rust_type_to_go, snake_to_pascal, snake_to_camel}
use chainlink_stellar.Generator.Client.{
  is_read_only_function, parse_return_type, is_struct_type, is_tuple_type, parse_tuple_types,
  zero_value, get_arg_converter,
}
use chainlink_stellar.Generator.Client.Returns.{generate_return_value_parsing}
use chainlink_stellar.Generator.Write.{Writes, text, printf, each}

abbrev pub method_param : Field → Bytes
method_param input =
    let go_type = rust_type_to_go input.type_name in
    sprintf (bytes "%s %s") (snake_to_camel input.name ∷ go_type ∷ [])

-- A struct is returned by pointer; the Go type of an option is a pointer already.
abbrev pub returned_type : Known → Bytes → Bytes
returned_type known t =
    if not (is_prefix (bytes "Option<") t) && is_struct_type known t
    then bytes "*" ++ rust_type_to_go t
    else rust_type_to_go t

abbrev pub method_returns : Known → Option Bytes → Bytes
method_returns known none = bytes "error"
method_returns known (some t) =
    if is_tuple_type t
    then sprintf (bytes "(%s, error)")
        (join (bytes ", ") (map (returned_type known) (parse_tuple_types t)) ∷ [])
    else sprintf (bytes "(%s, error)") (returned_type known t ∷ [])

abbrev pub method_arg : Field → Writes
method_arg input =
    let converter = get_arg_converter input.type_name (snake_to_camel input.name) in
    (printf "\t\t%s,\n" (converter ∷ []) ∷ [])

abbrev pub method_args : List Field → Writes
method_args [] = (text "\targs := []xdr.ScVal{}\n\n" ∷ [])
method_args (input ∷ inputs) =
    (text "\targs := []xdr.ScVal{\n" ∷ [])
    ++ (each method_arg (input ∷ inputs) ++ (text "\t}\n\n" ∷ []))

abbrev pub method_result : Known → Function → Option Bytes → Writes
method_result known fn none =
    (text "\tif err != nil {\n" ∷ [])
    ++ ((printf "\t\treturn fmt.Errorf(\"failed to call %s: %%w\", err)\n" (fn.name ∷ []) ∷ [])
        ++ ((text "\t}\n\n" ∷ [])
            ++ (text "\t_ = result // void return\n" ∷ text "\treturn nil\n" ∷ [])))
method_result known fn (some return_type) =
    (text "\tif err != nil {\n" ∷ [])
    ++ ((printf "\t\treturn %s, fmt.Errorf(\"failed to call %s: %%w\", err)\n"
            ((zero_value known return_type) ∷ fn.name ∷ [])
          ∷ [])
        ++ ((text "\t}\n\n" ∷ [])
            ++ ((text "\tif result == nil {\n"
                  ∷ printf "\t\treturn %s, fmt.Errorf(\"no return value from %s\")\n"
                      ((zero_value known return_type) ∷ fn.name ∷ [])
                  ∷ text "\t}\n\n"
                  ∷ [])
                ++ generate_return_value_parsing known return_type)))

unfoldable pub generate_method : Known → Contract → Function → Writes
unfolding snake_to_pascal snake_to_camel is_read_only_function parse_return_type rust_type_to_go
    is_prefix is_struct_type is_tuple_type parse_tuple_types sprintf join get_arg_converter
    zero_value generate_return_value_parsing
generate_method known contract fn =
    let method_name = snake_to_pascal fn.name in
    let params = bytes "ctx context.Context" ∷ map method_param fn.inputs in
    let returns = method_returns known (parse_return_type fn.returns) in
    (printf "// %s calls the %s function on the contract.\n" (method_name ∷ fn.name ∷ []) ∷ [])
    ++ ((printf "func (c *%sClient) %s(%s) %s {\n"
            (contract.name ∷ method_name ∷ (join (bytes ", ") params) ∷ returns ∷ [])
          ∷ [])
        ++ (method_args fn.inputs
            ++ ((if is_read_only_function fn
                  then (printf
                        "\tresult, err := c.invoker.SimulateContract(ctx, c.contractID, \"%s\", args)\n"
                        (fn.name ∷ [])
                      ∷ [])
                  else (printf
                        "\tresult, err := c.invoker.InvokeContract(ctx, c.contractID, \"%s\", args)\n"
                        (fn.name ∷ [])
                      ∷ []))
                ++ (method_result known fn (parse_return_type fn.returns) ++ (text "}\n\n" ∷ [])))))
