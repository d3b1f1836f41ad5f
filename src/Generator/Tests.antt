-- ===== src/Generator/Tests.antt =====
-- bindings/generator: tests and witnesses on small interfaces.
use chainlink_stellar.Prelude.{ℕ, [], ◌∷◌, true, some, ◌≡◌, ◌↔◌, refl, arith}
use chainlink_stellar.Prelude.Int64.{int64}
use chainlink_stellar.Config.{Bytes, bytes}
use chainlink_stellar.Generator.{
  Struct, ErrorEnum, EnumVariant, Enum, Event, Contract, unit_kind, tuple_kind, struct_kind,
}
use chainlink_stellar.Generator.Parser.{parse_enums, parse_functions}
use chainlink_stellar.Generator.Split.{extract_balanced_body, split_top_level}
use chainlink_stellar.Generator.Variants.{parse_enum_variants}
use chainlink_stellar.Generator.Names.{rust_type_to_go}
use chainlink_stellar.Generator.TypesFile.{generate_types}
use chainlink_stellar.Generator.Payloads.{generate_payload_from_scval}
use chainlink_stellar.Generator.Client.{get_arg_converter}
use chainlink_stellar.Generator.Write.{render}
use chainlink_stellar.Generator.Brackets.{IsBracketed}
use chainlink_stellar.Generator.Plain.{literal-IsPlain, all_plain}
use chainlink_stellar.Generator.UnionsBracketed.{IsPlainContract, generate_types-IsBracketed}
use chainlink_stellar.Generator.RustText.{option, vec, bytes_n}
use chainlink_stellar.Generator.RustType.{rust_type_to_go-rust_text}
use chainlink_stellar.Generator.Pieces.{
  Piece, nothing, byte, group, angle_bracket, split_top_level_pieces,
}
use chainlink_stellar.Generator.Balanced.{IsClosed, extract_balanced_body_iff}
use chainlink_stellar.Generator.Numbered.{Rising, unit_values, parse_enum_variants-Rising}

abbrev direction : Bytes
direction =
    bytes
      "#[soroban_sdk::contracttype(export = false)]\n#[derive(Clone)]\npub enum Direction { Out, In = 4, Both }"

abbrev bare_unit : Bytes → ℕ → EnumVariant
bare_unit n v = record { name = n; kind = unit_kind; value = int64 v; payload = [] }

parse_enums-direction :
    parse_enums direction
    ≡ record {
      name = bytes "Direction";
      variants =
          bare_unit (bytes "Out") 0 ∷ bare_unit (bytes "In") 4 ∷ bare_unit (bytes "Both") 5 ∷ [];
    }
      ∷ []
unfolding parse_enums
parse_enums-direction = refl

abbrev key : Bytes
key =
    bytes
      "#[soroban_sdk::contracttype]\npub enum Key { Owner, Pair(Vec<u32>, u64), At { lane: u64, of: Address } }"

parse_enums_key :
    parse_enums key
    ≡ record {
      name = bytes "Key";
      variants =
          record { name = bytes "Owner"; kind = unit_kind; value = int64 0; payload = [] }
          ∷ record {
            name = bytes "Pair";
            kind = tuple_kind;
            value = int64 0;
            payload =
                record { name = []; type_name = bytes "soroban_sdk::Vec<u32>" }
                ∷ record { name = []; type_name = bytes "u64" }
                ∷ [];
          }
          ∷ record {
            name = bytes "At";
            kind = struct_kind;
            value = int64 0;
            payload =
                record { name = bytes "lane"; type_name = bytes "u64" }
                ∷ record { name = bytes "of"; type_name = bytes "soroban_sdk::Address" }
                ∷ [];
          }
          ∷ [];
    }
      ∷ []
unfolding parse_enums
parse_enums_key = refl

abbrev trait : Bytes
trait =
    bytes
      "pub trait Contract {\n  fn get_fee(env: soroban_sdk::Env, dest: u64, m: Map<u32, Vec<u8>>) -> Result<i128, E>;\n}"

parse_functions-trait :
    parse_functions trait
    ≡ record {
      name = bytes "get_fee";
      inputs =
          record { name = bytes "dest"; type_name = bytes "u64" }
          ∷ record { name = bytes "m"; type_name = bytes "Map<u32, Vec<u8>>" }
          ∷ [];
      returns = bytes "Result<i128, E>";
    }
      ∷ []
unfolding parse_functions
parse_functions-trait = refl

abbrev config : Struct
config = record {
  name = bytes "Config";
  fields =
      record { name = bytes "owner"; type_name = bytes "Option<soroban_sdk::Address>" }
      ∷ record { name = bytes "lane_ids"; type_name = bytes "soroban_sdk::Vec<u64>" }
      ∷ [];
}

abbrev fault : ErrorEnum
fault = record {
  name = bytes "Fault";
  variants = record { name = bytes "NotOwner"; value = int64 1 } ∷ [];
}

abbrev sent : Event
sent = record {
  name = bytes "Sent";
  topics = bytes "sent" ∷ [];
  fields = record { name = bytes "to"; type_name = bytes "soroban_sdk::Bytes" } ∷ [];
}

abbrev slot : Enum
slot = record {
  name = bytes "Slot";
  variants =
      record { name = bytes "Admin"; kind = unit_kind; value = int64 0; payload = [] }
      ∷ record {
        name = bytes "Lane";
        kind = tuple_kind;
        value = int64 0;
        payload = record { name = []; type_name = bytes "u64" } ∷ [];
      }
      ∷ [];
}

abbrev small_contract : Contract
small_contract = record {
  name = bytes "Small";
  structs = config ∷ [];
  functions = [];
  errors = fault ∷ [];
  events = sent ∷ [];
  enums = slot ∷ [];
}

small_contract-IsPlain : IsPlainContract small_contract
small_contract-IsPlain =
    let p = λ (text : Bytes) (e : all_plain text ≡ true). literal-IsPlain text e in
    (
      (
        (
          p (bytes "Config") refl,
          (
            (p (bytes "owner") refl, p (bytes "Option<soroban_sdk::Address>") refl),
            ((p (bytes "lane_ids") refl, p (bytes "soroban_sdk::Vec<u64>") refl), tt),
          ),
        ),
        tt,
      ),
      (
        ((p (bytes "Fault") refl, (p (bytes "NotOwner") refl, tt)), tt),
        (
          (
            (
              p (bytes "Sent") refl,
              (p (bytes "sent") refl, tt),
              ((p (bytes "to") refl, p (bytes "soroban_sdk::Bytes") refl), tt),
            ),
            tt,
          ),
          (
            (
              p (bytes "Slot") refl,
              (
                (p (bytes "Admin") refl, tt),
                ((p (bytes "Lane") refl, ((tt, p (bytes "u64") refl), tt)), tt),
              ),
            ),
            tt,
          ),
        ),
      ),
    )

generate_types-IsBracketed_example : IsBracketed (generate_types (bytes "small") small_contract)
generate_types-IsBracketed_example =
    generate_types-IsBracketed (bytes "small") small_contract (literal-IsPlain (bytes "small") refl)
      small_contract-IsPlain

rust_type_to_go-rust_text_example :
    rust_type_to_go (bytes "Option<soroban_sdk::Vec<soroban_sdk::BytesN<32>>>")
    ≡ bytes "*[][32]byte"
rust_type_to_go-rust_text_example =
    rust_type_to_go-rust_text (option (vec (bytes_n (bytes "32")))) (refl, (refl, tt))

-- `u32<` and `>` around `a`, a comma and `b`.
abbrev generic : Piece
generic = byte 86 (group angle_bracket (byte 97 (byte 44 (byte 98 nothing))) nothing)

split_top_level_pieces_example :
    split_top_level (bytes "V<a,b>,x,") 44 ≡ bytes "V<a,b>" ∷ bytes "x" ∷ []
split_top_level_pieces_example =
    split_top_level_pieces 44 refl (generic ∷ byte 120 nothing ∷ []) nothing
      (((refl, ((refl, (refl, (refl, tt))), tt)), (refl, tt)), (((refl, tt), (refl, tt)), tt)) tt tt

extract_balanced_body_iff_example :
    (extract_balanced_body 0 (bytes "a{b}} c") ≡ some (bytes "a{b}"))
    ↔ IsClosed 0 (bytes "a{b}} c") (bytes "a{b}")
extract_balanced_body_iff_example = extract_balanced_body_iff (bytes "a{b}} c") (bytes "a{b}")

parse_enum_variants-Rising_example :
    Rising (int64 0) (unit_values (parse_enum_variants (bytes "Out, In = 4, Both")))
unfolding parse_enum_variants
parse_enum_variants-Rising_example =
    parse_enum_variants-Rising (bytes "Out, In = 4, Both")
      (omega arith, ((omega arith), (omega arith), (omega arith, tt)))

-- A string argument is converted as a struct, and a vector in a payload is decoded as one.
string_argument :
    get_arg_converter (bytes "soroban_sdk::String") (bytes "memo")
    ≡ bytes "scval.MustToScVal(memo.ToScVal())"
unfolding get_arg_converter
string_argument = refl

vector_payload :
    render (
      generate_payload_from_scval []
        (bytes "soroban_sdk::Vec<u32>")
        (bytes "vec[1]")
        (bytes "p.Field0")
        (bytes "Key::Pair[0]")
        (bytes "Key"))
    ≡ bytes
        "\t\tif v, err := Vec<u32>FromScVal(vec[1]); err != nil { return Key{}, fmt.Errorf(\"Key::Pair[0]: %w\", err) } else { p.Field0 = *v }\n"
unfolding render generate_payload_from_scval
vector_payload = refl
