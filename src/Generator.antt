-- ===== src/Generator.antt =====
-- bindings/generator: the program that writes a contract's Go bindings from its Rust interface. A text
-- is the list of its bytes; the texts of the interface are ASCII. Here: what parser.go parses to.
pub mod Text
pub mod Regex
pub mod Split
pub mod Patterns
pub mod Variants
pub mod Parser
pub mod Names
pub mod Write
pub mod Encoders
pub mod Decoders
pub mod Structs
pub mod Payloads
pub mod Enums
pub mod TypesFile
pub mod Client
pub mod Main
mod Balanced
mod Pieces
mod Brackets
mod Plain
mod Neutral
mod Decoded
mod PayloadsDecoded
mod Bracketed
mod EnumsBracketed
mod UnionsBracketed
mod RustText
mod RustType
mod Numbered
mod Tests
use chainlink_stellar.Prelude.{ℕ, Bool, true, false, List, [], ◌∷◌, ◌&&◌}
use chainlink_stellar.Prelude.Int64.{Int64}
use chainlink_stellar.Config.{Bytes}

pub record Field : Type 0 where
  pub name : Bytes
  pub type_name : Bytes

pub record Struct : Type 0 where
  pub name : Bytes
  pub fields : List Field

pub record Function : Type 0 where
  pub name : Bytes
  pub inputs : List Field
  pub returns : Bytes

pub record ErrorVariant : Type 0 where
  pub name : Bytes
  pub value : Int64

pub record ErrorEnum : Type 0 where
  pub name : Bytes
  pub variants : List ErrorVariant

pub data EnumVariantKind : Type 0 where
  unit_kind : EnumVariantKind
  tuple_kind : EnumVariantKind
  struct_kind : EnumVariantKind

pub record EnumVariant : Type 0 where
  pub name : Bytes
  pub kind : EnumVariantKind
  pub value : Int64
  pub payload : List Field

pub record Enum : Type 0 where
  pub name : Bytes
  pub variants : List EnumVariant

pub record Event : Type 0 where
  pub name : Bytes
  pub topics : List Bytes
  pub fields : List Field

pub record Contract : Type 0 where
  pub name : Bytes
  pub structs : List Struct
  pub functions : List Function
  pub errors : List ErrorEnum
  pub events : List Event
  pub enums : List Enum

abbrev pub is_unit_kind : EnumVariantKind → Bool
is_unit_kind unit_kind = true
is_unit_kind _ = false

unfoldable pub all_unit : List EnumVariant → Bool
all_unit [] = true
all_unit (v ∷ vs) = is_unit_kind v.kind && all_unit vs

unfoldable pub is_unit : Enum → Bool
unfolding all_unit
is_unit e = all_unit e.variants
