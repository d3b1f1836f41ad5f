-- ===== src/Generator/Patterns.antt =====
-- bindings/generator/parser.go: its regular expressions, in the order of the file.
use chainlink_stellar.Prelude.{true, [], ◌∷◌}
use chainlink_stellar.Config.{Bytes, bytes}
use chainlink_stellar.Generator.Text.{is_digit}
use chainlink_stellar.Generator.Regex.{
  Regex, class, star, lazy_star, then, capture, optional, end_of_text, char, literal, plus,
  sequence, word, blanks, not_char,
}

abbrev any : Regex
any = class (λ _. true)

-- `\s*(?:#\[derive[^\]]*\]\s*)*`, between the attribute and the declaration.
abbrev derives : Regex
derives =
    then blanks
      (star (sequence (literal (bytes "#[derive") ∷ star (not_char 93) ∷ char 93 ∷ blanks ∷ [])))

-- The groups 1 and 2 are not read; the name is group 3.
abbrev pub enum_header : Regex
enum_header = sequence (
    literal (bytes "#[soroban_sdk::contracttype")
    ∷ star (not_char 93)
    ∷ char 93
    ∷ derives
    ∷ literal (bytes "pub enum ")
    ∷ capture 3 word
    ∷ blanks
    ∷ char 123
    ∷ [])

abbrev pub unit_value : Regex
unit_value = sequence (
    blanks
    ∷ capture 1 word
    ∷ blanks
    ∷ char 61
    ∷ blanks
    ∷ capture 2 (then (optional (char 45)) (plus (class is_digit)))
    ∷ blanks
    ∷ end_of_text
    ∷ [])

abbrev pub unit_bare : Regex
unit_bare = sequence (blanks ∷ capture 1 word ∷ blanks ∷ end_of_text ∷ [])

abbrev pub tuple_variant : Regex
tuple_variant = sequence (
    blanks
    ∷ capture 1 word
    ∷ blanks
    ∷ char 40
    ∷ capture 2 (plus any)
    ∷ char 41
    ∷ blanks
    ∷ end_of_text
    ∷ [])

abbrev pub struct_variant : Regex
struct_variant = sequence (
    blanks
    ∷ capture 1 word
    ∷ blanks
    ∷ char 123
    ∷ capture 2 (plus any)
    ∷ char 125
    ∷ blanks
    ∷ end_of_text
    ∷ [])

abbrev pub variant_field : Regex
variant_field =
    sequence (capture 1 word ∷ blanks ∷ char 58 ∷ blanks ∷ capture 2 (plus (not_char 44)) ∷ [])

-- `(\w+)\s*\{([^}]+)\}` after `pub struct ` or `pub enum `, the groups 1 and 2.
abbrev declared : Bytes → Regex
declared keyword = sequence (
    literal keyword
    ∷ capture 1 word
    ∷ blanks
    ∷ char 123
    ∷ capture 2 (plus (not_char 125))
    ∷ char 125
    ∷ [])

abbrev pub struct_declaration : Regex
struct_declaration = sequence (
    literal (bytes "#[soroban_sdk::contracttype")
    ∷ star (not_char 93)
    ∷ char 93
    ∷ derives
    ∷ declared (bytes "pub struct ")
    ∷ [])

abbrev pub pub_field : Regex
pub_field = sequence (
    literal (bytes "pub ")
    ∷ capture 1 word
    ∷ char 58
    ∷ blanks
    ∷ capture 2 (plus (not_char 44))
    ∷ char 44
    ∷ [])

abbrev pub trait_block : Regex
trait_block = sequence (
    literal (bytes "pub trait ")
    ∷ word
    ∷ literal (bytes " {")
    ∷ capture 1 (then any (lazy_star any))
    ∷ literal (bytes "\n}")
    ∷ [])

abbrev pub trait_function : Regex
trait_function = sequence (
    literal (bytes "fn ")
    ∷ capture 1 word
    ∷ blanks
    ∷ char 40
    ∷ blanks
    ∷ literal (bytes "env:")
    ∷ blanks
    ∷ literal (bytes "soroban_sdk::Env")
    ∷ blanks
    ∷ optional (sequence (char 44 ∷ blanks ∷ capture 2 (star (not_char 41)) ∷ []))
    ∷ char 41
    ∷ blanks
    ∷ literal (bytes "->")
    ∷ blanks
    ∷ capture 3 (plus (not_char 59))
    ∷ char 59
    ∷ [])

abbrev pub error_declaration : Regex
error_declaration = sequence (
    literal (bytes "#[soroban_sdk::contracterror")
    ∷ star (not_char 93)
    ∷ char 93
    ∷ derives
    ∷ declared (bytes "pub enum ")
    ∷ [])

abbrev pub error_variant : Regex
error_variant =
    sequence (capture 1 word ∷ blanks ∷ char 61 ∷ blanks ∷ capture 2 (plus (class is_digit)) ∷ [])

-- The topics are group 3; the name and the body are the groups 1 and 2.
abbrev pub event_declaration : Regex
event_declaration = sequence (
    literal (bytes "#[")
    ∷ optional (literal (bytes "soroban_sdk::"))
    ∷ literal (bytes "contractevent")
    ∷ blanks
    ∷ char 40
    ∷ blanks
    ∷ literal (bytes "topics")
    ∷ blanks
    ∷ char 61
    ∷ blanks
    ∷ char 91
    ∷ capture 3 (plus (not_char 93))
    ∷ char 93
    ∷ star (not_char 41)
    ∷ char 41
    ∷ blanks
    ∷ char 93
    ∷ derives
    ∷ declared (bytes "pub struct ")
    ∷ [])

abbrev pub topic : Regex
topic = sequence (char 34 ∷ capture 1 (plus (not_char 34)) ∷ char 34 ∷ [])
