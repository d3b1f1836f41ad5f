-- ===== src/Generator/Bracketed.antt =====
-- bindings/generator/codegen.go: the brackets of types.go.
use chainlink_stellar.Prelude.{refl, List, [], ◌∷◌, ◌++◌, All}
use chainlink_stellar.Config.{Bytes, bytes, Bytes_equality}
use chainlink_stellar.Generator.{Field, Struct, ErrorEnum, Event}
use chainlink_stellar.Generator.Text.{join}
use chainlink_stellar.Generator.Names.{Known, snake_to_pascal}
use chainlink_stellar.Generator.Structs.{
  error_head, message_head, event_head, event_end, struct_head, to_scval_head, from_scval_head,
  case_line, field_line, encoded_field, decoded_field, generate_struct, error_constant,
  error_message, generate_error_enum, topic_constant, generate_event_struct,
}
use chainlink_stellar.Generator.Write.{each}
use chainlink_stellar.Generator.Brackets.{
  IsNeutral, Keeps, even, across, both, each-Keeps, nothing_written,
}
use chainlink_stellar.Generator.Plain.{
  IsPlain, snake_to_pascal-IsPlain, decimal_int-IsPlain, camel_to_spaces-IsPlain,
}
use chainlink_stellar.Generator.Neutral.{
  plain-IsNeutral, append-IsNeutral, text-IsNeutral, sprintf-IsNeutral, join-IsNeutral,
  rust_type_to_go-IsNeutral, get_to_scval_converter-IsNeutral,
}
use chainlink_stellar.Generator.Decoded.{generate_from_scval_field-Keeps}

-- Names and types without brackets.
abbrev pub IsPlainField : Field → Type 0
IsPlainField f = IsPlain f.name × IsPlain f.type_name

pascal : (s : Bytes) → IsPlain s → IsNeutral (snake_to_pascal s)
pascal s h = plain-IsNeutral (snake_to_pascal-IsPlain s h)

pub field_line-Keeps : (f : Field) → IsPlainField f → Keeps (field_line f)
field_line-Keeps f (n, h) =
    even (pascal f.name n, (rust_type_to_go-IsNeutral f.type_name h, tt)) (λ st. refl)

encoded_field-Keeps : (f : Field) → IsPlainField f → Keeps (encoded_field f)
encoded_field-Keeps f (n, h) =
    even
      (
        plain-IsNeutral n,
        (
          get_to_scval_converter-IsNeutral (bytes "s." ++ snake_to_pascal f.name)
              (append-IsNeutral (text-IsNeutral (bytes "s.") (λ st. refl)) (pascal f.name n))
              f.type_name,
          tt,
        ),
      )
      (λ st. refl)

decoded_field-Keeps : (known : Known) (f : Field) → IsPlainField f → Keeps (decoded_field known f)
decoded_field-Keeps known f (n, h) st =
    both {a = case_line f} (across st st (plain-IsNeutral n, tt) refl) (
      generate_from_scval_field-Keeps known f n h (bytes "result." ++ snake_to_pascal f.name)
        (append-IsNeutral (text-IsNeutral (bytes "result.") (λ st. refl)) (pascal f.name n)) st)

abbrev pub IsPlainStruct : Struct → Type 0
IsPlainStruct s = IsPlain s.name × All IsPlainField s.fields

pub generate_struct-Keeps :
    (known : Known) (s : Struct) → IsPlainStruct s → Keeps (generate_struct known s)
unfolding generate_struct
generate_struct-Keeps known s (n, fs) st =
    let name = plain-IsNeutral n in
    both {a = struct_head s} (across st (125 ∷ st) (name, (name, (name, tt))) refl) (
      both {a = each field_line s.fields}
        (each-Keeps field_line field_line-Keeps s.fields fs (125 ∷ st))
        (both {a = to_scval_head s}
          (across (125 ∷ st) (125 ∷ 41 ∷ 125 ∷ st) (name, (name, tt)) refl)
          (both {a = each encoded_field s.fields}
            (each-Keeps encoded_field encoded_field-Keeps s.fields fs (125 ∷ 41 ∷ 125 ∷ st))
            (both {a = from_scval_head s}
              (across (125 ∷ 41 ∷ 125 ∷ st) (125 ∷ 125 ∷ 125 ∷ st)
                (name, (name, (name, (name, (name, tt))))) refl)
              (both {a = each (decoded_field known) s.fields}
                (each-Keeps (decoded_field known) (decoded_field-Keeps known) s.fields fs
                  (125 ∷ 125 ∷ 125 ∷ st))
                (across (125 ∷ 125 ∷ 125 ∷ st) st tt refl))))))

abbrev pub IsPlainError : ErrorEnum → Type 0
IsPlainError e = IsPlain e.name × All (λ v. IsPlain v.name) e.variants

pub generate_error_enum-Keeps : (e : ErrorEnum) → IsPlainError e → Keeps (generate_error_enum e)
unfolding generate_error_enum
generate_error_enum-Keeps e (n, vs) st =
    let name = plain-IsNeutral n in
    both {a = error_head e} (across st (41 ∷ st) (name, tt) refl) (
      both {a = each (error_constant e) e.variants}
        (each-Keeps (error_constant e)
          (λ v p.
            even (name, (plain-IsNeutral p, (plain-IsNeutral (decimal_int-IsPlain v.value), tt)))
              (λ st. refl))
          e.variants vs (41 ∷ st))
        (both {a = message_head e} (across (41 ∷ st) (125 ∷ st) (name, (name, tt)) refl) (
          both {a = each error_message e.variants}
            (each-Keeps error_message
              (λ v p.
                even
                  (
                    plain-IsNeutral (decimal_int-IsPlain v.value),
                    (plain-IsNeutral (camel_to_spaces-IsPlain v.name p), tt),
                  )
                  (λ st. refl))
              e.variants vs (125 ∷ st))
            (across (125 ∷ st) st tt refl))))

abbrev pub IsPlainEvent : Event → Type 0
IsPlainEvent e = IsPlain e.name × All IsPlain e.topics × All IsPlainField e.fields

plains-IsNeutral : (ts : List Bytes) → All IsPlain ts → All IsNeutral ts
plains-IsNeutral [] all = tt
plains-IsNeutral (t ∷ ts) (p, all) = (plain-IsNeutral p, plains-IsNeutral ts all)

topic_constant-Keeps :
    (name : Bytes) (topics : List Bytes)
    → IsPlain name
    → All IsPlain topics
    → Keeps (topic_constant name topics)
topic_constant-Keeps name [] n all = nothing_written
topic_constant-Keeps name (t ∷ ts) n (p, all) =
    even (plain-IsNeutral n, (plain-IsNeutral n, (plain-IsNeutral p, tt))) (λ st. refl)

pub generate_event_struct-Keeps : (e : Event) → IsPlainEvent e → Keeps (generate_event_struct e)
unfolding generate_event_struct
generate_event_struct-Keeps e (n, ts, fs) st =
    let name = plain-IsNeutral n in
    let topics =
      sprintf-IsNeutral (bytes "[%s]") (join (bytes " ") e.topics ∷ [])
        (
          join-IsNeutral (bytes " ") e.topics (text-IsNeutral (bytes " ") (λ st. refl))
              (plains-IsNeutral e.topics ts),
          tt,
        )
        (λ st. refl) in
    both {a = event_head e} (across st (125 ∷ st) (name, (name, (topics, (name, tt)))) refl) (
      both {a = each field_line e.fields}
        (each-Keeps field_line field_line-Keeps e.fields fs (125 ∷ st))
        (both {a = event_end} (across (125 ∷ st) st tt refl)
          (topic_constant-Keeps e.name e.topics n ts st)))
