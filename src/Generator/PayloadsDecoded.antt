-- ===== src/Generator/PayloadsDecoded.antt =====
-- bindings/generator/codegen.go: the brackets of what decodes the payload of a variant.
use chainlink_stellar.Prelude.{refl, ◌++◌, ◌==◌}
use chainlink_stellar.Config.{Bytes, bytes, Bytes_equality, is_prefix}
use chainlink_stellar.Generator.Names.{Known, is_enum_type, extract_bytes_n_size}
use chainlink_stellar.Generator.Payloads.{generate_other_payload, generate_payload_from_scval}
use chainlink_stellar.Generator.Brackets.{IsNeutral, Keeps, even, if-Keeps}
use chainlink_stellar.Generator.Plain.{IsPlain, extract_struct_name-IsPlain, decimal_int-IsPlain}
use chainlink_stellar.Generator.Neutral.{plain-IsNeutral, append-IsNeutral, text-IsNeutral}

module _ (known : Known) (t : Bytes) (h : IsPlain t) (src assign err_ctx enum_name : Bytes)
    (from : IsNeutral src) (to : IsNeutral assign) (ctx : IsNeutral err_ctx)
    (n : IsNeutral enum_name) where
  zero_value : IsNeutral (enum_name ++ bytes "{}")
  zero_value = append-IsNeutral n (text-IsNeutral (bytes "{}") (λ st. refl))

  generate_other_payload-Keeps : Keeps (generate_other_payload known t src assign err_ctx enum_name)
  unfolding generate_other_payload
  generate_other_payload-Keeps =
      let name = plain-IsNeutral (extract_struct_name-IsPlain t h) in
      let size = plain-IsNeutral (decimal_int-IsPlain (extract_bytes_n_size t)) in
      if-Keeps (is_prefix (bytes "soroban_sdk::BytesN<") t)
        (even (size, (from, (zero_value, (ctx, (to, tt))))) (λ st. refl))
        (if-Keeps (is_enum_type known t)
          (even (name, (from, (zero_value, (ctx, (to, tt))))) (λ st. refl))
          (even (name, (from, (zero_value, (ctx, (to, tt))))) (λ st. refl)))

  pub generate_payload_from_scval-Keeps :
      Keeps (generate_payload_from_scval known t src assign err_ctx enum_name)
  unfolding generate_payload_from_scval
  generate_payload_from_scval-Keeps =
      if-Keeps (t == bytes "u32") (even (from, (to, (zero_value, (ctx, tt)))) (λ st. refl)) (
        if-Keeps (t == bytes "u64") (even (from, (zero_value, (ctx, (to, tt)))) (λ st. refl)) (
          if-Keeps (t == bytes "i128") (even (from, (zero_value, (ctx, (to, tt)))) (λ st. refl)) (
            if-Keeps (t == bytes "u128") (even (from, (zero_value, (ctx, (to, tt)))) (λ st. refl)) (
              if-Keeps (t == bytes "bool") (even (from, (to, (zero_value, (ctx, tt)))) (λ st. refl))
                (if-Keeps (t == bytes "soroban_sdk::Address")
                  (even (from, (zero_value, (ctx, (to, tt)))) (λ st. refl))
                  (if-Keeps (t == bytes "soroban_sdk::Bytes")
                    (even (from, (to, (zero_value, (ctx, tt)))) (λ st. refl))
                    (if-Keeps (t == bytes "soroban_sdk::String")
                      (even (from, (zero_value, (ctx, (to, tt)))) (λ st. refl))
                      (if-Keeps (t == bytes "soroban_sdk::Symbol")
                        (even (from, (zero_value, (ctx, (to, tt)))) (λ st. refl))
                        generate_other_payload-Keeps))))))))
