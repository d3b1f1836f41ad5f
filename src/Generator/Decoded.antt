-- ===== src/Generator/Decoded.antt =====
-- bindings/generator/codegen.go: the brackets of what decodes a value.
use chainlink_stellar.Prelude.{refl, ◌∷◌, ◌++◌, ltb, ◌==◌}
use chainlink_stellar.Prelude.Int64.{int64}
use chainlink_stellar.Config.{Bytes, bytes, Bytes_equality, is_prefix}
use chainlink_stellar.Generator.{Field}
use chainlink_stellar.Generator.Names.{
  Known, is_enum_type, extract_vec_inner_type, extract_bytes_n_size,
}
use chainlink_stellar.Generator.Encoders.{is_optional_address}
use chainlink_stellar.Generator.Decoders.{
  vec_field_head, generate_other_item, generate_vec_item_parse, generate_composite_field,
  generate_from_scval_field,
}
use chainlink_stellar.Generator.Brackets.{IsNeutral, Keeps, even, across, both, if-Keeps}
use chainlink_stellar.Generator.Plain.{
  IsPlain, extract_struct_name-IsPlain, extract_vec_inner_type-IsPlain, decimal_int-IsPlain,
}
use chainlink_stellar.Generator.Neutral.{
  plain-IsNeutral, append-IsNeutral, text-IsNeutral, rust_type_to_go-IsNeutral,
}

module _ (known : Known) (target : Bytes) (to : IsNeutral target) where
  generate_other_item-Keeps : (t : Bytes) → IsPlain t → Keeps (generate_other_item known t target)
  unfolding generate_other_item
  generate_other_item-Keeps t h =
      let name = plain-IsNeutral (extract_struct_name-IsPlain t h) in
      let size = plain-IsNeutral (decimal_int-IsPlain (extract_bytes_n_size t)) in
      if-Keeps (is_optional_address t) (even (to, tt) (λ st. refl)) (
        if-Keeps (ltb (int64 0) (extract_bytes_n_size t)) (even (size, (to, tt)) (λ st. refl)) (
          if-Keeps (is_enum_type known t) (even (name, (to, tt)) (λ st. refl))
            (even (name, (to, tt)) (λ st. refl))))

  generate_vec_item_parse-Keeps :
      (t : Bytes) → IsPlain t → Keeps (generate_vec_item_parse known t target)
  unfolding generate_vec_item_parse
  generate_vec_item_parse-Keeps t h = if-Keeps (t == bytes "u64") (even (to, tt) (λ st. refl)) (
      if-Keeps (t == bytes "u32") (even (to, tt) (λ st. refl)) (
        if-Keeps (t == bytes "soroban_sdk::Address") (even (to, tt) (λ st. refl)) (
          if-Keeps (t == bytes "soroban_sdk::Bytes") (even (to, tt) (λ st. refl)) (
            if-Keeps (t == bytes "soroban_sdk::String") (even (to, tt) (λ st. refl)) (
              if-Keeps (t == bytes "u128") (even (to, tt) (λ st. refl))
                (generate_other_item-Keeps t h))))))

module _ (known : Known) (f : Field) (n : IsPlain f.name) (h : IsPlain f.type_name) (target : Bytes)
    (to : IsNeutral target) where
  item_target : IsNeutral (target ++ bytes "[i]")
  item_target = append-IsNeutral to (text-IsNeutral (bytes "[i]") (λ st. refl))

  generate_composite_field-Keeps : Keeps (generate_composite_field known f target)
  unfolding generate_composite_field
  generate_composite_field-Keeps =
      let field = plain-IsNeutral n in
      let name = plain-IsNeutral (extract_struct_name-IsPlain f.type_name h) in
      let size = plain-IsNeutral (decimal_int-IsPlain (extract_bytes_n_size f.type_name)) in
      let go = rust_type_to_go-IsNeutral f.type_name h in
      if-Keeps (is_optional_address f.type_name) (even (field, (to, tt)) (λ st. refl)) (
        if-Keeps (is_prefix (bytes "soroban_sdk::BytesN<") f.type_name)
          (even (size, (field, (to, tt))) (λ st. refl))
          (if-Keeps (is_prefix (bytes "soroban_sdk::Vec<") f.type_name)
            (λ st.
              both {a = vec_field_head f target} (across st (125 ∷ st) (field, (to, (go, tt))) refl)
                (both
                  (generate_vec_item_parse-Keeps known (target ++ bytes "[i]") item_target
                    (extract_vec_inner_type f.type_name)
                    (extract_vec_inner_type-IsPlain f.type_name h) (125 ∷ st))
                  (across (125 ∷ st) st tt refl)))
            (if-Keeps (is_enum_type known f.type_name) (even (name, (field, (to, tt))) (λ st. refl))
              (even (name, (field, (to, tt))) (λ st. refl)))))

  pub generate_from_scval_field-Keeps : Keeps (generate_from_scval_field known f target)
  unfolding generate_from_scval_field
  generate_from_scval_field-Keeps =
      let field = plain-IsNeutral n in
      if-Keeps (f.type_name == bytes "u64") (even (field, (to, tt)) (λ st. refl)) (
        if-Keeps (f.type_name == bytes "u32") (even (field, (to, tt)) (λ st. refl)) (
          if-Keeps (f.type_name == bytes "i128") (even (field, (to, tt)) (λ st. refl)) (
            if-Keeps (f.type_name == bytes "bool") (even (field, (to, tt)) (λ st. refl)) (
              if-Keeps (f.type_name == bytes "soroban_sdk::Address")
                (even (field, (to, tt)) (λ st. refl))
                (if-Keeps (f.type_name == bytes "soroban_sdk::Bytes")
                  (even (field, (to, tt)) (λ st. refl))
                  (if-Keeps (f.type_name == bytes "soroban_sdk::String")
                    (even (field, (to, tt)) (λ st. refl))
                    (if-Keeps (f.type_name == bytes "soroban_sdk::Symbol")
                      (even (field, (to, tt)) (λ st. refl))
                      (if-Keeps (f.type_name == bytes "u128") (even (field, (to, tt)) (λ st. refl))
                        generate_composite_field-Keeps))))))))
