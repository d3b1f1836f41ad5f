-- ===== src/Generator/Neutral.antt =====
-- bindings/generator: texts that leave the open brackets as they are: the Go types and the
-- conversions.
use mathlib.Core.List.{append_assoc}
use chainlink_stellar.Prelude.{
  ℕ, zero, suc, ◌≡◌, refl, ap, ◌∙◌, arith, Bool, true, false, none, some, List, [], ◌∷◌, ◌++◌, All,
  length, if◌then◌else◌, ltb, ◌==◌,
}
use chainlink_stellar.Prelude.Int64.{int64}
use chainlink_stellar.Prelude.Map.{Map, get}
use chainlink_stellar.Config.{Bytes, bytes, Bytes_equality, is_prefix}
use chainlink_stellar.Generator.Text.{sprintf, decimal_int, join}
use chainlink_stellar.Generator.Names.{
  scalar_types, go_type_on, rust_type_to_go, extract_struct_name, extract_vec_inner_type,
  extract_option_inner_type, extract_bytes_n_size, bytes_n_text,
}
use chainlink_stellar.Generator.Encoders.{
  scalar_converters, is_optional_address, slice_converter, get_to_scval_converter,
}
use chainlink_stellar.Generator.Brackets.{
  Stack, scan, IsNeutral, scan_format, scan-sprintf, scan-append, and_then,
}
use chainlink_stellar.Generator.Plain.{
  IsPlain, extract_struct_name-IsPlain, extract_vec_inner_type-IsPlain,
  extract_option_inner_type-IsPlain, bytes_n_text-IsPlain, decimal_int-IsPlain,
}

scan_plain :
    (text : Bytes) (st : Stack) (rest : Bytes)
    → IsPlain text
    → scan st (text ++ rest) ≡ scan st rest
scan_plain [] st rest h = refl
scan_plain (b ∷ bs) st rest (p, h) = ground (arith, scan_plain bs st rest h)

pub plain-IsNeutral : {text : Bytes} → IsPlain text → IsNeutral text
plain-IsNeutral {text} h = record { past = λ st rest. scan_plain text st rest h }

pub append-IsNeutral : {a b : Bytes} → IsNeutral a → IsNeutral b → IsNeutral (a ++ b)
append-IsNeutral {a} {b} h k = record {
  past = λ st rest. ap (scan st) (append_assoc a b rest) ∙ (h.past st (b ++ rest) ∙ k.past st rest);
}

-- A text that a scan from any stack gets through with this stack.
pub text-IsNeutral : (text : Bytes) → ((st : Stack) → scan st text ≡ some st) → IsNeutral text
text-IsNeutral text h = record {
  past = λ st rest. scan-append st text rest ∙ ap (λ o. and_then o (λ s. scan s rest)) (h st);
}

abbrev pub IsEven : Bytes → Type 0
IsEven format = (st : Stack) → scan_format st format ≡ some st

pub sprintf-IsNeutral :
    (format : Bytes) (args : List Bytes)
    → All IsNeutral args
    → IsEven format
    → IsNeutral (sprintf format args)
sprintf-IsNeutral format args h e =
    text-IsNeutral (sprintf format args) (λ st. scan-sprintf format st args h ∙ e st)

pub choice-IsNeutral :
    (a b : Bytes) (t : Bool)
    → IsNeutral a
    → IsNeutral b
    → IsNeutral (elim t [ true ↦ a | false ↦ b ])
choice-IsNeutral a b true h k = h
choice-IsNeutral a b false h k = k

pub if-IsNeutral :
    {a b : Bytes} (t : Bool) → IsNeutral a → IsNeutral b → IsNeutral (if t then a else b)
if-IsNeutral true h k = h
if-IsNeutral false h k = k

-- What a lookup finds, or the other text.
get-IsNeutral :
    (P : Bytes → Type 0) (f : Bytes → Bytes) (k : Bytes) (m : Map Bytes Bytes) (other : Bytes)
    → ((v : Bytes) → P v → IsNeutral (f v))
    → All (λ e. P e.1) m
    → IsNeutral other
    → IsNeutral (elim (get k m) [ some v ↦ f v | none ↦ other ])
unfolding get
get-IsNeutral P f k [] other h all n = n
get-IsNeutral P f k ((j, v) ∷ m) other h (p, all) n =
    found (j == k) (get-IsNeutral P f k m other h all n)
  where
    found :
        (t : Bool)
        → IsNeutral (elim (get k m) [ some v ↦ f v | none ↦ other ])
        → IsNeutral (elim (if t then some v else get k m) [ some v ↦ f v | none ↦ other ])
    found true later = h v p
    found false later = later

scalar_types_neutral : All (λ e. IsNeutral e.1) scalar_types
scalar_types_neutral =
    let n = λ (text : Bytes) (e : (st : Stack) → scan st text ≡ some st). text-IsNeutral text e in
    (
      n (bytes "uint64") (λ st. refl),
      (
        n (bytes "uint32") (λ st. refl),
        (
          n (bytes "scval.U128") (λ st. refl),
          (
            n (bytes "int64") (λ st. refl),
            (
              n (bytes "bool") (λ st. refl),
              (
                n (bytes "string") (λ st. refl),
                (
                  n (bytes "[]byte") (λ st. refl),
                  (n (bytes "string") (λ st. refl), (n (bytes "string") (λ st. refl), tt)),
                ),
              ),
            ),
          ),
        ),
      ),
    )

go_type_on-IsNeutral : (f : ℕ) (t : Bytes) → IsPlain t → IsNeutral (go_type_on f t)
unfolding go_type_on
go_type_on-IsNeutral zero t h = plain-IsNeutral (extract_struct_name-IsPlain t h)
go_type_on-IsNeutral (suc f) t h =
    let option_inner = extract_option_inner_type t in
    let vec_inner = extract_vec_inner_type t in
    let sized = sprintf (bytes "[%s]byte") (bytes_n_text t ∷ []) in
    let vector = bytes "[]" ++ go_type_on f vec_inner in
    let pointer = bytes "*" ++ go_type_on f option_inner in
    let name = extract_struct_name t in
    let vector_or_name : Bytes = elim (is_prefix (bytes "soroban_sdk::Vec<") t) [
      | true ↦ vector
      | false ↦ name
    ] in
    let sized_or : Bytes = elim (is_prefix (bytes "soroban_sdk::BytesN<") t) [
      | true ↦ sized
      | false ↦ vector_or_name
    ] in
    let optional : Bytes = elim (option_inner == bytes "soroban_sdk::Address") [
      | true ↦ bytes "*string"
      | false ↦ pointer
    ] in
    let other : Bytes = elim (is_prefix (bytes "Option<") t) [
      | true ↦ optional
      | false ↦ sized_or
    ] in
    get-IsNeutral IsNeutral (λ g. g) t scalar_types other (λ g n. n) scalar_types_neutral
      (choice-IsNeutral optional sized_or (is_prefix (bytes "Option<") t)
        (choice-IsNeutral (bytes "*string") pointer (option_inner == bytes "soroban_sdk::Address")
          (text-IsNeutral (bytes "*string") (λ st. refl))
          (append-IsNeutral (text-IsNeutral (bytes "*") (λ st. refl))
            (go_type_on-IsNeutral f option_inner (extract_option_inner_type-IsPlain t h))))
        (choice-IsNeutral sized vector_or_name (is_prefix (bytes "soroban_sdk::BytesN<") t)
          (sprintf-IsNeutral (bytes "[%s]byte") (bytes_n_text t ∷ [])
            (plain-IsNeutral (bytes_n_text-IsPlain t h), tt) (λ st. refl))
          (choice-IsNeutral vector name (is_prefix (bytes "soroban_sdk::Vec<") t)
            (append-IsNeutral (text-IsNeutral (bytes "[]") (λ st. refl))
              (go_type_on-IsNeutral f vec_inner (extract_vec_inner_type-IsPlain t h)))
            (plain-IsNeutral (extract_struct_name-IsPlain t h)))))

pub rust_type_to_go-IsNeutral : (t : Bytes) → IsPlain t → IsNeutral (rust_type_to_go t)
unfolding rust_type_to_go
rust_type_to_go-IsNeutral t h = go_type_on-IsNeutral (length t) t h

scalar_converters-IsEven : All (λ e. IsEven e.1) scalar_converters
scalar_converters-IsEven = (
  (λ st. refl),
  (
    (λ st. refl),
    (
      (λ st. refl),
      (
        (λ st. refl),
        ((λ st. refl), ((λ st. refl), ((λ st. refl), ((λ st. refl), ((λ st. refl), tt))))),
      ),
    ),
  ),
)

-- A format with the expression, or with a number before it.
module _ (expr : Bytes) (n : IsNeutral expr) where
  call : (format : Bytes) → IsEven format → IsNeutral (sprintf format (expr ∷ []))
  call format e = sprintf-IsNeutral format (expr ∷ []) (n, tt) e

  sized_call :
      (format : Bytes) (t : Bytes)
      → IsEven format
      → IsNeutral (sprintf format (decimal_int (extract_bytes_n_size t) ∷ expr ∷ []))
  sized_call format t e =
      sprintf-IsNeutral format (decimal_int (extract_bytes_n_size t) ∷ expr ∷ [])
        (plain-IsNeutral (decimal_int-IsPlain (extract_bytes_n_size t)), (n, tt)) e

  slice_converter-IsNeutral : (inner : Bytes) → IsNeutral (slice_converter inner expr)
  unfolding slice_converter
  slice_converter-IsNeutral inner =
      if-IsNeutral (inner == bytes "u64") (call (bytes "scval.Uint64SliceToScVal(%s)") (λ st. refl))
        (if-IsNeutral (inner == bytes "u32")
          (call (bytes "scval.Uint32SliceToScVal(%s)") (λ st. refl))
          (if-IsNeutral (inner == bytes "soroban_sdk::Address")
            (call (bytes "scval.AddressSliceToScVal(%s)") (λ st. refl))
            (if-IsNeutral (inner == bytes "soroban_sdk::Bytes")
              (call (bytes "scval.BytesSliceToScVal(%s)") (λ st. refl))
              (if-IsNeutral (ltb (int64 0) (extract_bytes_n_size inner))
                (sized_call (bytes "scval.Bytes%dSliceToScVal(%s)") inner (λ st. refl))
                (call (bytes "scval.StructSliceToScVal(%s)") (λ st. refl))))))

  pub get_to_scval_converter-IsNeutral : (t : Bytes) → IsNeutral (get_to_scval_converter t expr)
  unfolding get_to_scval_converter
  get_to_scval_converter-IsNeutral t =
      get-IsNeutral IsEven (λ format. sprintf format (expr ∷ [])) t scalar_converters
        (if is_optional_address t
          then sprintf (bytes "scval.OptionalAddressToScVal(%s)") (expr ∷ [])
          else if is_prefix (bytes "soroban_sdk::BytesN<") t
          then sprintf (bytes "scval.Bytes%dToScVal(%s)")
              (decimal_int (extract_bytes_n_size t) ∷ expr ∷ [])
          else if is_prefix (bytes "soroban_sdk::Vec<") t
          then slice_converter (extract_vec_inner_type t) expr
          else sprintf (bytes "scval.MustToScVal((%s).ToScVal())") (expr ∷ []))
        call scalar_converters-IsEven
        (if-IsNeutral (is_optional_address t)
          (call (bytes "scval.OptionalAddressToScVal(%s)") (λ st. refl))
          (if-IsNeutral (is_prefix (bytes "soroban_sdk::BytesN<") t)
            (sized_call (bytes "scval.Bytes%dToScVal(%s)") t (λ st. refl))
            (if-IsNeutral (is_prefix (bytes "soroban_sdk::Vec<") t)
              (slice_converter-IsNeutral (extract_vec_inner_type t))
              (call (bytes "scval.MustToScVal((%s).ToScVal())") (λ st. refl)))))

pub join-IsNeutral :
    (sep : Bytes) (ts : List Bytes) → IsNeutral sep → All IsNeutral ts → IsNeutral (join sep ts)
unfolding join
join-IsNeutral sep [] n all = text-IsNeutral [] (λ st. refl)
join-IsNeutral sep (t ∷ []) n (h, all) = h
join-IsNeutral sep (t ∷ u ∷ ts) n (h, all) =
    append-IsNeutral h (append-IsNeutral n (join-IsNeutral sep (u ∷ ts) n all))
