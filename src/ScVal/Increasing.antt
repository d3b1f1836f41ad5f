-- ===== src/ScVal/Increasing.antt =====
-- bindings/scval/scval.go, `BuildStructScVal`: the order of Go strings and the sort of the keys.
use chainlink_stellar.Prelude.{
  ◌≡◌, refl, ap, ◌∙◌, true, false, List, [], ◌∷◌, ◌==◌, ◌||◌, arith, All, Bool-cases, inl, inr,
  ==_refl,
}
use chainlink_stellar.Config.{Bytes, Bytes_equality, contains_hint}
use chainlink_stellar.ScVal.Struct.{bytes_ltb, insert_key, sort_keys}

bytes_ltb_irrefl : (a : Bytes) → bytes_ltb a a ≡ false
unfolding bytes_ltb
bytes_ltb_irrefl [] = refl
bytes_ltb_irrefl (a ∷ as') = ground (arith, bytes_ltb_irrefl as')

bytes_ltb_trans :
    (a b c : Bytes) → bytes_ltb a b ≡ true → bytes_ltb b c ≡ true → bytes_ltb a c ≡ true
unfolding bytes_ltb
bytes_ltb_trans [] [] c h k = cc
bytes_ltb_trans [] (b ∷ bs) [] h k = cc
bytes_ltb_trans [] (b ∷ bs) (c ∷ cs) h k = refl
bytes_ltb_trans (a ∷ as') [] c h k = cc
bytes_ltb_trans (a ∷ as') (b ∷ bs) [] h k = cc
bytes_ltb_trans (a ∷ as') (b ∷ bs) (c ∷ cs) h k = ground (arith, bytes_ltb_trans as' bs cs)

bytes_ltb_total : (a b : Bytes) → bytes_ltb a b ≡ false → bytes_ltb b a ≡ false → a ≡ b
unfolding bytes_ltb
bytes_ltb_total [] [] h k = refl
bytes_ltb_total [] (b ∷ bs) h k = cc
bytes_ltb_total (a ∷ as') [] h k = cc
bytes_ltb_total (a ∷ as') (b ∷ bs) h k = ground (arith, bytes_ltb_total as' bs)

abbrev pub IsIncreasing : List Bytes → Type 0
IsIncreasing [] = Unit
IsIncreasing (k ∷ ks) = All (λ j. bytes_ltb k j ≡ true) ks × IsIncreasing ks

contains_hint-below :
    (k : Bytes) (ks : List Bytes) → All (λ j. bytes_ltb k j ≡ true) ks → contains_hint ks k ≡ false
unfolding contains_hint
contains_hint-below k [] h = refl
contains_hint-below k (j ∷ js) h =
    ground (arith, Bytes_equality.test_iff j k, bytes_ltb_irrefl k, contains_hint-below k js h.1)

All-bytes_ltb_trans :
    (a b : Bytes) (ks : List Bytes)
    → bytes_ltb a b ≡ true
    → All (λ j. bytes_ltb b j ≡ true) ks
    → All (λ j. bytes_ltb a j ≡ true) ks
All-bytes_ltb_trans a b [] h p = tt
All-bytes_ltb_trans a b (k ∷ ks) h p =
    (bytes_ltb_trans a b k h p.0, All-bytes_ltb_trans a b ks h p.1)

-- Two increasing lists with the same elements are equal.
pub IsIncreasing-ext :
    (xs ys : List Bytes)
    → IsIncreasing xs
    → IsIncreasing ys
    → ((k : Bytes) → contains_hint xs k ≡ contains_hint ys k)
    → xs ≡ ys
unfolding contains_hint
IsIncreasing-ext [] [] p q h = refl
IsIncreasing-ext [] (y ∷ ys) p q h = absurd (ground (arith, h y, ==_refl y))
IsIncreasing-ext (x ∷ xs) [] p q h = absurd (ground (arith, h x, ==_refl x))
IsIncreasing-ext (x ∷ xs) (y ∷ ys) p q h =
    rw head (ap (λ t. y ∷ t) (IsIncreasing-ext xs ys p.1 q.1 rest))
  where
    not_less : bytes_ltb x y ≡ false
    not_less = elim (Bool-cases (bytes_ltb x y)) [
      | inr e ↦ e
      | inl e ↦ absurd (
          ground (
            arith,
            h x,
            ==_refl x,
            Bytes_equality.test_iff y x,
            bytes_ltb_irrefl x,
            contains_hint-below x ys (All-bytes_ltb_trans x y ys e q.0),
          ))
    ]

    not_more : bytes_ltb y x ≡ false
    not_more = elim (Bool-cases (bytes_ltb y x)) [
      | inr e ↦ e
      | inl e ↦ absurd (
          ground (
            arith,
            h y,
            ==_refl y,
            Bytes_equality.test_iff x y,
            bytes_ltb_irrefl y,
            contains_hint-below y xs (All-bytes_ltb_trans y x xs e p.0),
          ))
    ]

    head : x ≡ y
    head = bytes_ltb_total x y not_less not_more

    rest : (k : Bytes) → contains_hint xs k ≡ contains_hint ys k
    rest k = ground (
      arith,
      h k,
      head,
      Bytes_equality.test_iff x k,
      Bytes_equality.test_iff y k,
      contains_hint-below x xs p.0,
      contains_hint-below y ys q.0,
    )

contains_hint-insert_key :
    (k j : Bytes) (ks : List Bytes)
    → contains_hint (insert_key k ks) j ≡ (k == j || contains_hint ks j)
unfolding contains_hint insert_key
contains_hint-insert_key k j [] = refl
contains_hint-insert_key k j (i ∷ ks) = ground (arith, contains_hint-insert_key k j ks)

pub contains_hint-sort_keys :
    (j : Bytes) (ks : List Bytes) → contains_hint (sort_keys ks) j ≡ contains_hint ks j
unfolding contains_hint sort_keys
contains_hint-sort_keys j [] = refl
contains_hint-sort_keys j (k ∷ ks) =
    contains_hint-insert_key k j (sort_keys ks)
    ∙ ap (λ b. k == j || b) (contains_hint-sort_keys j ks)

All-insert_key :
    (a k : Bytes) (ks : List Bytes)
    → bytes_ltb a k ≡ true
    → All (λ j. bytes_ltb a j ≡ true) ks
    → All (λ j. bytes_ltb a j ≡ true) (insert_key k ks)
unfolding insert_key
All-insert_key a k [] h p = (h, tt)
All-insert_key a k (i ∷ ks) h p = ground (arith, All-insert_key a k ks h p.1)

pub insert_key-IsIncreasing :
    (k : Bytes) (ks : List Bytes)
    → contains_hint ks k ≡ false
    → IsIncreasing ks
    → IsIncreasing (insert_key k ks)
unfolding insert_key contains_hint
insert_key-IsIncreasing k [] h p = (tt, tt)
insert_key-IsIncreasing k (i ∷ ks) h p = elim (Bool-cases (bytes_ltb i k)) [
  | inl e ↦ rw e (All-insert_key i k ks e p.0, insert_key-IsIncreasing k ks (ground arith) p.1)
  | inr e ↦ elim (Bool-cases (bytes_ltb k i)) [
    | inl f ↦ rw e ((f, All-bytes_ltb_trans k i ks f p.0), p)
    | inr f ↦ absurd (ground (arith, bytes_ltb_total k i f e, Bytes_equality.test_iff i k))
  ]
]
