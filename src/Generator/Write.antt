-- ===== src/Generator/Write.antt =====
-- bindings/generator: what a generator writes, `b.WriteString` after `b.WriteString`.
use chainlink_stellar.Prelude.{ℕ, List, [], ◌∷◌, ◌++◌, String}
use chainlink_stellar.Config.{Bytes, bytes}
use chainlink_stellar.Generator.Text.{sprintf}

-- A text that is written as it stands, or through `fmt.Sprintf`.
pub data Write : Type 0 where
  raw : Bytes → Write
  formatted : Bytes → List Bytes → Write

abbrev pub Writes : Type 0
Writes = List Write

abbrev pub text : String → Write
text s = raw (bytes s)

abbrev pub printf : String → List Bytes → Write
printf format args = formatted (bytes format) args

unfoldable pub written : Write → Bytes
unfolding sprintf
written (raw bs) = bs
written (formatted format args) = sprintf format args

-- The contents of the builder.
unfoldable pub render : Writes → Bytes
unfolding written
render [] = []
render (w ∷ ws) = written w ++ render ws

-- A loop that writes for each element.
abbrev pub each {ℓ} : {A : Type ℓ} → (A → Writes) → List A → Writes
each f [] = []
each f (x ∷ xs) = f x ++ each f xs

-- The same where the body has the index.
abbrev pub each_at {ℓ} : {A : Type ℓ} → ℕ → (ℕ → A → Writes) → List A → Writes
each_at i f [] = []
each_at i f (x ∷ xs) = f i x ++ each_at (Prim.Native.Nat.suc i) f xs
