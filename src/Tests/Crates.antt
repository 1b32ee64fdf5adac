-- ===== src/Tests/Crates.antt =====
-- Concrete functions in place of the crates that trees/src calls, and small trees. A number is one
-- element, whatever its width, and a digest is a checksum followed by 31 zeros.
use doge_sdk.Base.{ℕ, ◌+◌, ◌*◌, ◌%◌, refl, Option, none, some, [], ◌∷◌}
use doge_sdk.Base.Bytes.{Bytes}
use doge_sdk.Trees.External.{External, IsLawful}
use doge_sdk.Trees.Iavl.Node.{hash}
use doge_sdk.Trees.Iavl.Shape.{Shape}
use doge_sdk.Trees.Iavl.Balance.{in_memory}

abbrev checksum : Bytes → ℕ
checksum [] = 7
checksum (b ∷ bytes) = (b + 1 + 257 * checksum bytes) % 1000003

abbrev zeros : Bytes
zeros =
    0 ∷ 0 ∷ 0 ∷ 0 ∷ 0 ∷ 0 ∷ 0 ∷ 0 ∷ 0 ∷ 0 ∷ 0 ∷ 0 ∷ 0 ∷ 0 ∷ 0 ∷ 0 ∷ 0 ∷ 0 ∷ 0 ∷ 0 ∷ 0 ∷ 0 ∷ 0 ∷ 0
    ∷ 0 ∷ 0 ∷ 0 ∷ 0 ∷ 0 ∷ 0 ∷ 0 ∷ []

abbrev first : Bytes → Option (ℕ × ℕ)
first [] = none
first (n ∷ bytes) = some (n, 1)

instance unfoldable pub crates : External
crates = record {
  sha256 = λ bytes. checksum bytes ∷ zeros;
  encode_var = λ n. n ∷ [];
  encode_var_i64 = λ n. n ∷ [];
  decode_var_u8 = first;
  decode_var_u32 = first;
  decode_var_u64 = first;
}

pub crates-IsLawful : IsLawful crates
unfolding crates
crates-IsLawful = record {
  decode-encode_u8 = λ n rest h. refl;
  decode-encode_u32 = λ n rest h. refl;
  decode-encode_u64 = λ n rest h. refl;
  length-sha256 = λ b. refl;
}

abbrev pub one : Shape
one = Shape.leaf (1 ∷ []) (11 ∷ []) 1

abbrev pub two : Shape
two = Shape.leaf (2 ∷ []) (22 ∷ []) 1

abbrev pub three : Shape
three = Shape.leaf (3 ∷ []) (33 ∷ []) 1

-- The keys 1 and 2, and the keys 1, 2 and 3.
abbrev pub pair : Shape
pair =
    Shape.node
      (record {
        key = 2 ∷ [];
        height = 1;
        size = 2;
        left_hash = hash (in_memory one);
        right_hash = hash (in_memory two);
        version = 1;
      })
      one two

abbrev pub triple : Shape
triple =
    Shape.node
      (record {
        key = 3 ∷ [];
        height = 2;
        size = 3;
        left_hash = hash (in_memory pair);
        right_hash = hash (in_memory three);
        version = 1;
      })
      pair three
