-- ===== src/Tests/Messages.antt =====
-- Concrete functions in place of the crates that the conversions call: a field of bytes is written
-- behind its length, a number is one element, and base 32 changes nothing and takes bytes only.
use doge_sdk.Base.{
  ℕ, zero, suc, ◌^◌, ◌<◌, ◌≡◌, refl, Bool, true, ◌&&◌, Option, none, some, List, [], ◌∷◌, ◌++◌,
  length, take, drop, take-append, drop-append, arith, ltb, if◌then◌else◌,
}
use std.Path.{subst}
use doge_sdk.Database.Bound.{IsBytes}
use doge_sdk.Base.Bytes.{Bytes, cmp, eq_bytes}
use doge_sdk.Messages.Crates.{
  Crates, IsLawful, Codec, Any, RawBaseAccount, RawModuleAccount, Variant, bech32, bech32m,
}
use doge_sdk.Messages.Address.{bech32_prefix_acc_addr}
use doge_sdk.Auth.Module.{fee_collector_address}

unfoldable pub put : Bytes → Bytes → Bytes
put a rest = length a ∷ a ++ rest

unfoldable pub pull : Bytes → Option (Bytes × Bytes)
pull [] = none
pull (n ∷ rest) = some (take n rest, drop n rest)

pub pull-put : (a rest : Bytes) → pull (put a rest) ≡ some (a, rest)
unfolding pull put
pull-put a rest = rw (take-append a rest, drop-append a rest) refl

abbrev put_all : List Bytes → Bytes → Bytes
put_all [] rest = rest
put_all (a ∷ xs) rest = put a (put_all xs rest)

abbrev pull_all : ℕ → Bytes → Option (List Bytes × Bytes)
pull_all zero b = some ([], b)
pull_all (suc n) b = elim (pull b) [
  | none ↦ none
  | some (a, rest) ↦ elim (pull_all n rest) [
    | none ↦ none
    | some (xs, rest') ↦ some (a ∷ xs, rest')
  ]
]

pull_all-put_all :
    (xs : List Bytes) (rest : Bytes) → pull_all (length xs) (put_all xs rest) ≡ some (xs, rest)
pull_all-put_all [] rest = refl
pull_all-put_all (a ∷ xs) rest =
    rw (pull_all, pull-put a (put_all xs rest), pull_all-put_all xs rest) refl

abbrev any_encode : Any → Bytes
any_encode a = put a.type_url a.value

abbrev any_decode : Bytes → Option Any
any_decode b = elim (pull b) [
  | none ↦ none
  | some (url, value) ↦ some (record { type_url = url; value = value })
]

any_decode-encode : (a : Any) → any_decode (any_encode a) ≡ some a
any_decode-encode a = rw (any_decode, pull-put a.type_url a.value) refl

abbrev key_encode : Option Any → Bytes
key_encode none = []
key_encode (some a) = 1 ∷ any_encode a

abbrev key_decode : Bytes → Option Any
key_decode [] = none
key_decode (n ∷ rest) = any_decode rest

key_decode-encode : (k : Option Any) → key_decode (key_encode k) ≡ k
key_decode-encode none = refl
key_decode-encode (some a) = any_decode-encode a

abbrev base_encode : RawBaseAccount → Bytes
base_encode a = a.account_number ∷ a.sequence ∷ put a.address (key_encode a.pub_key)

abbrev base_decode : Bytes → Option RawBaseAccount
base_decode [] = none
base_decode (n ∷ []) = none
base_decode (n ∷ k ∷ rest) = elim (pull rest) [
  | none ↦ none
  | some (addr, key) ↦
      some (record { address = addr; pub_key = key_decode key; account_number = n; sequence = k })
]

base_decode-encode : (a : RawBaseAccount) → base_decode (base_encode a) ≡ some a
base_decode-encode a =
    rw (base_decode, pull-put a.address (key_encode a.pub_key), key_decode-encode a.pub_key) refl

abbrev module_encode : RawModuleAccount → Bytes
module_encode a =
    length a.permissions
    ∷ put a.name
        (put_all a.permissions (elim a.base_account [ none ↦ [] | some b ↦ base_encode b ]))

abbrev module_decode : Bytes → Option RawModuleAccount
module_decode [] = none
module_decode (n ∷ rest) = elim (pull rest) [
  | none ↦ none
  | some (name, rest') ↦ elim (pull_all n rest') [
    | none ↦ none
    | some (permissions, b) ↦
        some (record { base_account = base_decode b; name = name; permissions = permissions })
  ]
]

module_decode-encode :
    (a : RawModuleAccount) (b : RawBaseAccount)
    → a.base_account ≡ some b
    → module_decode (module_encode a) ≡ some a
module_decode-encode a b e =
    rw
      (
        e,
        module_decode,
        pull-put a.name (put_all a.permissions (base_encode b)),
        pull_all-put_all a.permissions (base_encode b),
        base_decode-encode b,
      )
      refl

abbrev pub zeros20 : Bytes
zeros20 = 0 ∷ 0 ∷ 0 ∷ 0 ∷ 0 ∷ 0 ∷ 0 ∷ 0 ∷ 0 ∷ 0 ∷ 0 ∷ 0 ∷ 0 ∷ 0 ∷ 0 ∷ 0 ∷ 0 ∷ 0 ∷ 0 ∷ 0 ∷ []

abbrev text_encode : Bytes → Bytes → Variant → Bytes
text_encode hrp bits bech32 = 0 ∷ put hrp bits
text_encode hrp bits bech32m = 1 ∷ put hrp bits

abbrev text_variant : ℕ → Variant
text_variant zero = bech32
text_variant (suc n) = bech32m

abbrev text_parts : Bytes → Option (Bytes × Bytes × Variant)
text_parts [] = none
text_parts (v ∷ rest) = elim (pull rest) [
  | none ↦ none
  | some (hrp, bits) ↦ some (hrp, bits, text_variant v)
]

-- The fee collector's address is the only text in the usual form.
abbrev text_decode : Bytes → Option (Bytes × Bytes × Variant)
text_decode b =
    if eq_bytes b fee_collector_address
    then some (bech32_prefix_acc_addr, 5 ∷ [], bech32)
    else text_parts b

text_decode-encode :
    (hrp bits : Bytes) (v : Variant) → text_decode (text_encode hrp bits v) ≡ some (hrp, bits, v)
unfolding cmp
text_decode-encode hrp bits bech32 = rw (text_decode, text_parts, pull-put hrp bits) refl
text_decode-encode hrp bits bech32m = rw (text_decode, text_parts, pull-put hrp bits) refl

abbrev number_decode : Bytes → Option ℕ
number_decode [] = none
number_decode (n ∷ b) = if ltb n (2 ^ 256) then some n else none

number_decode-bound : (s : Bytes) (n : ℕ) → number_decode s ≡ some n → n < 2 ^ 256
number_decode-bound [] n h = cc
number_decode-bound (k ∷ b) n h = ground arith

abbrev all_bytes : Bytes → Bool
all_bytes [] = true
all_bytes (b ∷ bs) = ltb b 256 && all_bytes bs

pub all_bytes-IsBytes : (b : Bytes) → all_bytes b ≡ true → IsBytes b
all_bytes-IsBytes [] h = tt
all_bytes-IsBytes (b ∷ bs) h = (ground (arith, h), all_bytes-IsBytes bs (ground (arith, h)))

IsBytes-all_bytes : (b : Bytes) → IsBytes b → all_bytes b ≡ true
IsBytes-all_bytes [] h = refl
IsBytes-all_bytes (b ∷ bs) h = ground (arith, h.0, IsBytes-all_bytes bs h.1)

abbrev bits_decode : Bytes → Option Bytes
bits_decode b = if all_bytes b then some b else none

bits_decode-some : (b : Bytes) → IsBytes b → bits_decode b ≡ some b
bits_decode-some b h = rw (bits_decode, IsBytes-all_bytes b h) refl

bits_decode-IsBytes : (b a : Bytes) → bits_decode b ≡ some a → IsBytes a
bits_decode-IsBytes b a h =
    let valid : all_bytes b ≡ true = ground (arith, h) in
    let same : b ≡ a = ground (arith, h) in subst IsBytes same (all_bytes-IsBytes b valid)

instance unfoldable pub message_crates : Crates
message_crates = record {
  bech32_decode = text_decode;
  bech32_encode = text_encode;
  to_base32 = λ b. b;
  from_base32 = bits_decode;
  sha256 = λ b. b;
  ripemd160 = λ b. zeros20;
  key_from_slice = λ b. some b;
  key_serialize = λ b. b;
  uint_from_str = number_decode;
  uint_to_string = λ n. n ∷ [];
  pub_keys = record { encode = λ k. k.raw_key; decode = λ b. some (record { raw_key = b }) };
  base_accounts = record { encode = base_encode; decode = base_decode };
  module_accounts = record { encode = module_encode; decode = module_decode };
  anys = record { encode = any_encode; decode = any_decode };
}

pub message_crates-IsLawful : IsLawful message_crates
unfolding message_crates cmp
message_crates-IsLawful = record {
  bech32_decode-encode = text_decode-encode;
  bech32_decode-empty = refl;
  from-to_base32 = bits_decode-some;
  from_base32-IsBytes = bits_decode-IsBytes;
  length-ripemd160 = λ b. refl;
  key_from_slice-serialize = λ k. refl;
  uint_from_str-to_string = λ n h. ground (arith, h);
  uint_from_str-bound = number_decode-bound;
  pub_key-decode-encode = λ k. refl;
  base-decode-encode = λ a h. base_decode-encode a;
  module-decode-encode = λ a b e h. module_decode-encode a b e;
  any-decode-encode = any_decode-encode;
}

instance unfoldable pub numbers : Codec ℕ
numbers = record { encode = λ n. n ∷ []; decode = number_decode }
