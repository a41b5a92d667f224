-- ===== src/Fleet/Message/RoundTrip.antt =====
-- messages.go: what `Decode` makes of the bytes that `Encode` wrote.
use native.Mathlib.Nat.{pow-suc}
use mathlib.Core.List.{append_assoc}
use debswarm.Prelude.{
  ℕ, zero, suc, ◌+◌, ◌*◌, ◌/◌, ◌%◌, ◌^◌, ◌≤◌, ◌<◌, ◌≡◌, refl, List, [], ◌∷◌, ◌++◌, arith, length,
  length-append, none, some, ltb, false,
}
use debswarm.Prelude.Int.{IsInt64, to_u64, to_i64-to_u64, to_u64-lt}
use debswarm.Fleet.Message.{
  Message, ok, err, put_uint, encode, split_at, read_full, from_bytes, read_uint, decode,
  hash_too_long, check_hash_len,
}

-- The fields of a Go message are machine integers.
pub record IsMessage (m : Message) : Type 0 where
  pub type_byte : m.type < 256
  pub nonce_word : m.nonce < 2 ^ 32
  pub size_word : IsInt64 m.size
  pub offset_word : IsInt64 m.offset

pub split_at-append :
    (n : ℕ) (xs rest : List ℕ) → length xs ≡ n → split_at n (xs ++ rest) ≡ some (xs, rest)
unfolding split_at
split_at-append zero [] rest h = refl
split_at-append zero (x ∷ xs) rest h = absurd (omega arith)
split_at-append (suc n) [] rest h = absurd (omega arith)
split_at-append (suc n) (x ∷ xs) rest h = rw (split_at-append n xs rest (omega arith))

pub read_full-append :
    (n : ℕ) (xs rest : List ℕ) → length xs ≡ n → read_full n (xs ++ rest) ≡ ok (xs, rest)
unfolding read_full
read_full-append n xs rest h = rw (split_at-append n xs rest h, read_full)

pub length-put_uint : (n x : ℕ) → length (put_uint n x) ≡ n
unfolding put_uint
length-put_uint zero x = refl
length-put_uint (suc n) x =
    omega (arith, length-append (put_uint n (x / 256)) (x % 256 ∷ []), length-put_uint n (x / 256))

from_bytes-append :
    (acc : ℕ) (xs ys : List ℕ) → from_bytes acc (xs ++ ys) ≡ from_bytes (from_bytes acc xs) ys
unfolding from_bytes
from_bytes-append acc [] ys = refl
from_bytes-append acc (x ∷ xs) ys = from_bytes-append (acc * 256 + x) xs ys

from_bytes-put_uint : (n x : ℕ) → x < 256 ^ n → from_bytes 0 (put_uint n x) ≡ x
unfolding put_uint from_bytes
from_bytes-put_uint zero x h = omega arith
from_bytes-put_uint (suc n) x h =
    let bound : x < 256 ^ n * 256 = omega (arith, pow-suc 256 n) in
    omega (
      arith,
      from_bytes-append 0 (put_uint n (x / 256)) (x % 256 ∷ []),
      from_bytes-put_uint n (x / 256) (omega arith),
    )

pub read_uint-put_uint :
    (n x : ℕ) (rest : List ℕ) → x < 256 ^ n → read_uint n (put_uint n x ++ rest) ≡ ok (x, rest)
unfolding read_uint
read_uint-put_uint n x rest h =
    rw (read_full-append n (put_uint n x) rest (length-put_uint n x), read_uint)
      (rw (from_bytes-put_uint n x h))

-- The bytes of a message and what follows them.
pub fields : Message → List ℕ → List ℕ
fields m rest =
    put_uint 1 m.type
    ++ (put_uint 4 m.nonce
        ++ (put_uint 2 (length m.hash)
            ++ (m.hash ++ (put_uint 8 (to_u64 m.size) ++ (put_uint 8 (to_u64 m.offset) ++ rest)))))

pub encode-fields :
    (m : Message) (rest : List ℕ)
    → length m.hash ≤ 65535
    → ((encode m).0 ++ rest ≡ fields m rest) × ((encode m).1 ≡ none)
unfolding encode fields
encode-fields m rest h = rw (leb_false m h) (simp append_assoc, refl)
  where
    leb_false : (m : Message) → length m.hash ≤ 65535 → ltb 65535 (length m.hash) ≡ false
    leb_false m h = ground arith

check_hash_len_fits : (n : ℕ) → n ≤ 1024 → check_hash_len n ≡ ok tt
unfolding check_hash_len
check_hash_len_fits n h = ground arith

check_hash_len_long : (n : ℕ) → 1024 < n → check_hash_len n ≡ err hash_too_long
unfolding check_hash_len
check_hash_len_long n h = ground arith

decode-fields :
    (m : Message) (rest : List ℕ)
    → IsMessage m
    → length m.hash ≤ 1024
    → decode (fields m rest) ≡ ok (m, rest)
unfolding decode fields
decode-fields m rest v h = simp (
  read_uint-put_uint 1 m.type _ v.type_byte,
  read_uint-put_uint 4 m.nonce _ v.nonce_word,
  read_uint-put_uint 2 (length m.hash) _ (omega arith),
  check_hash_len_fits (length m.hash) h,
  read_full-append (length m.hash) m.hash _ refl,
  read_uint-put_uint 8 (to_u64 m.size) _ (to_u64-lt m.size v.size_word),
  read_uint-put_uint 8 (to_u64 m.offset) _ (to_u64-lt m.offset v.offset_word),
  to_i64-to_u64 m.size v.size_word,
  to_i64-to_u64 m.offset v.offset_word,
)

decode-fields_long :
    (m : Message) (rest : List ℕ)
    → IsMessage m
    → 1024 < length m.hash
    → length m.hash ≤ 65535
    → decode (fields m rest) ≡ err hash_too_long
unfolding decode fields
decode-fields_long m rest v h k = simp (
  read_uint-put_uint 1 m.type _ v.type_byte,
  read_uint-put_uint 4 m.nonce _ v.nonce_word,
  read_uint-put_uint 2 (length m.hash) _ (omega arith),
  check_hash_len_long (length m.hash) h,
)

-- A message of machine integers whose hash has at most 1024 bytes is written with no error, and
-- `Decode` reads back the same message and stops exactly behind it, whatever bytes follow.
pub decode-encode :
    (m : Message) (rest : List ℕ)
    → IsMessage m
    → length m.hash ≤ 1024
    → ((encode m).1 ≡ none) × (decode ((encode m).0 ++ rest) ≡ ok (m, rest))
decode-encode m rest v h =
    let (bytes, fine) = encode-fields m rest (omega arith) in
    (fine, rw bytes (decode-fields m rest v h))

-- A message of machine integers whose hash has more than 1024 and at most 65535 bytes is written
-- with no error, and every reader refuses it with "hash too long".
pub decode-encode_long :
    (m : Message) (rest : List ℕ)
    → IsMessage m
    → 1024 < length m.hash
    → length m.hash ≤ 65535
    → ((encode m).1 ≡ none) × (decode ((encode m).0 ++ rest) ≡ err hash_too_long)
decode-encode_long m rest v h k =
    let (bytes, fine) = encode-fields m rest k in (fine, rw bytes (decode-fields_long m rest v h k))
