-- ===== src/Fleet/Message.antt =====
-- internal/fleet/messages.go: the binary format of the coordination messages. A writer is the list
-- of the bytes written, a reader the list of the bytes that are left.
pub mod RoundTrip
pub mod Framing
use debswarm.Prelude.{
  ℕ, zero, suc, ◌+◌, ◌*◌, ◌/◌, ◌%◌, Option, none, some, List, [], ◌∷◌, ◌++◌, GoString, ltb,
  if◌then◌else◌, length,
}
use mathlib.Core.Option
use debswarm.Prelude.Int.{ℤ, to_u64, to_i64}

pub record Message : Type 0 where
  pub type : ℕ  -- uint8
  pub nonce : ℕ  -- uint32
  pub hash : GoString
  pub size : ℤ  -- int64
  pub offset : ℤ  -- int64

abbrev pub msg_want_package : ℕ
msg_want_package = 1

abbrev pub msg_have_package : ℕ
msg_have_package = 2

abbrev pub msg_fetching : ℕ
msg_fetching = 3

abbrev pub msg_fetch_progress : ℕ
msg_fetch_progress = 4

abbrev pub msg_fetched : ℕ
msg_fetched = 5

abbrev pub msg_fetch_failed : ℕ
msg_fetch_failed = 6

abbrev pub msg_dont_have : ℕ
msg_dont_have = 7

pub data Error : Type 0 where
  eof unexpected_eof hash_too_long : Error

pub data Result {ℓ} (V : Type ℓ) : Type ℓ where
  err : Error → Result V
  ok : V → Result V

infixl 5 ◌>>=◌
abbrev pub ◌>>=◌ {ℓ κ} : {V : Type ℓ} {W : Type κ} → Result V → (V → Result W) → Result W
err reason >>= next = err reason
ok value >>= next = next value

-- `binary.Write` of an unsigned integer of n bytes: the most significant byte first.
unfoldable pub put_uint : ℕ → ℕ → List ℕ
put_uint zero x = []
put_uint (suc n) x = put_uint n (x / 256) ++ (x % 256) ∷ []

-- What `Encode` has written when it returns, and its error. The type and the nonce are written
-- before the length of the hash is checked.
unfoldable pub encode : Message → List ℕ × Option Error
encode m =
    let head = put_uint 1 m.type ++ put_uint 4 m.nonce in
    if ltb 65535 (length m.hash) then (head, some hash_too_long) else (
      head
          ++ (put_uint 2 (length m.hash)
              ++ (m.hash ++ (put_uint 8 (to_u64 m.size) ++ put_uint 8 (to_u64 m.offset)))),
      none,
    )

-- n bytes of the reader, or none if it has fewer.
unfoldable pub split_at : ℕ → List ℕ → Option (List ℕ × List ℕ)
split_at zero bs = some ([], bs)
split_at (suc n) [] = none
split_at (suc n) (b ∷ bs) = elim (split_at n bs) [
  | none ↦ none
  | some (front, rest) ↦ some (b ∷ front, rest)
]

-- A reader that ends before the first byte gives `io.EOF`, and after it `io.ErrUnexpectedEOF`.
abbrev pub short_read : List ℕ → Error
short_read [] = eof
short_read (b ∷ bs) = unexpected_eof

-- `io.ReadFull` into a buffer of n bytes.
unfoldable pub read_full : ℕ → List ℕ → Result (List ℕ × List ℕ)
unfolding split_at
read_full n bs = elim (split_at n bs) [ none ↦ err (short_read bs) | some p ↦ ok p ]

unfoldable pub from_bytes : ℕ → List ℕ → ℕ
from_bytes acc [] = acc
from_bytes acc (b ∷ bs) = from_bytes (acc * 256 + b) bs

-- `binary.Read` of an unsigned integer of n bytes.
unfoldable pub read_uint : ℕ → List ℕ → Result (ℕ × List ℕ)
unfolding read_full from_bytes
read_uint n bs = do (front, rest) ← read_full n bs; ok (from_bytes 0 front, rest)

-- The reader's own bound on the length of the hash.
unfoldable pub check_hash_len : ℕ → Result (Unit {0})
check_hash_len n = if ltb 1024 n then err hash_too_long else ok tt

-- `Decode`: the message, and what the reader has left.
unfoldable pub decode : List ℕ → Result (Message × List ℕ)
decode r0 = do
  (type, r1) ← read_uint 1 r0
  (nonce, r2) ← read_uint 4 r1
  (hash_len, r3) ← read_uint 2 r2
  _ ← check_hash_len hash_len
  (hash, r4) ← read_full hash_len r3
  (size, r5) ← read_uint 8 r4
  (offset, r6) ← read_uint 8 r5
  ok (
    record { type = type; nonce = nonce; hash = hash; size = to_i64 size; offset = to_i64 offset },
    r6,
  )

-- The loop of `handleStream` in protocol.go: the messages handed to the coordinator, and the error
-- that ended it. `none` means that the fuel ran out.
unfoldable pub handle_stream : ℕ → List ℕ → Option (List Message × Error)
handle_stream zero bs = none
handle_stream (suc fuel) bs = elim (decode bs) [
  | err e ↦ some ([], e)
  | ok (m, rest) ↦ Option.map (λ r. (m ∷ r.0, r.1)) (handle_stream fuel rest)
]
