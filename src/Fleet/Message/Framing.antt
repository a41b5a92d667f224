-- ===== src/Fleet/Message/Framing.antt =====
-- messages.go and protocol.go: reading messages from a stream, in parts and one after another.
use mathlib.Core.List.{append-nil}
use debswarm.Prelude.{
  ℕ, zero, suc, ◌+◌, ◌≤◌, ◌<◌, ◌≡◌, ◌≢◌, refl, ◌⊎◌, inl, inr, List, [], ◌∷◌, ◌++◌, arith, some,
  length, Option-cases, All,
}
use debswarm.Fleet.Message.{
  Message, Error, Result, ok, err, eof, split_at, read_full, read_uint, decode, encode, ◌>>=◌,
  check_hash_len, handle_stream,
}
use debswarm.Fleet.Message.RoundTrip.{IsMessage, decode-encode}

split_at_more :
    (n : ℕ) (p q : List ℕ) {a r : List ℕ}
    → split_at n p ≡ some (a, r)
    → split_at n (p ++ q) ≡ some (a, r ++ q)
unfolding split_at
split_at_more zero p q h = ground arith
split_at_more (suc n) [] q h = cc
split_at_more (suc n) (b ∷ p) q {a} {r} h = elim (Option-cases (split_at n p)) [
  | inl e ↦ ground arith
  | inr ((front, rest), e) ↦ ground (arith, split_at_more n p q e)
]

split_at_short :
    (n : ℕ) (p : List ℕ) {a r : List ℕ} → split_at n p ≡ some (a, r) → length p ≡ n + length r
unfolding split_at
split_at_short zero p h = ground arith
split_at_short (suc n) [] h = cc
split_at_short (suc n) (b ∷ p) h = elim (Option-cases (split_at n p)) [
  | inl e ↦ ground arith
  | inr ((front, rest), e) ↦ ground (arith, split_at_short n p e)
]

read_full_more :
    (n : ℕ) (p q : List ℕ) {a r : List ℕ}
    → read_full n p ≡ ok (a, r)
    → read_full n (p ++ q) ≡ ok (a, r ++ q)
unfolding read_full
read_full_more n p q {a} {r} h = elim (Option-cases (split_at n p)) [
  | inl e ↦ ground arith
  | inr ((front, rest), e) ↦ rw (split_at_more n p q e, read_full) (ground arith)
]

read_full_short :
    (n : ℕ) (p : List ℕ) {a r : List ℕ} → read_full n p ≡ ok (a, r) → length p ≡ n + length r
unfolding read_full
read_full_short n p h = elim (Option-cases (split_at n p)) [
  | inl e ↦ ground arith
  | inr ((front, rest), e) ↦ ground (arith, split_at_short n p e)
]

Result-cases {ℓ} :
    {A : Type ℓ} (r : Result A) → ((e : Error) × (r ≡ err e)) ⊎ ((a : A) × (r ≡ ok a))
Result-cases (ok a) = inr (a, refl)
Result-cases (err e) = inl (e, refl)

read_uint_more :
    (n : ℕ) (p q : List ℕ) {x : ℕ} {r : List ℕ}
    → read_uint n p ≡ ok (x, r)
    → read_uint n (p ++ q) ≡ ok (x, r ++ q)
unfolding read_uint
read_uint_more n p q {x} {r} h = elim (Result-cases (read_full n p)) [
  | inl (e, f) ↦ ground arith
  | inr ((front, rest), e) ↦ rw (read_full_more n p q e, read_uint) (ground arith)
]

read_uint_short :
    (n : ℕ) (p : List ℕ) {x : ℕ} {r : List ℕ} → read_uint n p ≡ ok (x, r) → length p ≡ n + length r
unfolding read_uint
read_uint_short n p h = elim (Result-cases (read_full n p)) [
  | inl (e, f) ↦ ground arith
  | inr ((front, rest), e) ↦ ground (arith, read_full_short n p e)
]

bind_ok {ℓ κ} :
    {V : Type ℓ} {W : Type κ} {w : W} (first : Result V) (next : V → Result W)
    → (first >>= next) ≡ ok w
    → (v : V) × (first ≡ ok v) × (next v ≡ ok w)
bind_ok (err reason) next h = cc
bind_ok (ok v) next h = (v, refl, h)

-- A reader that takes at least k bytes, and does not look at the bytes behind those it takes.
abbrev IsLocal {ℓ} : {A : Type ℓ} → ℕ → (List ℕ → Result (A × List ℕ)) → Type ℓ
IsLocal {A} k f =
    (p q : List ℕ) (a : A) (r : List ℕ)
    → f p ≡ ok (a, r)
    → (f (p ++ q) ≡ ok (a, r ++ q)) × (length r + k ≤ length p)

read_uint-IsLocal : (n : ℕ) → IsLocal n (read_uint n)
read_uint-IsLocal n p q a r h = (read_uint_more n p q h, omega (arith, read_uint_short n p h))

read_full-IsLocal : (n : ℕ) → IsLocal 0 (read_full n)
read_full-IsLocal n p q a r h = (read_full_more n p q h, omega (arith, read_full_short n p h))

ok-IsLocal {ℓ} : {A : Type ℓ} (a : A) → IsLocal 0 (λ p. ok (a, p))
ok-IsLocal a p q b r h = (ground arith, ground arith)

>>=-IsLocal {ℓ κ} :
    {A : Type ℓ} {B : Type κ} (j k : ℕ) (f : List ℕ → Result (A × List ℕ))
    (g : A → List ℕ → Result (B × List ℕ))
    → IsLocal j f
    → ((a : A) → IsLocal k (g a))
    → IsLocal (j + k) (λ p. f p >>= λ x. g x.0 x.1)
>>=-IsLocal {A} {B} j k f g lf lg p q b r h =
    let (x, e, h') = bind_ok {W = B × List ℕ} (f p) (λ y. g y.0 y.1) h in
    let (first, used) = lf p q x.0 x.1 e in
    let (second, rest) = lg x.0 x.1 q b r h' in (rw first second, omega arith)

check-IsLocal {ℓ} :
    {B : Type ℓ} (n k : ℕ) (g : List ℕ → Result (B × List ℕ))
    → IsLocal k g
    → IsLocal k (λ p. check_hash_len n >>= λ _. g p)
check-IsLocal {B} n k g lg p q b r h =
    let (u, e, h') = bind_ok {W = B × List ℕ} (check_hash_len n) (λ _. g p) h in
    let (second, rest) = lg p q b r h' in (rw e second, rest)

decode-IsLocal : IsLocal 23 decode
unfolding decode
decode-IsLocal = >>=-IsLocal 1 22 (read_uint 1) _ (read_uint-IsLocal 1) λ type.
    >>=-IsLocal 4 18 (read_uint 4) _ (read_uint-IsLocal 4) λ nonce.
      >>=-IsLocal 2 16 (read_uint 2) _ (read_uint-IsLocal 2) λ hash_len.
        check-IsLocal hash_len 16 _ (
          >>=-IsLocal 0 16 (read_full hash_len) _ (read_full-IsLocal hash_len) λ hash.
            >>=-IsLocal 8 8 (read_uint 8) _ (read_uint-IsLocal 8)
              λ size. >>=-IsLocal 8 0 (read_uint 8) _ (read_uint-IsLocal 8) λ offset. ok-IsLocal _)

-- A message that `Encode` writes and every reader takes.
pub record IsSendable (m : Message) : Type 0 where
  pub words : IsMessage m
  pub hash_fits : length m.hash ≤ 1024

-- A stream that is cut anywhere inside a sendable message gives an error, never another message.
pub decode_truncated :
    (m : Message) (p q : List ℕ)
    → IsSendable m
    → q ≢ []
    → (encode m).0 ≡ p ++ q
    → (e : Error) × (decode p ≡ err e)
decode_truncated m p q v cut split = elim (Result-cases (decode p)) [
  | inl (e, f) ↦ (e, f)
  | inr ((m', r), f) ↦
      absurd (cut (tail_empty r q (ground (arith, (decode-IsLocal p q m' r f).0, whole))))
]
  where
    whole : decode (p ++ q) ≡ ok (m, [])
    whole = rw (← split) (rw append-nil at (decode-encode m [] v.words v.hash_fits).1)

    tail_empty : (r q : List ℕ) → r ++ q ≡ [] → q ≡ []
    tail_empty [] q e = e
    tail_empty (x ∷ r) q e = cc

-- The bytes of messages sent one after another on a stream.
abbrev pub encode_all : List Message → List ℕ
encode_all [] = []
encode_all (m ∷ ms) = (encode m).0 ++ encode_all ms

decode_nil : decode [] ≡ err eof
unfolding decode read_uint read_full split_at
decode_nil = refl

-- If every message is sendable, its hash at most 1024 bytes long among other bounds, the reader of
-- a stream hands on exactly the messages that were sent, in their order, and stops at the end of
-- the stream; one round of fuel for each message and one for the end suffice.
pub handle_stream-encode_all :
    (fuel : ℕ) (ms : List Message)
    → All IsSendable ms
    → length ms < fuel
    → handle_stream fuel (encode_all ms) ≡ some (ms, eof)
unfolding handle_stream
handle_stream-encode_all zero ms v h = absurd (omega arith)
handle_stream-encode_all (suc fuel) [] v h = rw (decode_nil, handle_stream)
handle_stream-encode_all (suc fuel) (m ∷ ms) v h =
    rw ((decode-encode m (encode_all ms) v.0.words v.0.hash_fits).1, handle_stream)
      (rw (handle_stream-encode_all fuel ms v.1 (omega arith)))

-- Whatever bytes arrive, the reader's loop ends: each message takes bytes off the stream.
pub handle_stream_total :
    (fuel : ℕ) (bs : List ℕ)
    → length bs < fuel
    → (r : List Message × Error) × (handle_stream fuel bs ≡ some r)
unfolding handle_stream
handle_stream_total zero bs h = absurd (omega arith)
handle_stream_total (suc fuel) bs h = elim (Result-cases (decode bs)) [
  | inl (e, f) ↦ (([], e), rw (f, handle_stream))
  | inr ((m, rest), f) ↦
      let shorter : length rest < fuel = omega (arith, (decode-IsLocal bs [] m rest f).1) in
      let (r, tail) = handle_stream_total fuel rest shorter in
      ((m ∷ r.0, r.1), rw (f, handle_stream) (rw tail))
]
