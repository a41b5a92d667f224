-- ===== src/Fleet/Examples.antt =====
-- The theorems of internal/fleet at concrete inputs.
use debswarm.Prelude.{
  ℕ, ◌<◌, ◌≡◌, ◌≢◌, refl, inl, none, some, true, false, List, [], ◌∷◌, ◌++◌, arith, count, codes,
  GoString, str_eq,
}
use debswarm.Prelude.Int.{pos, negsuc, to_u64}
use debswarm.Prelude.Assoc.{lookup, insert, delete, weigh}
use debswarm.Fleet.Message.{
  Message, Error, ok, err, eof, hash_too_long, encode, decode, handle_stream, put_uint,
}
use debswarm.Fleet.Message.RoundTrip.{IsMessage, decode-encode, decode-encode_long}
use debswarm.Fleet.Message.Framing.{
  IsSendable, decode_truncated, encode_all, handle_stream-encode_all, handle_stream_total,
}
use debswarm.Fleet.State.{
  FetchState, FetchingResponse, DontHaveResponse, Coordinator, fresh_chan, new, self, fetch_err,
}
use debswarm.Fleet.Coordinator.{
  notify_fetching, notify_complete, notify_failed, reap_stale, handle_fetched, handle_fetch_failed,
  Outgoing, message,
}
use debswarm.Fleet.Coordinator.Accounts.{Accounts, waits_in}
use debswarm.Fleet.Query.{
  Query, returns, WantResult, competing, dont_have_from, claim_timeout, join, on_event, run_query,
  fetch_wan, wait_peer, new_chan,
}
use debswarm.Fleet.Query.Accounts.{coordinator_of}
use debswarm.Fleet.Query.Fetcher.{one_fetcher, run_query_ends}
use debswarm.Fleet.Node.{Reach, here, next, fetching, joins, lost_by, stay}
use debswarm.Fleet.Node.Waiters.{
  Reach-Accounts, Reach-no_panic, notify_complete_tells, claim_strands,
}

abbrev want : Message
want = record { type = 1; nonce = 70000; hash = codes "abc"; size = pos 4096; offset = negsuc 0 }

want-IsMessage : IsMessage want
want-IsMessage = omega arith

want-IsSendable : IsSendable want
want-IsSendable = record { words = want-IsMessage; hash_fits = omega arith }

decode-encode_example :
    ((encode want).1 ≡ none) × (decode ((encode want).0 ++ 9 ∷ []) ≡ ok (want, 9 ∷ []))
decode-encode_example = decode-encode want (9 ∷ []) want-IsMessage (omega arith)

abbrev replicate : ℕ → List ℕ
replicate n = elim n [ Prim.Native.Nat.zero ↦ [] | Prim.Native.Nat.suc (m → ih) ↦ 97 ∷ ih ]

abbrev long_want : Message
long_want = record { type = 1; nonce = 7; hash = replicate 1025; size = pos 0; offset = pos 0 }

decode-encode_long_example :
    ((encode long_want).1 ≡ none) × (decode ((encode long_want).0 ++ []) ≡ err hash_too_long)
decode-encode_long_example =
    decode-encode_long long_want [] (omega arith) (omega arith) (omega arith)

abbrev cut_want : List ℕ
cut_want = 1 ∷ 0 ∷ 1 ∷ 17 ∷ 112 ∷ []

abbrev want_tail : List ℕ
want_tail =
    0 ∷ 3 ∷ 97 ∷ 98 ∷ 99 ∷ 0 ∷ 0 ∷ 0 ∷ 0 ∷ 0 ∷ 0 ∷ 16 ∷ 0 ∷ 255 ∷ 255 ∷ 255 ∷ 255 ∷ 255 ∷ 255 ∷ 255
    ∷ 255 ∷ []

encode-want : (encode want).0 ≡ cut_want ++ want_tail
unfolding encode put_uint to_u64
encode-want = refl

decode_truncated_example : (e : Error) × (decode cut_want ≡ err e)
decode_truncated_example =
    decode_truncated want cut_want want_tail want-IsSendable (λ e. cc) encode-want

handle_stream-encode_all_example :
    handle_stream 3 (encode_all (want ∷ want ∷ [])) ≡ some (want ∷ want ∷ [], eof)
handle_stream-encode_all_example =
    handle_stream-encode_all 3 (want ∷ want ∷ []) (want-IsSendable, (want-IsSendable, tt))
      (omega arith)

handle_stream_total_example : (r : List Message × Error) × (handle_stream 6 cut_want ≡ some r)
handle_stream_total_example = handle_stream_total 6 cut_want (omega arith)

-- A fleet of three that want "abc" at once.
abbrev abc : GoString
abc = codes "abc"

abbrev low : FetchingResponse
low = record { peer = codes "a"; nonce = 10 }

abbrev mid : FetchingResponse
mid = record { peer = codes "b"; nonce = 20 }

abbrev asking : ℕ → Query
asking nonce = record {
  hash = abc;
  size = pos 4096;
  nonce = nonce;
  pending = 0;
  awaiting = codes "x" ∷ codes "y" ∷ [];
  elected = none;
}

abbrev fresh : Coordinator
fresh = new none

one_fetcher_example :
    ((c' : Coordinator) × (run_query 5 (competing mid ∷ claim_timeout ∷ []) (asking 10) fresh
        ≡ returns c' fetch_wan))
    × ((c' : Coordinator) × (i : ℕ) × (run_query 5
            (competing mid
              ∷ competing low
              ∷ dont_have_from (record { peer = codes "x"; nonce = 0; also_wanting = false })
              ∷ claim_timeout
              ∷ [])
            (asking 30)
            fresh
          ≡ returns c' (wait_peer (codes "a") i)))
one_fetcher_example =
    one_fetcher 5 low (asking 10) fresh (competing mid ∷ []) (asking 30) fresh (mid ∷ [])
      (dont_have_from (record { peer = codes "x"; nonce = 0; also_wanting = false }) ∷ [])
      (refl, refl) (omega arith, tt) (refl, omega arith) (inl (omega arith), tt) (λ e. cc, tt)

abbrev no_copy : GoString → DontHaveResponse
no_copy p = record { peer = p; nonce = 40; also_wanting = true }

run_query_ends_example :
    (c' : Coordinator) × (r : WantResult) × (run_query 5
        (dont_have_from (no_copy (codes "y")) ∷ dont_have_from (no_copy (codes "x")) ∷ [])
        (asking 30)
        fresh
      ≡ returns c' r)
unfolding str_eq
run_query_ends_example =
    run_query_ends 5 (no_copy (codes "y") ∷ no_copy (codes "x") ∷ []) (asking 30) fresh (λ e. cc)
      (refl, (refl, tt))

-- A node that downloads "abc", with one local request that waits for it.
abbrev fetching_abc : Coordinator
fetching_abc = (notify_fetching 0 7 abc (pos 10) fresh).0

abbrev seen_abc : FetchState
seen_abc = record {
  hash = abc;
  size = pos 10;
  offset = pos 0;
  fetcher = self;
  nonce = 7;
  start_time = 0;
  last_update = 0;
  waiters = [];
}

abbrev joined_abc : Coordinator
joined_abc = (join abc seen_abc fetching_abc).0

abbrev joined_reached : Reach none joined_abc
joined_reached = next (next here (fetching 0 7 abc (pos 10) refl)) (joins abc seen_abc refl)

Reach-Accounts_example : Accounts (lost_by joined_reached) joined_abc
Reach-Accounts_example = Reach-Accounts joined_reached

Reach-no_panic_example :
    (notify_complete abc joined_abc ≢ none)
    × (notify_failed abc (fetch_err (codes "gone")) joined_abc ≢ none)
    × (reap_stale 9 joined_abc ≢ none)
    × (handle_fetched (codes "a") (message 5 abc) joined_abc ≢ none)
    × (handle_fetch_failed (codes "a") (message 5 abc) joined_abc ≢ none)
Reach-no_panic_example =
    Reach-no_panic joined_reached 9 abc (codes "a") (fetch_err (codes "gone")) (message 5 abc)

notify_complete_tells_example :
    (c' : Coordinator) × (out : List Outgoing) × (notify_complete abc joined_abc ≡ some (c', out))
    × ((i : ℕ) → 0 < count i (0 ∷ []) → c'.chans i ≡ record { buffer = some none; closed = true })
    × ((i : ℕ) → count i (0 ∷ []) ≡ 0 → c'.chans i ≡ joined_abc.chans i)
    × (lookup abc c'.in_flight ≡ none)
unfolding notify_fetching join new_chan lookup insert delete str_eq new
notify_complete_tells_example =
    notify_complete_tells joined_reached abc (record seen_abc { waiters = 0 ∷ [] }) refl

abbrev joined_claimed : Coordinator
joined_claimed = coordinator_of (on_event 5 claim_timeout (asking 3) joined_abc)

claim_strands_example :
    (joined_claimed.chans 0 ≡ fresh_chan) × (weigh (waits_in 0) joined_claimed.in_flight ≡ 0)
unfolding notify_fetching join new_chan lookup insert delete str_eq new
claim_strands_example = claim_strands joined_reached 5 (asking 3) 0 refl (omega arith) stay
