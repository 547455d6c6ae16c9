-- ===== src/Wire.antt =====
-- wire.py: framed JSON over a stream. A stream that is read is the list of the chunks that are still to
-- arrive; an empty chunk, or none left, is the end. `json.loads` is an argument of the receiver.
pub mod Reads
pub mod Frames
use mdp2p.Py.Json.{canonical_json}
use mdp2p.Py.Result.{Result, ok, ◌>>=◌, raise, value_error}
use mdp2p.Py.Value.{Fields, Value}
use mdp2p.Prelude.{
  ℕ, List, [], ◌/◌, ◌∷◌, Option, suc, take, ◌*◌, ◌%◌, some, length, drop, ◌+◌, ◌++◌, if◌then◌else◌,
  zero, ◌-◌, none, eqb, ltb,
}

abbrev pub write_chunk_size : ℕ
write_chunk_size = 32768

abbrev pub Stream : Type 0
Stream = List (List ℕ)

unfoldable pub put_back : List ℕ → Stream → Stream
put_back [] s = s
put_back (b ∷ bs) s = (b ∷ bs) ∷ s

-- `await stream.read(n)`: at most n bytes of the next chunk
unfoldable pub read : ℕ → Stream → List ℕ × Stream
read n [] = ([], [])
read n (c ∷ s) = (take n c, put_back (drop n c) s)

-- The loop of `read_exact`, with the bytes that are still needed. A run that goes on reads a byte at
-- least, so as many runs as bytes are enough.
unfoldable pub read_loop : ℕ → List ℕ → ℕ → Stream → Option (List ℕ) × Stream
read_loop zero buf needed s = (some buf, s)
read_loop (suc fuel) buf needed s =
    let got = read needed s in
    let rest = read_loop fuel (buf ++ got.0) (needed - length got.0) got.1 in
    if eqb needed 0 then (some buf, s) else if eqb (length got.0) 0 then (none, got.1) else rest

-- `read_exact(stream, n)`
unfoldable pub read_exact : ℕ → Stream → Option (List ℕ) × Stream
read_exact n s = read_loop n [] n s

-- `struct.pack("!I", n)` and its inverse
unfoldable pub pack : ℕ → List ℕ
pack n = n / 16777216 % 256 ∷ n / 65536 % 256 ∷ n / 256 % 256 ∷ n % 256 ∷ []

unfoldable pub unpack : List ℕ → ℕ
unpack (a ∷ b ∷ c ∷ d ∷ []) = ((a * 256 + b) * 256 + c) * 256 + d
unpack _ = 0

-- The slices of the frame, one for each write; the first argument bounds their number.
unfoldable pub slices : ℕ → List ℕ → List (List ℕ)
slices zero frame = []
slices (suc k) [] = []
slices (suc k) (b ∷ bs) = take write_chunk_size (b ∷ bs) ∷ slices k (drop write_chunk_size (b ∷ bs))

-- `send_framed_json(stream, obj, max_size)`: the writes, or the exception
unfoldable pub send_framed_json : Fields → ℕ → Result (List (List ℕ))
send_framed_json fs max_size =
    let payload = canonical_json fs in
    let frame = pack (length payload) ++ payload in
    if ltb max_size (length payload) then raise value_error else ok (slices (length frame) frame)

module _ (loads : List ℕ → Result Value) where
  unfoldable pub parse_payload : Option (List ℕ) × Stream → Result (Option Value) × Stream
  parse_payload (none, s) = (ok none, s)
  parse_payload (some payload, s) = ((loads payload >>= λ v. ok (some v)), s)

  unfoldable pub recv_body : ℕ → Option (List ℕ) × Stream → Result (Option Value) × Stream
  recv_body max_size (none, s) = (ok none, s)
  recv_body max_size (some header, s) =
      if ltb max_size (unpack header)
      then (ok none, s)
      else parse_payload (read_exact (unpack header) s)

  -- `recv_framed_json(stream, max_size)`
  unfoldable pub recv_framed_json : ℕ → Stream → Result (Option Value) × Stream
  recv_framed_json max_size s = recv_body max_size (read_exact 4 s)
