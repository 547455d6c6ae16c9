-- ===== src/Wire/Frames.antt =====
-- A message that `send_framed_json` of wire.py writes is the message that `recv_framed_json` reads.
use mdp2p.Wire.Reads.{join, AllFull, append_assoc, read_exact-front}
use mdp2p.Py.Value.{Fields, Value}
use mdp2p.Wire.{
  unpack, slices, pack, Stream, read_exact, canonical_json, recv_framed_json, send_framed_json,
  write_chunk_size, recv_body, ok, parse_payload, Result, ◌>>=◌,
}
use mdp2p.Prelude.{
  [], ◌∷◌, List, ℕ, ◌<◌, suc, length, ◌≤◌, arith, ◌≡◌, length-take, drop, ap, ◌++◌, zero, take, ltb,
  length-drop, false, ◌∙◌, refl, take-append-drop, some,
}

unpack-pack : (n : ℕ) → n < 4294967296 → unpack (pack n) ≡ n
unfolding unpack pack
unpack-pack n h = omega (arith, h)

join-slices : (k : ℕ) (frame : List ℕ) → length frame ≤ k → join (slices k frame) ≡ frame
unfolding slices
join-slices zero [] h = refl
join-slices zero (b ∷ bs) h = absurd (omega (arith, h))
join-slices (suc k) [] h = refl
join-slices (suc k) (b ∷ bs) h =
    ap (λ r. take write_chunk_size (b ∷ bs) ++ r)
      (join-slices k (drop write_chunk_size (b ∷ bs))
        (omega (arith, length-drop write_chunk_size (b ∷ bs), h)))
    ∙ take-append-drop write_chunk_size (b ∷ bs)

-- Each write is within the limit of the transport.
abbrev pub AllSmall : List (List ℕ) → Type 0
AllSmall [] = Unit
AllSmall (c ∷ cs) = (length c ≤ write_chunk_size) × AllSmall cs

AllSmall-slices : (k : ℕ) (frame : List ℕ) → AllSmall (slices k frame)
unfolding slices
AllSmall-slices zero frame = tt
AllSmall-slices (suc k) [] = tt
AllSmall-slices (suc k) (b ∷ bs) = (
  omega (arith, length-take write_chunk_size (b ∷ bs)),
  AllSmall-slices k (drop write_chunk_size (b ∷ bs)),
)

header_4 : (n : ℕ) (s : Stream) → read_exact 4 s ≡ read_exact (length (pack n)) s
unfolding pack
header_4 n s = refl

module _ (fs : Fields) (max_size : ℕ) (small : max_size < 4294967296)
    (fits : length (canonical_json fs) ≤ max_size) where
  sent :
      send_framed_json fs max_size
      ≡ ok (
          slices
            (length (pack (length (canonical_json fs)) ++ canonical_json fs))
            (pack (length (canonical_json fs)) ++ canonical_json fs))
  unfolding send_framed_json
  sent =
      let within : ltb max_size (length (canonical_json fs)) ≡ false = ground (arith, fits) in
      rw within refl

  -- A message within the size limit (below 4 GiB) is sent in writes of at most 32 KiB, and however the
  -- transport cuts the bytes into chunks, and whatever comes after them, the receiver with the same
  -- limit hands exactly the canonical JSON of the message to the parser and leaves what comes after it.
  pub recv-send_framed_json :
      (writes : List (List ℕ)) × (send_framed_json fs max_size ≡ ok writes)
      × AllSmall writes
      × ((loads : List ℕ → Result Value) (s : Stream) (rest : List ℕ)
          → AllFull s
          → join s ≡ join writes ++ rest
          → (s' : Stream) × (recv_framed_json loads max_size s
              ≡ ((loads (canonical_json fs) >>= λ v. ok (some v)), s'))
            × (join s' ≡ rest))
  unfolding recv_framed_json recv_body parse_payload
  recv-send_framed_json =
      let payload : List ℕ = canonical_json fs in
      let header : List ℕ = pack (length payload) in
      let frame : List ℕ = header ++ payload in
      (
        slices (length frame) frame,
        sent,
        AllSmall-slices (length frame) frame,
        λ loads s rest full e.
            let whole : join s ≡ header ++ (payload ++ rest) =
              e
              ∙ ap (λ r. r ++ rest) (join-slices (length frame) frame (omega arith))
              ∙ append_assoc header payload rest in
            let (s₁, header_read, rest₁, full₁) =
              read_exact-front header (payload ++ rest) s full whole in
            let (s₂, payload_read, rest₂, full₂) = read_exact-front payload rest s₁ full₁ rest₁ in
            let four : read_exact 4 s ≡ (some header, s₁) =
              header_4 (length payload) s ∙ header_read in
            let size : unpack header ≡ length payload =
              unpack-pack (length payload) (omega (arith, small, fits)) in
            let within : ltb max_size (length payload) ≡ false = ground (arith, fits) in
            (s₂, rw (four, size, within, payload_read) refl, rest₂),
      )
