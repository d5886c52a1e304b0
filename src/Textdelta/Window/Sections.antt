-- ===== src/Textdelta/Window/Sections.antt =====
-- A section that the encoder wrote decodes to the bytes it was made from.
use svn.Base.{
  ℕ, ◌+◌, ◌^◌, ◌≤◌, ◌<◌, ◌≡◌, ◌⊎◌, refl, ◌∙◌, >>=-eq-ok, arith, [], ◌++◌, Bytes, text, length,
  length-append, drop-append_length, ok, err, protocol, Bool-cases, inl, inr, ltb, ◌==◌, ◌||◌, leb,
  eq→==, ne→==, ◌≢◌,
}
use svn.Codec.{Codec, IsLossless, done, Encoded, encoded, write_failed, finish_failed}
use svn.Svndiff.Uint.{encode_uint}
use svn.Svndiff.Encode.{
  SvndiffVersion, v0, v1, v2, compress_zlib, compress_lz4, sections, smaller_of,
  zlib_min_compress_size,
}
use svn.Textdelta.Uint.RoundTrip.{try_decode_uint-encode_uint}
use svn.Textdelta.Window.{
  zlib_payload, decode_zlib_section, lz4_payload, decode_lz4_section, decode_section,
}

-- A length and a payload behind it.
abbrev wire_of : Bytes → Bytes → Bytes
wire_of plain payload = encode_uint (length plain) [] ++ payload

module _ (c : Codec) where
  decode_zlib_section-wire_of :
      (plain payload : Bytes) (limit : ℕ)
      → length plain ≤ limit
      → length plain < 2 ^ 64
      → decode_zlib_section c (wire_of plain payload) limit ≡ zlib_payload c payload (length plain)
  unfolding decode_zlib_section
  decode_zlib_section-wire_of plain payload limit h fits =
      let (e, bound) = try_decode_uint-encode_uint (length plain) payload fits in
      rw e (rw drop-append_length (ground arith))

  decode_lz4_section-wire_of :
      (plain payload : Bytes) (limit : ℕ)
      → length plain ≤ limit
      → length plain < 2 ^ 64
      → decode_lz4_section c (wire_of plain payload) limit ≡ lz4_payload c payload (length plain)
  unfolding decode_lz4_section
  decode_lz4_section-wire_of plain payload limit h fits =
      let (e, bound) = try_decode_uint-encode_uint (length plain) payload fits in
      rw e (rw drop-append_length (ground arith))

  zlib_payload_self : (plain : Bytes) → zlib_payload c plain (length plain) ≡ ok plain
  unfolding zlib_payload
  zlib_payload_self plain = rw (eq→== _ _ refl)

  lz4_payload_self : (plain : Bytes) → lz4_payload c plain (length plain) ≡ ok plain
  unfolding lz4_payload
  lz4_payload_self plain = rw (eq→== _ _ refl)

  zlib_payload_compressed :
      (plain compressed : Bytes)
      → length compressed ≢ length plain
      → c.zlib_decode compressed ≡ done (plain, length compressed)
      → zlib_payload c compressed (length plain) ≡ ok plain
  unfolding zlib_payload
  zlib_payload_compressed plain compressed ne e =
      rw (ne→== _ _ ne) (rw e (rw (eq→== (length compressed) _ refl, eq→== (length plain) _ refl)))

  lz4_payload_compressed :
      (plain compressed : Bytes)
      → length compressed ≢ length plain
      → c.lz4_decompress compressed (length plain) ≡ done plain
      → lz4_payload c compressed (length plain) ≡ ok plain
  unfolding lz4_payload
  lz4_payload_compressed plain compressed ne e =
      rw (ne→== _ _ ne) (rw e (rw (eq→== (length plain) _ refl)))

  -- A compressed section is no longer than the plain data and its length.
  abbrev IsSmall : Bytes → Bytes → Type 0
  IsSmall plain wire = length wire ≤ length plain + 10

  -- The payload is the plain data, or shorter data that the library made of it.
  abbrev Shape : (Bytes → Type 0) → Bytes → Bytes → Type 0
  Shape Made plain wire =
      (wire ≡ wire_of plain plain)
      ⊎ ((z : Bytes) × Made z × (length z < length plain) × (wire ≡ wire_of plain z))

  smaller_of-Shape :
      (Made : Bytes → Type 0) (plain z : Bytes)
      → Made z
      → Shape Made plain (smaller_of (encode_uint (length plain) []) z plain)
  smaller_of-Shape Made plain z made = elim (Bool-cases (leb (length plain) (length z))) [
    | inl e ↦ rw e (inl refl)
    | inr e ↦ rw e (inr (z, made, ground arith, refl))
  ]

  compress_zlib-Shape :
      (plain wire : Bytes) (level : ℕ)
      → compress_zlib c plain level ≡ ok wire
      → Shape (λ z. c.zlib_encode level plain ≡ encoded z) plain wire
  unfolding compress_zlib
  compress_zlib-Shape plain wire level h =
      elim (Bool-cases (ltb (length plain) zlib_min_compress_size || level == 0)) [
        | inl e ↦ inl (cc (rw e at h))
        | inr e ↦ made (c.zlib_encode level plain) refl (rw e at h)
      ]
    where
      made :
          (o : Encoded)
          → c.zlib_encode level plain ≡ o
          → (elim o [
            | write_failed t ↦ err (protocol (text "zlib encode failed: " ++ t))
            | finish_failed t ↦ err (protocol (text "zlib finish failed: " ++ t))
            | encoded z ↦ ok (smaller_of (encode_uint (length plain) []) z plain)
          ])
            ≡ ok wire
          → Shape (λ z. c.zlib_encode level plain ≡ encoded z) plain wire
      made (write_failed t) e p = cc
      made (finish_failed t) e p = cc
      made (encoded z) e p =
          let q : smaller_of (encode_uint (length plain) []) z plain ≡ wire = cc p in
          rw q at (smaller_of-Shape (λ z. c.zlib_encode level plain ≡ encoded z) plain z e)

  compress_lz4-Shape :
      (plain wire : Bytes)
      → compress_lz4 c plain ≡ ok wire
      → Shape (λ z. z ≡ c.lz4_compress plain) plain wire
  unfolding compress_lz4
  compress_lz4-Shape plain wire h =
      let q : smaller_of (encode_uint (length plain) []) (c.lz4_compress plain) plain ≡ wire =
        cc h in
      rw q at (smaller_of-Shape (λ z. z ≡ c.lz4_compress plain) plain (c.lz4_compress plain) refl)

  wire_of-IsSmall :
      (plain z : Bytes)
      → length plain < 2 ^ 64
      → length z ≤ length plain
      → IsSmall plain (wire_of plain z)
  wire_of-IsSmall plain z fits le =
      let (e, bound) = try_decode_uint-encode_uint (length plain) [] fits in
      omega (arith, length-append (encode_uint (length plain) []) z)

  abbrev pub Restores : SvndiffVersion → Bytes → Bytes → Type 0
  Restores v plain wire =
      ((limit : ℕ) → length plain ≤ limit → decode_section c v wire limit ≡ ok plain)
      × IsSmall plain wire

  module _ (lossless : IsLossless c) where
    zlib-Restores :
        (plain wire : Bytes) (level : ℕ)
        → length plain < 2 ^ 64
        → compress_zlib c plain level ≡ ok wire
        → Restores v1 plain wire
    unfolding decode_section
    zlib-Restores plain wire level fits h = elim (compress_zlib-Shape plain wire level h) [
      | inl e ↦ rw e (
        λ limit le. decode_zlib_section-wire_of plain plain limit le fits ∙ zlib_payload_self plain,
        wire_of-IsSmall plain plain fits (omega arith),
      )
      | inr (z, made, lt, e) ↦ rw e (
        λ limit le.
            decode_zlib_section-wire_of plain z limit le fits
            ∙ zlib_payload_compressed plain z (omega arith)
                (lossless.zlib_lossless level plain z made),
        wire_of-IsSmall plain z fits (omega arith),
      )
    ]

    lz4-Restores :
        (plain wire : Bytes)
        → length plain < 2 ^ 64
        → compress_lz4 c plain ≡ ok wire
        → Restores v2 plain wire
    unfolding decode_section
    lz4-Restores plain wire fits h = elim (compress_lz4-Shape plain wire h) [
      | inl e ↦ rw e (
        λ limit le. decode_lz4_section-wire_of plain plain limit le fits ∙ lz4_payload_self plain,
        wire_of-IsSmall plain plain fits (omega arith),
      )
      | inr (z, made, lt, e) ↦ rw e (
        λ limit le.
            decode_lz4_section-wire_of plain z limit le fits
            ∙ lz4_payload_compressed plain z (omega arith) (rw made (lossless.lz4_lossless plain)),
        wire_of-IsSmall plain z fits (omega arith),
      )
    ]

    -- With lossless compression, each section of less than 2^64 bytes that the encoder makes
    -- decodes to the plain bytes under every limit that admits them, and is at most ten bytes
    -- longer.
    pub decode_section-sections :
        (v : SvndiffVersion) (ins new ins_wire new_wire : Bytes) (level : ℕ)
        → length ins < 2 ^ 64
        → length new < 2 ^ 64
        → sections c v ins new level ≡ ok (ins_wire, new_wire)
        → Restores v ins ins_wire × Restores v new new_wire
    unfolding sections decode_section
    decode_section-sections v0 ins new ins_wire new_wire level fi fn h =
        let p : ins ≡ ins_wire = cc h in
        let q : new ≡ new_wire = cc h in
        rw (← p, ← q) ((λ limit le. refl, omega arith), (λ limit le. refl, omega arith))
    decode_section-sections v1 ins new ins_wire new_wire level fi fn h =
        let (a, pa, ra) = >>=-eq-ok (compress_zlib c ins level) _ h in
        let (b, pb, rb) = >>=-eq-ok (compress_zlib c new level) _ ra in
        (
          zlib-Restores ins ins_wire level fi (cc (pa, rb)),
          zlib-Restores new new_wire level fn (cc (pb, rb)),
        )
    decode_section-sections v2 ins new ins_wire new_wire level fi fn h =
        let (a, pa, ra) = >>=-eq-ok (compress_lz4 c ins) _ h in
        let (b, pb, rb) = >>=-eq-ok (compress_lz4 c new) _ ra in
        (lz4-Restores ins ins_wire fi (cc (pa, rb)), lz4-Restores new new_wire fn (cc (pb, rb)))
