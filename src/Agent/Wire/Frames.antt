-- ===== src/Agent/Wire/Frames.antt =====
-- Frames: what is written is read back, and what is too long is refused.
use go_flexconf.Agent.Wire.{
  uint32, Bytes, Codec, ReadsBack, max_frame, put_uint32, read_frame, write_frame, read_payload,
}
use go_flexconf.Base.{
  List, [], ap, arith, drop, length, refl, take, ℕ, ◌%◌, ◌++◌, ◌/◌, ◌<◌, ◌^◌, ◌∷◌, ◌≡◌, Bool-cases,
  false, if◌then◌else◌, inl, inr, leb, length-append, ltb, true, ◌∙◌,
}
use go_flexconf.Errors.{err, ok, plain}

uint32_put :
    (n : ℕ)
    → n < 2 ^ 32
    → uint32 (n / 2 ^ 24 % 256) (n / 2 ^ 16 % 256) (n / 2 ^ 8 % 256) (n % 256) ≡ n
uint32_put n h = omega arith

take-length : {A : Type 0} (xs ys : List A) → take (length xs) (xs ++ ys) ≡ xs
take-length [] ys = refl
take-length (x ∷ xs) ys = ap (◌∷◌ x) (take-length xs ys)

drop-length : {A : Type 0} (xs ys : List A) → drop (length xs) (xs ++ ys) ≡ ys
drop-length [] ys = refl
drop-length (x ∷ xs) ys = drop-length xs ys

-- The bytes of one frame.
abbrev pub frame_of : Bytes → Bytes
frame_of payload = put_uint32 (length payload) ++ payload

module _ {A : Type 0} (c : Codec A) where
  pub write_frame-frame_of :
      (a : A) (payload : Bytes)
      → c.marshal a ≡ ok payload
      → length payload < 2 ^ 32
      → write_frame c a ≡ ok (frame_of payload)
  unfolding write_frame
  write_frame-frame_of a payload e h =
      let small : length payload % 2 ^ 32 ≡ length payload = omega arith in rw (e, small)

  read_payload_lem :
      (a : A) (payload rest : Bytes)
      → c.unmarshal payload ≡ ok a
      → read_payload c (length payload) (payload ++ rest)
        ≡ (if leb (length payload) max_frame then ok (a, rest) else err plain)
  read_payload_lem a payload rest e = elim (Bool-cases (ltb max_frame (length payload))) [
    | inl long ↦ ground (arith, long)
    | inr fits ↦
        let whole : ltb (length (payload ++ rest)) (length payload) ≡ false =
          ground (arith, length-append payload rest) in
        let bounded : leb (length payload) max_frame ≡ true = ground (arith, fits) in
        rw (fits, whole, bounded, take-length payload rest, drop-length payload rest, e)
  ]

  pub read_frame-frame_of :
      (a : A) (payload rest : Bytes)
      → c.unmarshal payload ≡ ok a
      → length payload < 2 ^ 32
      → read_frame c (frame_of payload ++ rest)
        ≡ (if leb (length payload) max_frame then ok (a, rest) else err plain)
  unfolding read_frame
  read_frame-frame_of a payload rest e h =
      ap (λ (n : ℕ). read_payload c n (payload ++ rest)) (uint32_put (length payload) h)
      ∙ read_payload_lem a payload rest e

  -- For a codec that reads back what it writes: a message whose encoding is shorter than 2^32 bytes
  -- is written, and the reader takes exactly its frame off the connection and gets the message
  -- back, if the encoding is within the cap of 16 MiB; above the cap the reader refuses the frame
  -- that was written.
  pub read_frame-write_frame :
      (a : A) (payload rest : Bytes)
      → ReadsBack c
      → c.marshal a ≡ ok payload
      → length payload < 2 ^ 32
      → (write_frame c a ≡ ok (frame_of payload))
        × (read_frame c (frame_of payload ++ rest)
            ≡ (if leb (length payload) max_frame then ok (a, rest) else err plain))
  read_frame-write_frame a payload rest contract e h = (
    write_frame-frame_of a payload e h,
    read_frame-frame_of a payload rest (contract.unmarshal-marshal a payload e) h,
  )
