-- ===== src/Protocol/Frame/Accept.antt =====
-- What the decoder accepts: nothing but encoded frames.
use core_desk.Base.{
  ℕ, ◌+◌, ◌^◌, ◌%◌, ◌≤◌, ◌<◌, ◌≡◌, refl, sym, ap, ◌∙◌, true, [], ◌∷◌, ◌++◌, length, All, take, drop,
  arith, take-append-drop, drop-add, length-take, length-drop,
}
use core_desk.Common.{success, Text}
use core_desk.Protocol.MessageTypes.{is_known_message_type, message_type_from_wire}
use core_desk.Protocol.Frame.{
  Frame, frame_header_size, max_payload_size, read_u16, read_u32, read_u64, has_magic, byte_at,
  encode_bytes, encode, emit, body_round, round,
}
use core_desk.Protocol.Frame.Layout.{header_of, encode_bytes_lem}
use core_desk.Protocol.Frame.Decode.{Fits, Sendable, encode-Sendable}

abbrev pub IsByte : ℕ → Type 0
IsByte x = x < 256

-- What a buffer holds from which a round takes a frame of type `t`.
record Good (b : Text) (t : ℕ) : Type 0 where
  long : frame_header_size ≤ length b
  magic : has_magic b ≡ true
  version : read_u16 b 4 ≡ 1
  type : read_u16 b 6 ≡ t
  known : is_known_message_type t ≡ true

round-eq-emit :
    (b : Text) (f : Frame) (r : Text)
    → round b ≡ emit f r
    → Good b (read_u16 b 6) × (body_round (read_u16 b 6) b ≡ emit f r)
unfolding round message_type_from_wire
round-eq-emit b f r h = ground arith

record Body (b : Text) (t : ℕ) (f : Frame) (r : Text) : Type 0 where
  small : read_u32 b 20 ≤ max_payload_size
  enough : frame_header_size + read_u32 b 20 ≤ length b
  type : f.type ≡ t
  flags : f.flags ≡ read_u32 b 8
  id : f.request_id ≡ read_u64 b 12
  payload : f.payload ≡ take (read_u32 b 20) (drop frame_header_size b)
  rest : r ≡ drop (frame_header_size + read_u32 b 20) b

body_round-eq-emit :
    (t : ℕ) (b : Text) (f : Frame) (r : Text) → body_round t b ≡ emit f r → Body b t f r
unfolding body_round
body_round-eq-emit t b f r h = ground arith

-- A buffer of at least 24 bytes starts with 24 bytes.
split_header :
    (P : Text → Type 0)
    → ((b0 b1 b2 b3 b4 b5 b6 b7 b8 b9 b10 b11 b12 b13 b14 b15 b16 b17 b18 b19 b20 b21 b22 b23 : ℕ)
          (t : Text)
        → All IsByte (
            b0 ∷ b1 ∷ b2 ∷ b3 ∷ b4 ∷ b5 ∷ b6 ∷ b7 ∷ b8 ∷ b9 ∷ b10 ∷ b11 ∷ b12 ∷ b13 ∷ b14 ∷ b15
            ∷ b16 ∷ b17 ∷ b18 ∷ b19 ∷ b20 ∷ b21 ∷ b22 ∷ b23 ∷ t)
        → P (
            b0 ∷ b1 ∷ b2 ∷ b3 ∷ b4 ∷ b5 ∷ b6 ∷ b7 ∷ b8 ∷ b9 ∷ b10 ∷ b11 ∷ b12 ∷ b13 ∷ b14 ∷ b15
            ∷ b16 ∷ b17 ∷ b18 ∷ b19 ∷ b20 ∷ b21 ∷ b22 ∷ b23 ∷ t))
    → (b : Text) → frame_header_size ≤ length b
    → All IsByte b
    → P b
split_header P k
      (b0 ∷ b1 ∷ b2 ∷ b3 ∷ b4 ∷ b5 ∷ b6 ∷ b7 ∷ b8 ∷ b9 ∷ b10 ∷ b11 ∷ b12 ∷ b13 ∷ b14 ∷ b15 ∷ b16
        ∷ b17 ∷ b18 ∷ b19 ∷ b20 ∷ b21 ∷ b22 ∷ b23 ∷ t)
      h a =
    k b0 b1 b2 b3 b4 b5 b6 b7 b8 b9 b10 b11 b12 b13 b14 b15 b16 b17 b18 b19 b20 b21 b22 b23 t a
split_header P k _ h a = absurd (omega arith)

u16_bytes :
    (x y v : ℕ)
    → All IsByte (x ∷ y ∷ [])
    → v ≡ read_u16 (x ∷ y ∷ []) 0
    → (byte_at v 8 ≡ x) × (byte_at v 0 ≡ y)
unfolding read_u16
u16_bytes x y v a e = omega arith

u32_bytes :
    (x0 x1 x2 x3 v : ℕ)
    → All IsByte (x0 ∷ x1 ∷ x2 ∷ x3 ∷ [])
    → v ≡ read_u32 (x0 ∷ x1 ∷ x2 ∷ x3 ∷ []) 0
    → (byte_at v 24 ≡ x0)
      × (byte_at v 16 ≡ x1)
      × (byte_at v 8 ≡ x2)
      × (byte_at v 0 ≡ x3)
      × (v < 2 ^ 32)
unfolding read_u32
u32_bytes x0 x1 x2 x3 v a e = omega arith

u64_bytes :
    (x0 x1 x2 x3 x4 x5 x6 x7 v : ℕ)
    → All IsByte (x0 ∷ x1 ∷ x2 ∷ x3 ∷ x4 ∷ x5 ∷ x6 ∷ x7 ∷ [])
    → v ≡ read_u64 (x0 ∷ x1 ∷ x2 ∷ x3 ∷ x4 ∷ x5 ∷ x6 ∷ x7 ∷ []) 0
    → (byte_at v 56 ≡ x0)
      × (byte_at v 48 ≡ x1)
      × (byte_at v 40 ≡ x2)
      × (byte_at v 32 ≡ x3)
      × (byte_at v 24 ≡ x4)
      × (byte_at v 16 ≡ x5)
      × (byte_at v 8 ≡ x6)
      × (byte_at v 0 ≡ x7)
      × (v < 2 ^ 64)
unfolding read_u64
u64_bytes x0 x1 x2 x3 x4 x5 x6 x7 v a e = omega arith

-- The header that `f` is written with, from the bytes that it was read from.
header_bytes :
    (b0 b1 b2 b3 b4 b5 b6 b7 b8 b9 b10 b11 b12 b13 b14 b15 b16 b17 b18 b19 b20 b21 b22 b23 : ℕ)
    (t : Text) (f : Frame) (r : Text)
    → All IsByte (
        b0 ∷ b1 ∷ b2 ∷ b3 ∷ b4 ∷ b5 ∷ b6 ∷ b7 ∷ b8 ∷ b9 ∷ b10 ∷ b11 ∷ b12 ∷ b13 ∷ b14 ∷ b15 ∷ b16
        ∷ b17 ∷ b18 ∷ b19 ∷ b20 ∷ b21 ∷ b22 ∷ b23 ∷ t)
    → Good
        (b0 ∷ b1 ∷ b2 ∷ b3 ∷ b4 ∷ b5 ∷ b6 ∷ b7 ∷ b8 ∷ b9 ∷ b10 ∷ b11 ∷ b12 ∷ b13 ∷ b14 ∷ b15 ∷ b16
          ∷ b17 ∷ b18 ∷ b19 ∷ b20 ∷ b21 ∷ b22 ∷ b23 ∷ t)
        (read_u16
          (b0 ∷ b1 ∷ b2 ∷ b3 ∷ b4 ∷ b5 ∷ b6 ∷ b7 ∷ b8 ∷ b9 ∷ b10 ∷ b11 ∷ b12 ∷ b13 ∷ b14 ∷ b15 ∷ b16
            ∷ b17 ∷ b18 ∷ b19 ∷ b20 ∷ b21 ∷ b22 ∷ b23 ∷ t)
          6)
    → Body
        (b0 ∷ b1 ∷ b2 ∷ b3 ∷ b4 ∷ b5 ∷ b6 ∷ b7 ∷ b8 ∷ b9 ∷ b10 ∷ b11 ∷ b12 ∷ b13 ∷ b14 ∷ b15 ∷ b16
          ∷ b17 ∷ b18 ∷ b19 ∷ b20 ∷ b21 ∷ b22 ∷ b23 ∷ t)
        (read_u16
          (b0 ∷ b1 ∷ b2 ∷ b3 ∷ b4 ∷ b5 ∷ b6 ∷ b7 ∷ b8 ∷ b9 ∷ b10 ∷ b11 ∷ b12 ∷ b13 ∷ b14 ∷ b15 ∷ b16
            ∷ b17 ∷ b18 ∷ b19 ∷ b20 ∷ b21 ∷ b22 ∷ b23 ∷ t)
          6)
        f
        r
    → (header_of f.type f.flags f.request_id (
          read_u32
            (b0 ∷ b1 ∷ b2 ∷ b3 ∷ b4 ∷ b5 ∷ b6 ∷ b7 ∷ b8 ∷ b9 ∷ b10 ∷ b11 ∷ b12 ∷ b13 ∷ b14 ∷ b15
              ∷ b16 ∷ b17 ∷ b18 ∷ b19 ∷ b20 ∷ b21 ∷ b22 ∷ b23 ∷ t)
            20)
        ≡ b0 ∷ b1 ∷ b2 ∷ b3 ∷ b4 ∷ b5 ∷ b6 ∷ b7 ∷ b8 ∷ b9 ∷ b10 ∷ b11 ∷ b12 ∷ b13 ∷ b14 ∷ b15 ∷ b16
          ∷ b17 ∷ b18 ∷ b19 ∷ b20 ∷ b21 ∷ b22 ∷ b23 ∷ [])
      × Fits f
unfolding has_magic read_u16 read_u32 read_u64
header_bytes b0 b1 b2 b3 b4 b5 b6 b7 b8 b9 b10 b11 b12 b13 b14 b15 b16 b17 b18 b19 b20 b21 b22 b23 t
      f r a g d =
    let m : (b0 ≡ b'C') × (b1 ≡ b'D') × (b2 ≡ b'S') × (b3 ≡ b'K') =
      let h = g.magic in ground arith in
    let v : (b4 ≡ 0) × (b5 ≡ 1) = omega arith in
    let ty = u16_bytes b6 b7 f.type (omega arith) d.type in
    let fl = u32_bytes b8 b9 b10 b11 f.flags (omega arith) d.flags in
    let id = u64_bytes b12 b13 b14 b15 b16 b17 b18 b19 f.request_id (omega arith) d.id in
    let n = u32_bytes b20 b21 b22 b23 _ (omega arith) refl in
    (
      cc (
        m.0, m.1, m.2, m.3, v.0, v.1, ty.0, ty.1, fl.0, fl.1, fl.2, fl.3, id.0, id.1, id.2, id.3,
        id.4, id.5, id.6, id.7, n.0, n.1, n.2, n.3,
      ),
      record { flags = fl.4; request_id = id.8 },
    )

abbrev Accepted : Frame → Text → Text → Type 0
Accepted f r b = Fits f × Sendable f × (b ≡ encode_bytes f ++ r)

payload_length :
    (b : Text) (t : ℕ) (f : Frame) (r : Text) → Body b t f r → length f.payload ≡ read_u32 b 20
payload_length b t f r d = omega (
  arith,
  ap length d.payload,
  length-take (read_u32 b 20) (drop frame_header_size b),
  length-drop frame_header_size b,
  d.enough,
)

payload_rest :
    (b : Text) (t : ℕ) (f : Frame) (r : Text)
    → Body b t f r
    → f.payload ++ r ≡ drop frame_header_size b
payload_rest b t f r d =
    rw (d.payload, d.rest, drop-add frame_header_size (read_u32 b 20) b)
      (take-append-drop (read_u32 b 20) (drop frame_header_size b))

accepted :
    (f : Frame) (r : Text)
    (b0 b1 b2 b3 b4 b5 b6 b7 b8 b9 b10 b11 b12 b13 b14 b15 b16 b17 b18 b19 b20 b21 b22 b23 : ℕ)
    (t : Text)
    → All IsByte (
        b0 ∷ b1 ∷ b2 ∷ b3 ∷ b4 ∷ b5 ∷ b6 ∷ b7 ∷ b8 ∷ b9 ∷ b10 ∷ b11 ∷ b12 ∷ b13 ∷ b14 ∷ b15 ∷ b16
        ∷ b17 ∷ b18 ∷ b19 ∷ b20 ∷ b21 ∷ b22 ∷ b23 ∷ t)
    → Good
        (b0 ∷ b1 ∷ b2 ∷ b3 ∷ b4 ∷ b5 ∷ b6 ∷ b7 ∷ b8 ∷ b9 ∷ b10 ∷ b11 ∷ b12 ∷ b13 ∷ b14 ∷ b15 ∷ b16
          ∷ b17 ∷ b18 ∷ b19 ∷ b20 ∷ b21 ∷ b22 ∷ b23 ∷ t)
        (read_u16
          (b0 ∷ b1 ∷ b2 ∷ b3 ∷ b4 ∷ b5 ∷ b6 ∷ b7 ∷ b8 ∷ b9 ∷ b10 ∷ b11 ∷ b12 ∷ b13 ∷ b14 ∷ b15 ∷ b16
            ∷ b17 ∷ b18 ∷ b19 ∷ b20 ∷ b21 ∷ b22 ∷ b23 ∷ t)
          6)
    → Body
        (b0 ∷ b1 ∷ b2 ∷ b3 ∷ b4 ∷ b5 ∷ b6 ∷ b7 ∷ b8 ∷ b9 ∷ b10 ∷ b11 ∷ b12 ∷ b13 ∷ b14 ∷ b15 ∷ b16
          ∷ b17 ∷ b18 ∷ b19 ∷ b20 ∷ b21 ∷ b22 ∷ b23 ∷ t)
        (read_u16
          (b0 ∷ b1 ∷ b2 ∷ b3 ∷ b4 ∷ b5 ∷ b6 ∷ b7 ∷ b8 ∷ b9 ∷ b10 ∷ b11 ∷ b12 ∷ b13 ∷ b14 ∷ b15 ∷ b16
            ∷ b17 ∷ b18 ∷ b19 ∷ b20 ∷ b21 ∷ b22 ∷ b23 ∷ t)
          6)
        f
        r
    → Accepted f r (
        b0 ∷ b1 ∷ b2 ∷ b3 ∷ b4 ∷ b5 ∷ b6 ∷ b7 ∷ b8 ∷ b9 ∷ b10 ∷ b11 ∷ b12 ∷ b13 ∷ b14 ∷ b15 ∷ b16
        ∷ b17 ∷ b18 ∷ b19 ∷ b20 ∷ b21 ∷ b22 ∷ b23 ∷ t)
accepted f r b0 b1 b2 b3 b4 b5 b6 b7 b8 b9 b10 b11 b12 b13 b14 b15 b16 b17 b18 b19 b20 b21 b22 b23 t
      a g d =
    let b =
      b0 ∷ b1 ∷ b2 ∷ b3 ∷ b4 ∷ b5 ∷ b6 ∷ b7 ∷ b8 ∷ b9 ∷ b10 ∷ b11 ∷ b12 ∷ b13 ∷ b14 ∷ b15 ∷ b16
      ∷ b17 ∷ b18 ∷ b19 ∷ b20 ∷ b21 ∷ b22 ∷ b23 ∷ t in
    let n = payload_length b (read_u16 b 6) f r d in
    let (h, fits) =
      header_bytes b0 b1 b2 b3 b4 b5 b6 b7 b8 b9 b10 b11 b12 b13 b14 b15 b16 b17 b18 b19 b20 b21 b22
        b23 t f r a g d in
    let e : length f.payload % 2 ^ 32 ≡ read_u32 b 20 = omega (arith, d.small) in
    (
      fits,
      record { known = rw d.type g.known; small = omega (arith, d.small) },
      sym (
          ap (λ x. x ++ r) (encode_bytes_lem f)
          ∙ ap (λ m. (header_of f.type f.flags f.request_id m ++ f.payload) ++ r) e
          ∙ ap (λ (x : Text). (x ++ f.payload) ++ r) h
          ∙ ap
              (λ (x : Text).
                b0 ∷ b1 ∷ b2 ∷ b3 ∷ b4 ∷ b5 ∷ b6 ∷ b7 ∷ b8 ∷ b9 ∷ b10 ∷ b11 ∷ b12 ∷ b13 ∷ b14 ∷ b15
                ∷ b16 ∷ b17 ∷ b18 ∷ b19 ∷ b20 ∷ b21 ∷ b22 ∷ b23 ∷ x)
              (payload_rest b (read_u16 b 6) f r d)),
    )

-- The decoder accepts nothing but encodings: where a round takes a frame off a buffer of bytes,
-- `encode` accepts that frame, its numbers fit their words, and the buffer is exactly the
-- encoding of the frame followed by what is left.
pub round_sound :
    (b : Text) (f : Frame) (r : Text)
    → All IsByte b
    → round b ≡ emit f r
    → Fits f × (encode f ≡ success (encode_bytes f)) × (b ≡ encode_bytes f ++ r)
round_sound b f r a h =
    let (g, e) = round-eq-emit b f r h in
    let (fits, s, eq) =
      split_header (λ x. Good x (read_u16 x 6) → Body x (read_u16 x 6) f r → Accepted f r x)
        (accepted f r) b g.long a g (body_round-eq-emit (read_u16 b 6) b f r e) in
    (fits, encode-Sendable f s, eq)
