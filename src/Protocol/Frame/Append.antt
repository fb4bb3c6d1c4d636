-- ===== src/Protocol/Frame/Append.antt =====
-- A round looks at a prefix of the buffer only: more bytes behind it change nothing.
use core_desk.Base.{
  ℕ, ◌+◌, ◌≤◌, ◌<◌, ltb, le→ltb, ltb→le, ◌≡◌, inl, inr, Bool-cases, ◌++◌, length, drop, arith,
  length-append, take-append, drop-append, get_or-append, length-drop,
}
use core_desk.Common.{Error, Text}
use core_desk.Protocol.MessageTypes.{message_type_from_wire}
use core_desk.Protocol.Frame.{
  Frame, frame_header_size, max_payload_size, read_u16, read_u32, read_u64, has_magic, stop, fail,
  emit, body_round, header_round, round,
}

module _ (b y : Text) (long : frame_header_size ≤ length b) where
  read_u16-append : (i : ℕ) → i ≤ 6 → read_u16 (b ++ y) i ≡ read_u16 b i
  unfolding read_u16
  read_u16-append i h =
      rw (get_or-append i b y 0 (omega arith), get_or-append (i + 1) b y 0 (omega arith))

  read_u32-append : (i : ℕ) → i ≤ 20 → read_u32 (b ++ y) i ≡ read_u32 b i
  unfolding read_u32
  read_u32-append i h = rw (
    get_or-append i b y 0 (omega arith),
    get_or-append (i + 1) b y 0 (omega arith),
    get_or-append (i + 2) b y 0 (omega arith),
    get_or-append (i + 3) b y 0 (omega arith),
  )

  read_u64-append : read_u64 (b ++ y) 12 ≡ read_u64 b 12
  unfolding read_u64
  read_u64-append = rw (
    get_or-append 12 b y 0 (omega arith),
    get_or-append 13 b y 0 (omega arith),
    get_or-append 14 b y 0 (omega arith),
    get_or-append 15 b y 0 (omega arith),
    get_or-append 16 b y 0 (omega arith),
    get_or-append 17 b y 0 (omega arith),
    get_or-append 18 b y 0 (omega arith),
    get_or-append 19 b y 0 (omega arith),
  )

  has_magic-append : has_magic (b ++ y) ≡ has_magic b
  unfolding has_magic
  has_magic-append = rw (
    get_or-append 0 b y 0 (omega arith),
    get_or-append 1 b y 0 (omega arith),
    get_or-append 2 b y 0 (omega arith),
    get_or-append 3 b y 0 (omega arith),
  )

  body_round-append_fail :
      (t : ℕ) (e : Error) → body_round t b ≡ fail e → body_round t (b ++ y) ≡ fail e
  unfolding body_round
  body_round-append_fail t e h = rw (read_u32-append 20 (omega arith)) (ground arith)

  body_round-append_emit :
      (t : ℕ) (f : Frame) (r : Text)
      → body_round t b ≡ emit f r
      → body_round t (b ++ y) ≡ emit f (r ++ y)
  unfolding body_round
  body_round-append_emit t f r h =
      let n = read_u32 b 20 in
      let enough : frame_header_size + n ≤ length b = ground arith in
      rw
        (
          read_u32-append 20 (omega arith),
          read_u32-append 8 (omega arith),
          read_u64-append,
          drop-append frame_header_size b y long,
          take-append n (drop frame_header_size b) y (omega (arith, length-drop 24 b)),
          drop-append (frame_header_size + n) b y enough,
        )
        (ground (arith, length-append b y))

  header_round-append_fail : (e : Error) → header_round b ≡ fail e → header_round (b ++ y) ≡ fail e
  unfolding header_round message_type_from_wire
  header_round-append_fail e h =
      rw (has_magic-append, read_u16-append 4 (omega arith), read_u16-append 6 (omega arith))
        (ground (arith, body_round-append_fail (read_u16 b 6) e))

  header_round-append_emit :
      (f : Frame) (r : Text) → header_round b ≡ emit f r → header_round (b ++ y) ≡ emit f (r ++ y)
  unfolding header_round message_type_from_wire
  header_round-append_emit f r h =
      rw (has_magic-append, read_u16-append 4 (omega arith), read_u16-append 6 (omega arith))
        (ground (arith, body_round-append_emit (read_u16 b 6) f r))

module _ (b y : Text) where
  pub round-append_fail : (e : Error) → round b ≡ fail e → round (b ++ y) ≡ fail e
  unfolding round
  round-append_fail e h = elim (Bool-cases (ltb (length b) frame_header_size)) [
    | inl short ↦ ground arith
    | inr long ↦
        let l = ltb→le (length b) frame_header_size long in
        rw (le→ltb (length (b ++ y)) frame_header_size (omega (arith, length-append b y)))
          (header_round-append_fail b y l e (ground arith))
  ]

  pub round-append_emit :
      (f : Frame) (r : Text) → round b ≡ emit f r → round (b ++ y) ≡ emit f (r ++ y)
  unfolding round
  round-append_emit f r h = elim (Bool-cases (ltb (length b) frame_header_size)) [
    | inl short ↦ ground arith
    | inr long ↦
        let l = ltb→le (length b) frame_header_size long in
        rw (le→ltb (length (b ++ y)) frame_header_size (omega (arith, length-append b y)))
          (header_round-append_emit b y l f r (ground arith))
  ]

-- A frame takes at least its header off the buffer.
pub round-emit-lt :
    (b : Text) (f : Frame) (r : Text) → round b ≡ emit f r → length r + frame_header_size ≤ length b
unfolding round header_round body_round message_type_from_wire
round-emit-lt b f r h = ground (arith, length-drop (frame_header_size + read_u32 b 20) b)

-- Where the loop stops, the buffer is shorter than the longest frame.
pub round-stop-lt : (b : Text) → round b ≡ stop → length b < frame_header_size + max_payload_size
unfolding round header_round body_round message_type_from_wire
round-stop-lt b h = ground arith
