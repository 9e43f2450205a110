-- ===== src/Vpx/Delivery.antt =====
-- What the receiver of VP8 makes of the packets of a frame (jni/baresip/modules/vpx/vpx.c).
use Prim.Native.Nat.{min}
use bare_sip_android.Prelude.{
  ℕ, zero, suc, ◌%◌, ◌^◌, ◌<◌, ◌≤◌, ◌≡◌, refl, sym, ap, ◌∙◌, Bool, true, false, not, Option, some,
  List, [], ◌∷◌, ◌++◌, inl, inr, Bool-cases, append-nil, append_assoc, arith, ltb, ltb→le, ◌==◌,
  if◌then◌else◌, Bytes, length, take, drop, take-length, drop-length, take-append-drop, length-drop,
  mbuf_write_room,
}
use bare_sip_android.Vpx.Descriptor.{Vp8Desc, vp8desc_enc, vp8desc_dec, vp8desc_dec-enc}
use bare_sip_android.Vpx.Packets.{
  Packet, Sent, fragment, prepend, max_rtp_size, vpx_loop, vpx_packetize, assemble, dec,
  receive_all,
}

-- What the decoder is given of a frame, from the receiver's buffer `mb` on: the last packet has the
-- marker flag if it is not full.
abbrev pub outcome : Bytes → Bytes → Bytes × List Bytes
outcome mb buf = if length buf % max_rtp_size == 0 then (mb ++ buf, []) else ([], (mb ++ buf) ∷ [])

abbrev pub Delivers :
    (ℕ → Bool) → (Bytes → Bool) → Option Sent → Bytes → Bytes × List Bytes → Type 0
Delivers room decode_ok o mb out =
    (s : Sent) × (o ≡ some s) × (s.err ≡ 0) × (receive_all room decode_ok mb s.packets ≡ out)

no_desc : (rest : Bytes) (desc : Vp8Desc) → vp8desc_dec 0 [] ≡ some (desc, rest) → ⊥
unfolding vp8desc_dec
no_desc rest desc e = cc

fragment-lt : (fragmented begin last : Bool) → fragment fragmented begin last < 4
fragment-lt true true last = omega arith
fragment-lt true false true = omega arith
fragment-lt true false false = omega arith
fragment-lt false begin last = omega arith

outcome-join :
    (mb buf : Bytes)
    → max_rtp_size ≤ length buf
    → outcome (mb ++ take max_rtp_size buf) (drop max_rtp_size buf) ≡ outcome mb buf
outcome-join mb buf long =
    let e : (mb ++ take 1024 buf) ++ drop 1024 buf ≡ mb ++ buf =
      rw append_assoc (ap (◌++◌ mb) (take-append-drop 1024 buf)) in
    ground (arith, e, length-drop 1024 buf)

shorter :
    (fuel : ℕ) (buf : Bytes)
    → length buf < suc fuel
    → max_rtp_size ≤ length buf
    → length (drop max_rtp_size buf) < fuel
shorter fuel buf lt long = omega (arith, length-drop max_rtp_size buf)

outcome-last :
    (mb buf : Bytes) (out : Bytes × List Bytes)
    → 0 < length buf
    → length buf < max_rtp_size
    → out ≡ outcome [] (drop (length buf) buf)
    → ◌≡◌ {A = Bytes × List Bytes} (out.0, (mb ++ take (length buf) buf) ∷ out.1) (outcome mb buf)
outcome-last mb buf out some_left short e = ground (arith, drop-length buf, take-length buf)

module _ (room : ℕ → Bool) (decode_ok : Bytes → Bool) (memory : (n : ℕ) → room n ≡ true) where
  dec_lem :
      (mb src rest : Bytes) (eof : Bool) (desc : Vp8Desc)
      → vp8desc_dec 0 src ≡ some (desc, rest)
      → dec room decode_ok mb eof src ≡ assemble room decode_ok mb eof (some (desc, rest))
  unfolding dec
  dec_lem mb [] rest eof desc e = absurd (no_desc rest desc e)
  dec_lem mb (b ∷ src) rest eof desc e = rw e

  receive_more :
      (mb src rest : Bytes) (desc : Vp8Desc) (ps : List Packet)
      → vp8desc_dec 0 src ≡ some (desc, rest)
      → receive_all room decode_ok mb (record { last = false; payload = src } ∷ ps)
        ≡ receive_all room decode_ok (mb ++ rest) ps
  unfolding receive_all
  receive_more mb src rest desc ps e =
      ground (arith, dec_lem mb src rest false desc e, mbuf_write_room room mb rest memory)

  receive_last :
      (mb src rest : Bytes) (desc : Vp8Desc) (ps : List Packet)
      → vp8desc_dec 0 src ≡ some (desc, rest)
      → receive_all room decode_ok mb (record { last = true; payload = src } ∷ ps) ≡ (
        (receive_all room decode_ok [] ps).0,
        (mb ++ rest) ∷ (receive_all room decode_ok [] ps).1,
      )
  unfolding receive_all
  receive_last mb src rest desc ps e =
      ground (arith, dec_lem mb src rest true desc e, mbuf_write_room room mb rest memory)

  module _ (keyframe fragmented : Bool) (picid : ℕ) (fits : picid < 2 ^ 56) where
    vpx_loop-step :
        (fuel n : ℕ) (begin last : Bool) (buf bs : Bytes)
        → 0 < length buf
        → ltb (length buf) max_rtp_size ≡ last
        → min (length buf) max_rtp_size ≡ n
        → vp8desc_enc room [] true (not keyframe) (fragment fragmented begin last) begin picid
          ≡ some (bs, 0)
        → vpx_loop room keyframe picid fragmented (suc fuel) begin buf
          ≡ prepend
              (record { last = last; payload = bs ++ take n buf })
              (vpx_loop room keyframe picid fragmented fuel false (drop n buf))
    unfolding vpx_loop
    vpx_loop-step fuel n begin last buf bs some_left l m e =
        ground (arith, mbuf_write_room room bs (take n buf) memory)

    vpx_loop-Delivers :
        (fuel : ℕ) (begin : Bool) (buf mb : Bytes)
        → length buf < fuel
        → Delivers room decode_ok
            (vpx_loop room keyframe picid fragmented fuel begin buf)
            mb
            (outcome mb buf)
    vpx_loop-Delivers zero begin buf mb lt = elim lt [ ]
    vpx_loop-Delivers (suc fuel) begin [] mb lt = (
      record { packets = []; err = 0 },
      unfold vpx_loop in refl,
      refl,
      unfold receive_all in ap (λ x. (x, [])) (sym (append-nil mb)),
    )
    vpx_loop-Delivers (suc fuel) begin (b ∷ buf) mb lt =
        elim (Bool-cases (ltb (suc (length buf)) 1024)) [
          | inl last ↦
              let n = suc (length buf) in
              let chunk = take n (b ∷ buf) in
              let (bs, e, d) =
                vp8desc_dec-enc room [] chunk (not keyframe) begin (fragment fragmented begin true)
                  picid 0 memory (fragment-lt fragmented begin true) fits in
              let later =
                vpx_loop-Delivers fuel false (drop n (b ∷ buf)) []
                  (ground (arith, drop-length (b ∷ buf))) in
              (
                record later.0 {
                  packets = record { last = true; payload = bs ++ chunk } ∷ later.0.packets;
                },
                vpx_loop-step fuel n begin true (b ∷ buf) bs (omega arith) last (ground arith) e
                    ∙ ap (prepend _) later.1,
                later.2,
                receive_last mb _ chunk _ later.0.packets d
                    ∙ outcome-last mb (b ∷ buf) _ (omega arith) (ground arith) later.3,
              )
          | inr full ↦
              let long : 1024 ≤ length (b ∷ buf) = ltb→le (suc (length buf)) 1024 full in
              let chunk = take 1024 (b ∷ buf) in
              let (bs, e, d) =
                vp8desc_dec-enc room [] chunk (not keyframe) begin (fragment fragmented begin false)
                  picid 0 memory (fragment-lt fragmented begin false) fits in
              let later =
                vpx_loop-Delivers fuel false (drop 1024 (b ∷ buf)) (mb ++ chunk)
                  (shorter fuel (b ∷ buf) lt long) in
              (
                record later.0 {
                  packets = record { last = false; payload = bs ++ chunk } ∷ later.0.packets;
                },
                vpx_loop-step fuel 1024 begin false (b ∷ buf) bs (omega arith) full (ground arith) e
                    ∙ ap (prepend _) later.1,
                later.2,
                receive_more mb _ chunk _ later.0.packets d
                    ∙ later.3
                    ∙ outcome-join mb (b ∷ buf) long,
              )
        ]

-- With memory, and with a picture identifier below 2 ^ 56, a frame is sent with no error. A
-- receiver whose buffer is `mb` hands `mb` and the frame to the decoder at the last packet, and
-- empties the buffer, if the size of the frame is no multiple of 1024 bytes. For any other frame no
-- packet has the marker flag: the decoder is given nothing, and the frame stays in the buffer.
pub vpx_packetize-receive :
    (room : ℕ → Bool) (decode_ok : Bytes → Bool) (keyframe : Bool) (picid : ℕ) (buf mb : Bytes)
    → ((n : ℕ) → room n ≡ true)
    → picid < 2 ^ 56
    → Delivers room decode_ok (vpx_packetize room true picid buf keyframe) mb (outcome mb buf)
unfolding vpx_packetize
vpx_packetize-receive room decode_ok keyframe picid buf mb memory fits =
    vpx_loop-Delivers room decode_ok memory keyframe (ltb max_rtp_size (length buf)) picid fits
      (suc (length buf)) true buf mb (omega arith)
