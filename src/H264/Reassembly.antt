-- ===== src/H264/Reassembly.antt =====
-- What the receiver makes of the packets of the sender, for a buffer that never lacks memory and a
-- send handler that never fails (jni/baresip/modules/avcodec/h264.c).
use bare_sip_android.Prelude.{
  ℕ, ◌+◌, ◌/◌, ◌%◌, ◌≤◌, ◌≡◌, ap, Bool, true, false, Option, none, some, List, [], ◌∷◌, ◌++◌,
  append_assoc, arith, Bytes, length, take, drop, take-append-drop, mbuf_write_room,
}
use bare_sip_android.H264.Header.{H264Hdr, h264_hdr_encode, fu_hdr_fields}
use bare_sip_android.H264.Send.{Packet, Sent}
use bare_sip_android.H264.Receive.{
  VidcodecSt, nal_seq, write_nal, h264_decode, ffdecode, dec_h264, receive_all,
}
use bare_sip_android.H264.Bits.{indicator, Bits}

-- What the decoder is given of `nal`, by a stream that ends with the marker flag `marker`.
abbrev pub outcome : VidcodecSt → Bool → Bytes → VidcodecSt × List Bytes
outcome st true nal = (record st { mb = [] }, (st.mb ++ nal) ∷ [])
outcome st false nal = (record st { mb = st.mb ++ nal }, [])

-- Something was sent with no error, and what the receiver makes of it from `st` on is `out`.
abbrev pub Delivers :
    (ℕ → Bool) → (Bytes → Bool) → Option Sent → VidcodecSt → VidcodecSt × List Bytes → Type 0
Delivers room decode_ok o st out =
    (s : Sent) × (o ≡ some s) × (s.err ≡ 0) × (receive_all room decode_ok st s.packets ≡ out)

pub outcome-start :
    (st : VidcodecSt) (marker : Bool) (hdr : ℕ) (buf : Bytes)
    → outcome (record st { mb = (st.mb ++ nal_seq) ++ hdr ∷ [] }) marker buf
      ≡ outcome st marker (0 ∷ 0 ∷ 1 ∷ hdr ∷ buf)
outcome-start st true hdr buf = simp append_assoc
outcome-start st false hdr buf = simp append_assoc

pub outcome-join :
    (st : VidcodecSt) (marker : Bool) (n : ℕ) (buf : Bytes)
    → outcome (record st { mb = st.mb ++ take n buf }) marker (drop n buf) ≡ outcome st marker buf
outcome-join st true n buf =
    ap (λ x. (record st { mb = [] }, x ∷ []))
      (rw append_assoc (ap (◌++◌ st.mb) (take-append-drop n buf)))
outcome-join st false n buf =
    ap (λ x. (record st { mb = x }, []))
      (rw append_assoc (ap (◌++◌ st.mb) (take-append-drop n buf)))

module _ (room : ℕ → Bool) (decode_ok : Bytes → Bool) (memory : (n : ℕ) → room n ≡ true) where
  dec_h264-ok :
      (st st' : VidcodecSt) (eof : Bool) (src rest : Bytes)
      → h264_decode room st src ≡ record { st = st'; rest = rest; err = 0 }
      → dec_h264 room decode_ok st eof (some src) ≡ ffdecode room decode_ok st' eof rest
  unfolding dec_h264
  dec_h264-ok st st' eof src rest e = rw e

  write_nal_lem :
      (st : VidcodecSt) (hdr : H264Hdr) (rest : Bytes)
      → write_nal room st hdr rest ≡ record {
        st = record st { mb = (st.mb ++ nal_seq) ++ h264_hdr_encode hdr ∷ [] };
        rest = rest;
        err = 0;
      }
  unfolding write_nal
  write_nal_lem st hdr rest =
      rw (mbuf_write_room room st.mb nal_seq memory)
        (rw (mbuf_write_room room (st.mb ++ nal_seq) (h264_hdr_encode hdr ∷ []) memory))

  -- a fragment that is not the first is passed on as it is
  pub h264_decode-continue :
      (st : VidcodecSt) (hdr fh : ℕ) (payload : Bytes)
      → Bits hdr
      → (fu_hdr_fields fh).s ≡ 0
      → h264_decode room st (indicator hdr ∷ fh ∷ payload)
        ≡ record { st = st; rest = payload; err = 0 }
  unfolding h264_decode
  h264_decode-continue st hdr fh payload b e = ground (arith, b.ind)

  -- the first fragment writes the start sequence and the NAL header
  pub h264_decode-start :
      (st : VidcodecSt) (hdr fh : ℕ) (payload : Bytes)
      → Bits hdr
      → (fu_hdr_fields fh).s ≡ 1
      → (fu_hdr_fields fh).type ≡ hdr % 32
      → h264_decode room st (indicator hdr ∷ fh ∷ payload)
        ≡ record { st = record st { mb = (st.mb ++ nal_seq) ++ hdr ∷ [] }; rest = payload; err = 0 }
  unfolding h264_decode
  h264_decode-start st hdr fh payload b e t = ground (
    arith,
    b.ind,
    b.back,
    write_nal_lem st (record { f = 0; nri = hdr / 32; type = hdr % 32 }) payload,
  )

  -- a NAL unit that came in one packet
  pub h264_decode-single :
      (st : VidcodecSt) (hdr : ℕ) (payload : Bytes)
      → Bits hdr
      → 1 ≤ hdr % 32
      → hdr % 32 ≤ 23
      → st.got_keyframe ≡ true
      → h264_decode room st (hdr ∷ payload)
        ≡ record { st = record st { mb = (st.mb ++ nal_seq) ++ hdr ∷ [] }; rest = payload; err = 0 }
  unfolding h264_decode
  h264_decode-single st hdr payload b lo hi key = ground (
    arith,
    b.own,
    b.back,
    write_nal_lem st (record { f = 0; nri = hdr / 32; type = hdr % 32 }) payload,
  )

  ffdecode-append :
      (st : VidcodecSt) (payload : Bytes)
      → ffdecode room decode_ok st false payload
        ≡ record { st = record st { mb = st.mb ++ payload }; picture = none; err = 0 }
  unfolding ffdecode
  ffdecode-append st payload = rw (mbuf_write_room room st.mb payload memory)

  ffdecode-eof :
      (st : VidcodecSt) (payload : Bytes)
      → st.got_keyframe ≡ true
      → let r = ffdecode room decode_ok st true payload in
        (r.st ≡ record st { mb = [] }) × (r.picture ≡ some (st.mb ++ payload))
  unfolding ffdecode
  ffdecode-eof st payload key = ground (arith, memory (length st.mb + length payload))

  -- one packet whose payload is left alone by the header decoder
  pub receive_last :
      (st st' : VidcodecSt) (marker : Bool) (src rest : Bytes)
      → st'.got_keyframe ≡ true
      → h264_decode room st src ≡ record { st = st'; rest = rest; err = 0 }
      → receive_all room decode_ok st (record { eof = marker; payload = src } ∷ [])
        ≡ outcome st' marker rest
  unfolding receive_all
  receive_last st st' true src rest key e =
      ground (arith, dec_h264-ok st st' true src rest e, ffdecode-eof st' rest key)
  receive_last st st' false src rest key e =
      ground (arith, dec_h264-ok st st' false src rest e, ffdecode-append st' rest)

  pub receive_more :
      (st st' : VidcodecSt) (src rest : Bytes) (ps : List Packet)
      → h264_decode room st src ≡ record { st = st'; rest = rest; err = 0 }
      → receive_all room decode_ok st (record { eof = false; payload = src } ∷ ps)
        ≡ receive_all room decode_ok (record st' { mb = st'.mb ++ rest }) ps
  unfolding receive_all
  receive_more st st' src rest ps e =
      ground (arith, dec_h264-ok st st' false src rest e, ffdecode-append st' rest)
