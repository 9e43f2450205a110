-- ===== src/H264/Receive.antt =====
-- Receiving H.264 packets (jni/baresip/modules/avcodec/h264.c, h264_decode, and
-- jni/baresip/modules/avcodec/avcodec.c, dec_h264 and ffdecode). The video decoder of libavcodec is
-- the parameter `decode_ok`; what it is given is part of the result.
use bare_sip_android.Prelude.{
  ℕ, Bool, true, not, ◌&&◌, ◌||◌, Option, none, some, List, [], ◌∷◌, Bytes, ◌==◌, leb,
  if◌then◌else◌, mbuf_write, enoent, eproto, ebadmsg,
}
use bare_sip_android.H264.Header.{H264Hdr, Fu, h264_hdr_encode, h264_hdr_decode, fu_hdr_decode}
use bare_sip_android.H264.Send.{h264_nal_fu_a, Packet}

pub record VidcodecSt : Type 0 where
  pub got_keyframe : Bool
  pub mb : Bytes

-- the state, the bytes of the packet behind the headers, and the error code
pub record Decoded : Type 0 where
  pub st : VidcodecSt
  pub rest : Bytes
  pub err : ℕ

abbrev pub nal_seq : Bytes
nal_seq = 0 ∷ 0 ∷ 1 ∷ []

module _ (room : ℕ → Bool) where
  -- the start sequence and the header; an error of the first write is dropped
  unfoldable pub write_nal : VidcodecSt → H264Hdr → Bytes → Decoded
  unfolding mbuf_write h264_hdr_encode
  write_nal st hdr rest =
      let (mb', e) = mbuf_write room st.mb nal_seq in
      let (mb'', e') = mbuf_write room mb' (h264_hdr_encode hdr ∷ []) in
      record { st = record st { mb = mb'' }; rest = rest; err = e' }

  -- the branch for a fragmentation unit
  unfoldable pub decode_fu : VidcodecSt → H264Hdr → Bytes → Option (Fu × Bytes) → Decoded
  decode_fu st hdr src none = record { st = st; rest = src; err = enoent }
  decode_fu st hdr src (some (fu, rest)) =
      let hdr' : H264Hdr = record hdr { type = fu.type } in
      if not (fu.s == 0) then write_nal st hdr' rest else record { st = st; rest = rest; err = 0 }

  unfoldable pub decode_hdr : VidcodecSt → Bytes → Option (H264Hdr × Bytes) → Decoded
  unfolding decode_fu fu_hdr_decode
  decode_hdr st src none = record { st = st; rest = src; err = enoent }
  decode_hdr st src (some (hdr, rest)) =
      let key = not st.got_keyframe && (hdr.type == 8 || hdr.type == 7) in
      let st' : VidcodecSt = record st { got_keyframe = if key then true else st.got_keyframe } in
      if not (hdr.f == 0)
      then record { st = st; rest = rest; err = ebadmsg }
      else if leb 1 hdr.type && leb hdr.type 23
      then write_nal st' hdr rest
      else if h264_nal_fu_a == hdr.type
      then decode_fu st hdr rest (fu_hdr_decode rest)
      else record { st = st; rest = rest; err = ebadmsg }

  unfoldable pub h264_decode : VidcodecSt → Bytes → Decoded
  unfolding decode_hdr h264_hdr_decode
  h264_decode st src = decode_hdr st src (h264_hdr_decode src)

-- what one packet leads to: the state, the bytes handed to the video decoder, the error code
pub record Received : Type 0 where
  pub st : VidcodecSt
  pub picture : Option Bytes
  pub err : ℕ

module _ (room : ℕ → Bool) (decode_ok : Bytes → Bool) where
  unfoldable pub ffdecode : VidcodecSt → Bool → Bytes → Received
  unfolding mbuf_write
  ffdecode st eof src =
      let (mb', e) = mbuf_write room st.mb src in
      let st' : VidcodecSt = record st { mb = mb' } in
      let rewound : VidcodecSt = record st { mb = [] } in
      if not (e == 0)
      then record { st = st'; picture = none; err = e }
      else if not eof
      then record { st = st'; picture = none; err = 0 }
      else if not st.got_keyframe
      then record { st = rewound; picture = none; err = eproto }
      else record { st = rewound; picture = some mb'; err = if decode_ok mb' then 0 else ebadmsg }

  -- `none` stands for the NULL that reports a lost packet
  unfoldable pub dec_h264 : VidcodecSt → Bool → Option Bytes → Received
  dec_h264 st eof none = record { st = st; picture = none; err = 0 }
  dec_h264 st eof (some src) =
      let d = h264_decode room st src in
      if not (d.err == 0)
      then record { st = d.st; picture = none; err = d.err }
      else ffdecode d.st eof d.rest

  abbrev pub add_picture : Option Bytes → List Bytes → List Bytes
  add_picture none ps = ps
  add_picture (some p) ps = p ∷ ps

  -- the packets of a stream in order: the last state and all that the decoder was given
  unfoldable pub receive_all : VidcodecSt → List Packet → VidcodecSt × List Bytes
  receive_all st [] = (st, [])
  receive_all st (p ∷ ps) =
      let r = dec_h264 st p.eof (some p.payload) in
      let (st', later) = receive_all r.st ps in (st', add_picture r.picture later)
