-- ===== src/Tests/Packets.antt =====
-- Examples for the codecs (jni/baresip/modules/avcodec, jni/baresip/modules/vpx,
-- jni/baresip/modules/l16).
use bare_sip_android.Prelude.{
  ℕ, suc, ◌≡◌, refl, Bool, true, false, none, some, [], ◌∷◌, ◌++◌, arith, Bytes,
}
use bare_sip_android.H264.Header.{H264Hdr, Fu, fu_hdr_encode, fu_hdr_decode}
use bare_sip_android.H264.Laws.{fu_hdr_decode-encode}
use bare_sip_android.H264.Send.{h264_nal_send}
use bare_sip_android.H264.Receive.{VidcodecSt}
use bare_sip_android.H264.Reassembly as Nal
use bare_sip_android.H264.Delivery.{h264_nal_send-receive}
use bare_sip_android.H264.Bounds.{SendsFramed, h264_nal_send-Framed}
use bare_sip_android.Vpx.PictureId.{picid_enc}
use bare_sip_android.Vpx.Descriptor.{vp8desc_enc, vp8desc_dec, vp8desc_dec-enc, fi_first}
use bare_sip_android.Vpx.Packets.{vpx_packetize}
use bare_sip_android.Vpx.Delivery as Frame
use bare_sip_android.Vpx.Delivery.{vpx_packetize-receive}
use bare_sip_android.L16.{encode, decode, decode-encode, decode_odd}

abbrev always : ℕ → Bool
always n = true

abbrev takes_all : Bytes → Bool
takes_all b = true

abbrev no_error : Bool → Bytes → ℕ
no_error eof b = 0

abbrev key_seen : VidcodecSt
key_seen = record { got_keyframe = true; mb = [] }

abbrev slice : Bytes
slice = 1 ∷ 2 ∷ 3 ∷ 4 ∷ 5 ∷ []

-- an IDR slice in packets of at most four bytes
h264_nal_send-receive_example :
    Nal.Delivers always takes_all
      (h264_nal_send always no_error true true true 0x65 slice 4)
      key_seen
      (Nal.outcome key_seen true (0 ∷ 0 ∷ 1 ∷ 0x65 ∷ slice))
h264_nal_send-receive_example =
    h264_nal_send-receive always takes_all no_error true 0x65 slice 4 key_seen (λ n. refl)
      (λ eof b. refl) (omega arith) (omega arith) (omega arith) (omega arith) (omega arith) refl

h264_nal_send-Framed_example :
    SendsFramed true 4 (h264_nal_send always no_error true true true 0x65 slice 4)
h264_nal_send-Framed_example =
    h264_nal_send-Framed always no_error true true true 0x65 slice 4 (λ n. refl) (omega arith)
      (omega arith)

abbrev idr : H264Hdr
idr = record { f = 0; nri = 3; type = 5 }

abbrev last_fragment : Fu
last_fragment = record { s = 0; e = 1; r = 0; type = 5 }

-- the end bit is lost
fu_hdr_decode-encode_example :
    fu_hdr_decode (fu_hdr_encode last_fragment ∷ slice)
    ≡ some (record last_fragment { e = 0 }, slice)
fu_hdr_decode-encode_example = fu_hdr_decode-encode last_fragment slice (omega arith)

picid_300 : picid_enc 300 ≡ some (0x82 ∷ 0x2c ∷ [])
unfolding picid_enc
picid_300 = refl

vp8desc_dec-enc_example :
    (bs : Bytes) × (vp8desc_enc always [] true false fi_first true 300 ≡ some ([] ++ bs, 0))
    × (vp8desc_dec 7 (bs ++ slice)
        ≡ some (record { i = 1; n = 0; fi = 1; b = 1; picid = 300 }, slice))
vp8desc_dec-enc_example =
    vp8desc_dec-enc always [] slice false true fi_first 300 7 (λ k. refl) (omega arith)
      (omega arith)

vpx_packetize-receive_example :
    Frame.Delivers always takes_all
      (vpx_packetize always true 300 slice true)
      []
      (Frame.outcome [] slice)
vpx_packetize-receive_example =
    vpx_packetize-receive always takes_all true 300 slice [] (λ n. refl) (omega arith)

abbrev samples : Bytes
samples = 0x12 ∷ 0x34 ∷ 0x56 ∷ 0x78 ∷ []

decode-encode_example : decode (suc 2) [] (encode [] samples) ≡ some samples
decode-encode_example = decode-encode 2 samples (omega arith) (omega arith)

decode_odd_example : decode 1000 [] slice ≡ none
decode_odd_example = decode_odd 1000 2 [] slice (omega arith)
