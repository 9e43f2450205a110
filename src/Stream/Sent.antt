-- ===== src/Stream/Sent.antt =====
-- What a stream sends on hold and after it (jni/baresip/src/stream.c).
use bare_sip_android.Prelude.{
  ℕ, ◌≡◌, refl, subst, Bool, true, false, Option, none, some, [], ◌∷◌, bit_and, ◌==◌, Bytes, arith,
  Bool-cases, inl, inr, ==_iff,
}
use bare_sip_android.Stream.State.{Stream, sdp_sendonly, sdp_sendrecv}
use bare_sip_android.Stream.Send.{
  rtp_send, rtpkeep_refresh, SendEnv, stream_send, stream_update, stream_hold, stream_has_media,
  stream_remote_set,
}

-- no direction within the sending one alone is that of sending and receiving
not_both : (d : ℕ) → bit_and d sdp_sendonly ≡ d → (d == sdp_sendrecv) ≡ false
not_both d h = elim (Bool-cases (d == sdp_sendrecv)) [
  | inl e ↦ absurd (
      let three = (==_iff d sdp_sendrecv).0 e in
      let same = subst (λ x. bit_and x sdp_sendonly ≡ x) three h in omega (arith, same))
  | inr e ↦ e
]

update_ldir : {J : Type 0} (env : SendEnv) (s : Stream J) → (stream_update env s).1.ldir ≡ s.ldir
unfolding stream_update stream_has_media stream_remote_set
update_ldir env s = ground arith

update_pt :
    {J : Type 0} (env : SendEnv) (s : Stream J) → (stream_update env s).1.pt_enc ≡ env.rformat
unfolding stream_update stream_has_media stream_remote_set
update_pt env s = ground arith

-- put on hold or resumed, and then updated by the new session description
abbrev pub renegotiate : {J : Type 0} → SendEnv → Bool → Stream J → Stream J
renegotiate env hold s = (stream_update env (stream_hold hold s)).1

-- Where the direction of a media that is only sent locally lies within that, a stream that was put
-- on hold sends no RTP and is left as it is. Where the media can be sent and received and has a
-- remote address and a format, a stream that is resumed after it sends each packet once, with the
-- payload type of that format.
pub stream_hold-send :
    {J : Type 0} (env : SendEnv) (marker : Bool) (pt : Option ℕ) (fmt ts : ℕ) (mb : Bytes)
    (s : Stream J)
    → bit_and (env.dir sdp_sendonly) sdp_sendonly ≡ env.dir sdp_sendonly
    → env.raddr_set ≡ true
    → env.dir sdp_sendrecv ≡ sdp_sendrecv
    → env.rformat ≡ some fmt
    → (stream_send env marker pt ts mb (renegotiate env true s) ≡ ((0, []), renegotiate env true s))
      × ((stream_send env marker none ts mb (renegotiate env false (renegotiate env true s))).0
          ≡ (env.send_err, rtp_send marker fmt ts mb ∷ rtpkeep_refresh ts ∷ []))
unfolding stream_send stream_hold
stream_hold-send env marker pt fmt ts mb s narrow addr both fits =
    let held = renegotiate env true s in
    (
      rw (update_ldir env (stream_hold true s), addr, not_both _ narrow) refl,
      rw
          (
            update_ldir env (stream_hold false held),
            update_pt env (stream_hold false held),
            addr,
            both,
            fits,
          )
          refl,
    )
