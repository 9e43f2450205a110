-- ===== src/Stream/Send.antt =====
-- How a stream sends, and what changes how it does (jni/baresip/src/stream.c). What the SDP media
-- and the configuration say, and the answers of the network, are parameters.
use bare_sip_android.Prelude.{
  ℕ, ◌/◌, Bool, true, false, not, ◌&&◌, ◌||◌, Option, none, some, List, [], ◌∷◌, ◌++◌, length, ◌==◌,
  if◌then◌else◌, Bytes,
}
use bare_sip_android.Stream.State.{JbufOps, Stream, sdp_sendonly, sdp_sendrecv, add_word}

pub data SendEffect : Type 0 where
  rtp_send : Bool → ℕ → ℕ → Bytes → SendEffect
  rtpkeep_refresh : ℕ → SendEffect
  rtcp_enable_mux : Bool → SendEffect
  rtcp_start : Bool → SendEffect  -- to the address of the media, or to its own
  menc_update rtpkeep_alloc rtpkeep_deref : SendEffect
  set_lbandwidth : ℕ → SendEffect

-- `dir` is sdp_media_dir by the local direction, `rformat` the payload type of the remote format.
pub record SendEnv : Type 0 where
  pub raddr_set : Bool
  pub dir : ℕ → ℕ
  pub rformat : Option ℕ
  pub rport : ℕ
  pub rattr_mux : Bool
  pub cfg_mux : Bool
  pub menc_updateh : Bool
  pub has_rtpkeep : Bool
  pub keep_err : ℕ
  pub send_err : ℕ

abbrev send_pt : SendEnv → Bool → Option ℕ → ℕ → Bytes → ℕ × List SendEffect
send_pt env marker none ts mb = (0, [])
send_pt env marker (some pt) ts mb = (env.send_err, rtp_send marker pt ts mb ∷ [])

abbrev pub or_enc : Option ℕ → Option ℕ → Option ℕ
or_enc none pt_enc = pt_enc
or_enc (some pt) pt_enc = some pt

unfoldable pub stream_has_media : SendEnv → Bool
stream_has_media env = elim env.rformat [ none ↦ false | some pt ↦ not (env.rport == 0) ]

abbrev menc_effects : SendEnv → List SendEffect
menc_effects env = if env.menc_updateh then menc_update ∷ [] else []

abbrev wants_keep : SendEnv → Bool
wants_keep env = env.has_rtpkeep && elim env.rformat [ none ↦ false | some pt ↦ true ]

unfoldable pub stream_set_bw : ℕ → List SendEffect
stream_set_bw bps = set_lbandwidth (bps / 1024) ∷ []

module _ {J : Type 0} where
  abbrev count_tx : Stream J → Stream J
  count_tx s = record s { stats = record s.stats { n_tx = add_word s.stats.n_tx 1 } }

  -- A `pt` of `none` is a negative one. The keepalive is refreshed where there is one.
  unfoldable pub stream_send :
      SendEnv → Bool → Option ℕ → ℕ → Bytes → Stream J → (ℕ × List SendEffect) × Stream J
  stream_send env marker pt ts mb s =
      if not env.raddr_set
      then ((0, []), s)
      else if not (env.dir s.ldir == sdp_sendrecv)
      then ((0, []), s)
      else let (err, sent) = send_pt env marker (or_enc pt s.pt_enc) ts mb in
        (
          (err, sent ++ rtpkeep_refresh ts ∷ []),
          count_tx
              (record s { stats = record s.stats { b_tx = add_word s.stats.b_tx (length mb) } }),
        )

  unfoldable pub stream_remote_set : SendEnv → Stream J → List SendEffect × Stream J
  stream_remote_set env s =
      let mux = s.rtcp_mux || (env.cfg_mux && env.rattr_mux) in
      (rtcp_enable_mux mux ∷ rtcp_start mux ∷ [], record s { rtcp_mux = mux })

  unfoldable pub stream_update : SendEnv → Stream J → List SendEffect × Stream J
  unfolding stream_has_media stream_remote_set
  stream_update env s =
      let enc = record s { pt_enc = env.rformat } in
      if stream_has_media env
      then (let (sent, s') = stream_remote_set env enc in (sent ++ menc_effects env, s'))
      else (menc_effects env, enc)

  unfoldable pub stream_update_encoder : Option ℕ → Stream J → Stream J
  stream_update_encoder pt s = record s { pt_enc = or_enc pt s.pt_enc }

  unfoldable pub stream_hold : Bool → Stream J → Stream J
  stream_hold hold s = record s { ldir = if hold then sdp_sendonly else sdp_sendrecv }

  unfoldable pub stream_start : Stream J → Stream J
  stream_start s = record s { tmr_stats = 1 }

  unfoldable pub stream_start_keepalive : SendEnv → Stream J → List SendEffect × Stream J
  stream_start_keepalive env s =
      if wants_keep env
      then (rtpkeep_deref ∷ rtpkeep_alloc ∷ [], record s { rtpkeep = env.keep_err == 0 })
      else (rtpkeep_deref ∷ [], record s { rtpkeep = false })

  unfoldable pub stream_reset : JbufOps J → Stream J → Stream J
  stream_reset ops s = record s { jbuf = elim s.jbuf [ none ↦ none | some j ↦ some (ops.flush j) ] }
