-- ===== src/Call/Kept.antt =====
-- What the helpers of call control leave as it was (jni/baresip/src/call.c), with counts of the
-- effects that the properties of a call are about.
use bare_sip_android.Prelude.{
  ℕ, ◌+◌, ◌≤◌, length, ◌≡◌, refl, ◌∙◌, Bool, true, false, List, [], ◌∷◌, arith,
}
use bare_sip_android.Call.State.{
  ev_closed, ev_transfer, Tone, Effect, sipsess_connect, desc_garbage, stream_update, event, Call,
  Env, for_each,
}
use bare_sip_android.Call.Media.{
  start_audio, start_video, restart_streams, call_stream_start, call_stream_stop, decode_attrs,
  update_mnat, update_media, play_tone,
}
use bare_sip_android.Call.Control.{call_modify, call_notify_sipfrag}

abbrev pub invite_weight : Effect → ℕ
invite_weight sipsess_connect = 1
invite_weight _ = 0

abbrev pub closed_weight : Effect → ℕ
closed_weight (event ev_closed) = 1
closed_weight _ = 0

abbrev pub garbage_weight : Effect → ℕ
garbage_weight desc_garbage = 1
garbage_weight _ = 0

abbrev pub transfer_weight : Effect → ℕ
transfer_weight (event ev_transfer) = 1
transfer_weight _ = 0

-- how many INVITE requests were started, how often the user agent was told that the call is closed,
-- and how often a pointer was released that was never set
abbrev pub invites : List Effect → ℕ
invites [] = 0
invites (e ∷ l) = invite_weight e + invites l

abbrev pub closes : List Effect → ℕ
closes [] = 0
closes (e ∷ l) = closed_weight e + closes l

abbrev pub garbage : List Effect → ℕ
garbage [] = 0
garbage (e ∷ l) = garbage_weight e + garbage l

-- how often the user agent was told that the call is transferred
abbrev pub transfers : List Effect → ℕ
transfers [] = 0
transfers (e ∷ l) = transfer_weight e + transfers l

pub record Held (c c' : Call) : Type 0 where
  pub state_held : c'.state ≡ c.state
  pub sess_held : c'.sess ≡ c.sess
  pub mnat_held : c'.mnat ≡ c.mnat
  pub wait_held : c'.mnat_wait ≡ c.mnat_wait
  pub eh_held : c'.eh ≡ c.eh
  pub timer_off : c'.tmr_inv ≡ true → c.tmr_inv ≡ true
  pub invites_held : invites c'.log ≡ invites c.log
  pub closes_held : closes c'.log ≡ closes c.log
  pub log_grows : length c.log ≤ length c'.log

pub Held-trans : {c d e : Call} → Held c d → Held d e → Held c e
Held-trans p q = record {
  state_held = q.state_held ∙ p.state_held;
  sess_held = q.sess_held ∙ p.sess_held;
  mnat_held = q.mnat_held ∙ p.mnat_held;
  wait_held = q.wait_held ∙ p.wait_held;
  eh_held = q.eh_held ∙ p.eh_held;
  timer_off = λ t. p.timer_off (q.timer_off t);
  invites_held = q.invites_held ∙ p.invites_held;
  closes_held = q.closes_held ∙ p.closes_held;
  log_grows = omega (arith, p.log_grows, q.log_grows);
}

-- and no pointer was released that was never set
pub record Kept (c c' : Call) : Type 0 where
  pub held : Held c c'
  pub open held use *
  pub garbage_kept : garbage c'.log ≡ garbage c.log

pub Kept-trans : {c d e : Call} → Kept c d → Kept d e → Kept c e
Kept-trans p q = record {
  held = Held-trans p.held q.held;
  garbage_kept = q.garbage_kept ∙ p.garbage_kept;
}

start_audio-Kept : (env : Env) (c : Call) → Kept c (start_audio env c).1
unfolding start_audio
start_audio-Kept env c = ground arith

start_video-Kept : (env : Env) (c : Call) → Kept c (start_video env c).1
unfolding start_video
start_video-Kept env c = ground arith

restart_streams-Kept : (ss : List ℕ) (env : Env) (c : Call) → Kept c (restart_streams ss env c).1
unfolding restart_streams
restart_streams-Kept [] env c = ground arith
restart_streams-Kept (s ∷ ss) env c = Kept-trans (ground arith) (restart_streams-Kept ss env _)

pub for_each-Kept :
    (f : ℕ → Effect) (ss : List ℕ) (env : Env) (c : Call)
    → ((s : ℕ) → invite_weight (f s) + closed_weight (f s) + garbage_weight (f s) ≡ 0)
    → Kept c (for_each f ss env c).1
unfolding for_each
for_each-Kept f [] env c plain = ground arith
for_each-Kept f (s ∷ ss) env c plain =
    Kept-trans (ground (arith, plain s)) (for_each-Kept f ss env _ plain)

start_both-Kept : (env : Env) (c : Call) → Kept c (start_video env (start_audio env c).1).1
start_both-Kept env c = Kept-trans (start_audio-Kept env c) (start_video-Kept env _)

pub call_stream_start-Kept :
    (active : Bool) (env : Env) (c : Call) → Kept c (call_stream_start active env c).1
unfolding call_stream_start
call_stream_start-Kept false env c = start_both-Kept env c
call_stream_start-Kept true env c =
    Kept-trans (start_both-Kept env c) (Kept-trans (ground arith) (restart_streams-Kept _ env _))

restart_streams-timer :
    (ss : List ℕ) (env : Env) (c : Call) → (restart_streams ss env c).1.tmr_inv ≡ c.tmr_inv
unfolding restart_streams
restart_streams-timer [] env c = refl
restart_streams-timer (s ∷ ss) env c = restart_streams-timer ss env _

-- an active call has no timer left for the invitation
pub call_stream_start-timer :
    (env : Env) (c : Call) → (call_stream_start true env c).1.tmr_inv ≡ false
unfolding call_stream_start
call_stream_start-timer env c = restart_streams-timer _ env _

decode_attrs-Kept : (env : Env) (c : Call) → Kept c (decode_attrs env c).1
unfolding decode_attrs
decode_attrs-Kept env c = ground arith

update_mnat-Kept : (env : Env) (c : Call) → Kept c (update_mnat env c).1
unfolding update_mnat
update_mnat-Kept env c = ground arith

pub update_media-Kept : (env : Env) (c : Call) → Kept c (update_media env c).1
unfolding update_media
update_media-Kept env c =
    Kept-trans (decode_attrs-Kept env c)
      (Kept-trans (for_each-Kept stream_update _ env _ (λ s. refl)) (update_mnat-Kept env _))

pub call_stream_stop-Kept : (env : Env) (c : Call) → Kept c (call_stream_stop env c).1
unfolding call_stream_stop
call_stream_stop-Kept env c = ground arith

pub play_tone-Kept : (tone : Tone) (env : Env) (c : Call) → Kept c (play_tone tone env c).1
unfolding play_tone
play_tone-Kept tone env c = ground arith

pub call_notify_sipfrag-Kept :
    (scode : ℕ) (env : Env) (c : Call) → Kept c (call_notify_sipfrag scode env c).1
unfolding call_notify_sipfrag
call_notify_sipfrag-Kept scode env c = ground arith

pub call_modify-Held : (env : Env) (c : Call) → Held c (call_modify env c).1
unfolding call_modify
call_modify-Held env c = ground arith
