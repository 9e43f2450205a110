-- ===== src/Call/State.antt =====
-- The call object and the monad of its operations (jni/baresip/src/call.c, struct call).
-- A call outside call.c is an effect: it is recorded in `log`, newest first, and the environment, a
-- function of all that was done before, gives its result, an error code with 0 for success. A
-- pointer of the struct is a flag that it is not NULL. Output to the terminal is left out.
use bare_sip_android.Prelude.{ℕ, Bool, false, Option, List, [], ◌∷◌, Bytes, ◌==◌, if◌then◌else◌}

pub data CallState : Type 0 where
  idle incoming outgoing ringing early established terminated : CallState

pub data CallEvent : Type 0 where
  ev_incoming ev_ringing ev_progress ev_established ev_closed ev_transfer : CallEvent

-- The objects that `mem_deref` releases.
pub data Ref : Type 0 where
  play_ref sess_ref sub_ref not_ref desc_ref : Ref

pub data Tone : Type 0 where
  notfound_wav busy_wav error_wav ringback_wav other_wav : Tone

-- `desc_garbage` is `mem_deref` of a pointer that was never set.
pub data Effect : Type 0 where
  mem_zalloc str_dup sip_addr_decode mbuf_alloc now : Effect
  sdp_session_alloc sdp_set_lattr sdp_set_laddr audio_alloc video_alloc : Effect
  mnat_sessh : Bool → Effect
  set_bw : ℕ → ℕ → Effect
  sdp_encode sdp_decode : Bool → Effect
  decode_multipart : Effect
  sipsess_connect sipsess_accept sipsess_modify sipsess_progress : Effect
  sipsess_answer sipsess_reject sip_reply : ℕ → Effect
  sipevent_accept sipevent_drefer : Effect
  sipevent_notify : Bool → Effect
  deref : Ref → Effect
  desc_garbage : Effect
  audio_rformat audio_codec audio_encoder_set audio_decoder_set audio_start audio_stop : Effect
  video_rformat video_encoder_set video_decoder_set video_start video_stop : Effect
  audio_attr_decode video_attr_decode mnat_update mctrl_handle mctrl_pfu update_picture : Effect
  stream_update stream_reset stream_keepalive : ℕ → Effect
  stream_hold : Bool → ℕ → Effect
  tmr_start tmr_cancel : Effect
  play_file : Tone → Effect
  event : CallEvent → Effect

pub record Call : Type 0 where
  pub state : CallState
  pub sess : Bool
  pub sub : Bool
  pub notif : Bool  -- the field `not`
  pub play : Bool
  pub streaml : List ℕ
  pub video : Bool
  pub local_name : Bytes
  pub local_uri : Bytes
  pub peer_uri : Option Bytes
  pub peer_name : Option Bytes
  pub tmr_inv : Bool
  pub time_start : ℕ
  pub time_stop : ℕ
  pub got_offer : Bool
  pub mnats : Bool
  pub mnat : Bool
  pub mnat_updateh : Bool  -- `mnat->updateh`
  pub mnat_wait : Bool
  pub af : ℕ
  pub eh : Bool
  pub log : List Effect

abbrev pub Env : Type 0
Env = List Effect → Effect → ℕ

abbrev pub M : Type 0 → Type 0
M A = Env → Call → A × Call

abbrev pub pure : {A : Type 0} → A → M A
pure a env c = (a, c)

infixl 5 ◌>>=◌ ◌>>◌
abbrev pub ◌>>=◌ : {A B : Type 0} → M A → (A → M B) → M B
◌>>=◌ m f env c = let (a, c') = m env c in f a env c'

abbrev pub ◌>>◌ : {B : Type 0} → M (Unit {0}) → M B → M B
◌>>◌ m k env c = k env (m env c).1

abbrev pub ext : Effect → M ℕ
ext e env c = (env c.log e, record c { log = e ∷ c.log })

-- an effect whose result is not used
abbrev pub run : Effect → M (Unit {0})
run e env c = (tt, record c { log = e ∷ c.log })

abbrev pub modify : (Call → Call) → M (Unit {0})
modify f env c = (tt, f c)

abbrev pub get : M Call
get env c = (c, c)

-- `if (err) return err;` between two parts
abbrev pub attempt : M ℕ → M ℕ → M ℕ
attempt m k env c = let (err, c') = m env c in if err == 0 then k env c' else (err, c')

abbrev pub when : Bool → M (Unit {0}) → M (Unit {0})
when b m env c = if b then m env c else (tt, c)

abbrev pub void : {A : Type 0} → M A → M (Unit {0})
void m env c = (tt, (m env c).1)

-- FOREACH_STREAM
unfoldable pub for_each : (ℕ → Effect) → List ℕ → M (Unit {0})
for_each f [] env c = (tt, c)
for_each f (s ∷ ss) env c = for_each f ss env (record c { log = f s ∷ c.log })

abbrev pub set_state : CallState → M (Unit {0})
set_state st = modify λ c. record c { state = st }

-- `call->play = mem_deref(call->play)`, and so for the others
abbrev pub drop_play : M (Unit {0})
drop_play = do run (deref play_ref); modify λ c. record c { play = false }

abbrev pub drop_not : M (Unit {0})
drop_not = do run (deref not_ref); modify λ c. record c { notif = false }

abbrev pub drop_sub : M (Unit {0})
drop_sub = do run (deref sub_ref); modify λ c. record c { sub = false }

abbrev pub drop_sess : M (Unit {0})
drop_sess = do run (deref sess_ref); modify λ c. record c { sess = false }

-- call_event_handler: the user agent is told of an event, if it has set a handler.
unfoldable pub call_event : CallEvent → M (Unit {0})
call_event ev env c = when c.eh (run (event ev)) env c
