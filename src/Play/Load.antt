-- ===== src/Play/Load.antt =====
-- How the tone of a file is loaded and played (jni/baresip/src/play.c, aufile_load, play_file). The
-- reading of the file and the G.711 decoders are the libraries'.
use bare_sip_android.Prelude.{
  ℕ, ◌/◌, ◌%◌, Bool, false, not, Option, none, List, [], ◌∷◌, length, ◌==◌, if◌then◌else◌, Bytes,
  mbuf_write, enomem, ealready, enosys,
}
use bare_sip_android.Play.Player.{Play, PlayEnv, start_tone}

pub data Aufmt : Type 0 where
  s16le pcma pcmu other_fmt : Aufmt

-- `opened` is the error of aufile_open, `reads` the answers of aufile_read in turn, the file ending
-- after them; a sample of the decoders is a 16-bit word, written with its low byte first.
pub record FileEnv : Type 0 where
  pub path_err : Bool
  pub opened : ℕ
  pub fmt : Aufmt
  pub reads : List (ℕ × Bytes)
  pub alaw2pcm : ℕ → ℕ
  pub ulaw2pcm : ℕ → ℕ
  pub room : ℕ → Bool

abbrev pub word_bytes : ℕ → Bytes
word_bytes w = w % 256 ∷ (w / 256) % 256 ∷ []

-- `err |= mbuf_write_u16(mb, ...)` for each byte; a failed write is tried again for the next
unfoldable pub write_samples : (ℕ → Bool) → (ℕ → ℕ) → Bytes → Bytes → Bytes × ℕ
unfolding mbuf_write
write_samples room decode mb [] = (mb, 0)
write_samples room decode mb (b ∷ bs) =
    let (mb', err) = mbuf_write room mb (word_bytes (decode b)) in
    let (end, err') = write_samples room decode mb' bs in (end, if err == 0 then err' else err)

abbrev write_chunk : FileEnv → Aufmt → Bytes → Bytes → Bytes × ℕ
write_chunk env s16le mb buf = mbuf_write env.room mb buf
write_chunk env pcma mb buf = write_samples env.room env.alaw2pcm mb buf
write_chunk env pcmu mb buf = write_samples env.room env.ulaw2pcm mb buf
write_chunk env other_fmt mb buf = (mb, enosys)

unfoldable pub read_chunks : FileEnv → List (ℕ × Bytes) → Bytes → Bytes × ℕ
unfolding write_samples
read_chunks env [] mb = (mb, 0)
read_chunks env ((err, buf) ∷ reads) mb =
    let (mb', werr) = write_chunk env env.fmt mb buf in
    let rest = read_chunks env reads mb' in
    if not (err == 0)
    then (mb, err)
    else if length buf == 0
    then (mb, 0)
    else if werr == 0
    then rest
    else (mb', werr)

unfoldable pub aufile_load : FileEnv → Bytes × ℕ
unfolding read_chunks
aufile_load env = if env.opened == 0 then read_chunks env env.reads [] else ([], env.opened)

unfoldable pub start_file : FileEnv → PlayEnv → Bool → Option ℕ → ℕ × Option Play
unfolding start_tone aufile_load
start_file file env busy repeat =
    let (tone, err) = aufile_load file in
    if busy
    then (ealready, none)
    else if file.path_err
    then (enomem, none)
    else if not env.mem
    then (enomem, none)
    else if err == 0
    then start_tone env false tone 0 repeat
    else (err, none)
