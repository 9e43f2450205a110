-- ===== src/Tests/Startcodes.antt =====
-- Examples for the search of a start sequence (jni/baresip/modules/avcodec/h264.c).
use bare_sip_android.Prelude.{ℕ, ◌<◌, ◌≡◌, refl, ◌||◌, ◌==◌, if◌then◌else◌, arith}
use mathlib.Core.List.{List}
use mathlib.Core.Option.{some}
use bare_sip_android.Startcode.Packetize.{Nal, h264_packetize}
use bare_sip_android.Startcode.Units.{Units, h264_packetize-Units}
use bare_sip_android.Startcode.Search.{
  h264_find_startcode, byte_loop, word_loop, startcode, zero_test, in_word,
}
use bare_sip_android.Startcode.Least.{Least, h264_find_startcode-Least}

-- memory with a start sequence at address 9
abbrev stream : ℕ → ℕ
stream i = if i == 11 then 1 else if i == 9 || i == 10 then 0 else 5

stream_bytes : (i : ℕ) → stream i < 256
stream_bytes i = ground arith

at_nine : h264_find_startcode stream 2 20 ≡ 9
unfolding h264_find_startcode byte_loop word_loop startcode zero_test in_word
at_nine = refl

h264_find_startcode-Least_example : Least stream 2 20 (h264_find_startcode stream 2 20)
h264_find_startcode-Least_example = h264_find_startcode-Least stream 2 20 stream_bytes (omega arith)

h264_packetize-Units_example :
    (us : List Nal) × (h264_packetize stream 2 20 ≡ some us)
    × ((r : ℕ) × Least stream 2 20 r × Units stream 20 r us)
h264_packetize-Units_example =
    h264_packetize-Units stream 2 20 stream_bytes (omega arith) (omega arith)
