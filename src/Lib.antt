-- ===== src/Lib.antt =====
-- Models of the baresip application for Android (jni/baresip), with the theorems that make its
-- user agents, its call control, its audio and video streams, its video packets, its tones, its keepalives, its
-- registries and its command interface correct.
--
-- The parts, and how they interact:
--
-- * Call (jni/baresip/src/call.c, src/core.h, and the guard of play_file of src/play.c): the call object. `State`
--   has the struct, the effects and the monad of the operations; `Media` the media streams
--   (call_stream_start, call_stream_stop, update_media) and the duration; `Alloc` call_alloc;
--   `Control` the operations that the user agent starts (call_connect, call_accept, call_answer,
--   call_hangup, call_modify, call_hold, call_transfer, and others); `Handlers` what the SIP session,
--   the timers and the media call back. A call outside these files is an effect: it is recorded in
--   the log of the call, and an environment, a function of the log, gives its result, so that a
--   theorem for all environments covers all failures. `Steps` puts the operations and handlers
--   together as inputs that come in any order; `Kept`, `Quiet` and `Growth` say what each leaves as it
--   was; `Invariant`, `Made`, `Release` and `Answer` have the properties.
-- * Agent (jni/baresip/src/ua.c, the calls of a user agent): `State` the list of its calls with the
--   rest of it, `Events` call_event_handler, `Operations` ua_connect, ua_answer, ua_hangup,
--   sipsess_conn_handler and an input of one of the calls, whose events it delivers; it uses the
--   operations of Call. `Good` says what holds of it, `Handled`, `Delivered`, `Inputs` and `Commands`
--   that each part keeps it, `Steps` all of them in any order; `Limit` bounds the
--   calls, with `Steady` on the events of one that goes on.
-- * Uag (jni/baresip/src/ua.c, the list of the user agents): `Register` the registration and its
--   answers, `Focus` ua_cur and ua_next, `Find` ua_find and ua_find_aor, `Reset` ua_reset_transp and
--   ua_stack_suspend, `Registered` who is registered; `Codecs` the lists of codecs of an address,
--   `Collected` what they give, `Params` its other parameters, `Alloc` ua_alloc and ua_add, `Routes` the registrations that are
--   made; `Requests` request_handler with its OPTIONS and MESSAGE; `Stack` ua_init, ua_close and
--   ua_stack_resume with the transports, `Listeners` on which stack there is a listener.
-- * Aufilt (jni/baresip/src/aufilt.c): the filters of audio and their chains.
-- * Video (jni/baresip/src/video.c): `Encode` from a frame of the source to the RTP packets, which are sent
--   by Stream; `Decode` a received packet by its payload type, RTCP messages, and the two codecs, which
--   may be one object; `Setup` video_alloc, video_start and their parts; `Control` muting and the
--   rest, and a run of events. `Muted` is about a muted video, `Due` and `Pictures` about the full
--   pictures and the time stamps that are due.
-- * Contact (jni/baresip/src/contact.c): the list of contacts.
-- * Stream (jni/baresip/src/stream.c): `Lost` the search for lost packets, `Tracker` what it stands for;
--   `Receive` rtp_recv and the statistics, `Received` what the handler is told; `Send` stream_send and
--   what changes how a stream sends, `Sent` the hold.
-- * Audio (jni/baresip/src/audio.c): `Transmit` from a frame of the source to the RTP packets, which
--   are sent by Stream, `Stamps` their marker bits and time stamps; `Decode` the loop of the decoder,
--   `Payload` a received packet by its payload type; `Devices` audio_start and audio_stop, `Threads` the
--   threads over starts and stops.
-- * Play (jni/baresip/src/play.c): `Player` a tone with its timer, `Load` the file of a tone; `Left` how
--   far the end is, `Ends` that it comes.
-- * H264 (jni/baresip/modules/avcodec/h264.c, h26x.h, avcodec.c): `Header` the NAL unit and FU headers,
--   `Send` h264_nal_send, `Receive` h264_decode, dec_h264 and ffdecode up to the call of libavcodec;
--   `Bits` and `Laws` about the headers, `Bounds` about the sender, `Reassembly` and `Delivery` about
--   the receiver and both together.
-- * Vpx (jni/baresip/modules/vpx/vpx.c): `PictureId` picid_enc and picid_dec, `Descriptor` vp8desc_enc and
--   vp8desc_dec, `Packets` vpx_packetize and dec up to the call of libvpx, `Delivery` both together.
-- * L16 (jni/baresip/modules/l16/l16.c): the encoder and decoder.
-- * Command (jni/baresip/src/cmd.c, and ui_handler and ui_input_str of src/ui.c): `Table` the blocks of
--   commands and the search by key, `Editor` the line editor, `Process` the processing of keys,
--   `Typing` what typed keys lead to.
-- * Startcode (jni/baresip/modules/avcodec/h264.c, h264_find_startcode and h264_packetize): `Search` the three loops of the
--   search over bytes and words, `Digits` and `Words` the test of a word for a zero byte, `Least` what
--   is found; `Packetize` the units of a byte stream, `Units` what they are.
-- * General (jni/baresip/modules/avcodec/avcodec.c, general_packetize): `Packets` the frames of other
--   codecs in packets, `Frame` what the packets are.
-- * RtpKeep (jni/baresip/src/rtpkeep.c): `Timer` the keepalive object of a stream, `Periods` when
--   keepalives are sent.
-- * Registry (jni/baresip/src/aucodec.c, vidcodec.c, ausrc.c, auplay.c, vidsrc.c, vidisp.c, mnat.c,
--   menc.c): `Search` the loop that the registries share, `Aucodec`, `Device` and `Driver` the registries.
-- * Prelude has the numbers, lists, tests, error codes and the buffer of the library re that the parts
--   share; Tests applies the theorems to concrete inputs.
--
-- Bounds and fuel. Sending a NAL unit takes one packet for each `maxsz - 2` bytes, so that the length
-- of the unit and one is enough fuel where `maxsz` is at least 3; for less the source's size wraps
-- around at 2 ^ 32 or does not shrink. The loop of vpx_packetize takes at least one byte in each
-- round, so that the length and one is enough. The buffer of picid_enc holds 8 groups of seven bits.
-- The L16 decoder takes one round for each sample and one to end. Each theorem on these states that
-- there is a result, and not only what it is if there is one; its hypotheses name the bounds.
-- The loop of general_packetize takes a byte in each round, too. The loops of h264_find_startcode run
-- over the number of rounds that their bounds leave, and need no fuel.
-- h264_packetize moves on by three bytes at least in each round; its fuel is the end address and one.
-- The loop of audio_stream_decode has its own count of 64 and one. Numbers of packets and bytes of a stream
-- and time stamps are kept modulo 2 ^ 32. A tone is given a number of rounds; the theorem names one
-- that is enough.
-- The loops over lists of codecs have as fuel the length of the list and one, which is enough where a
-- match takes a character. The packets of a video encoder are a tree of the calls of the send handler,
-- which ends.
--
-- Not modelled. The libraries re and rem are used by the source: SIP sessions and dialogs, SDP,
-- RTP, timers and printing are effects or parameters, and the buffer is a list of bytes whose
-- growth may fail. libavcodec and libvpx are parameters. Terminal output is left out. A multipart
-- body is decoded by an effect. In Call the user agent's answers to an event are inputs of their own,
-- after the handler that raised it; Agent handles the events when that handler has returned, which
-- is the same, since an event that leads back to the call is the last thing that it does. A block of commands is
-- told apart by its address. The L16 codec is modelled without lack of memory. A user agent is modelled
-- as the only one that registers the commands for calls. Of ua.c the commands of the application
-- and printing are left out; of stream.c and audio.c the allocation; of video.c printing. The
-- attribute framerate is taken as a number that is not negative. The number of
-- muted frames of a video has no bound: it is read only while the video is muted, where it stops at
-- three, and muting sets it to 0. The filters of video keep no state
-- of their own, and codecs hand packets over while they are called. Regular expressions, the
-- decoders of addresses and parameters, and sockets are parameters of Uag. The other files of
-- jni/baresip/src (conf.c, net.c and others) and the driver modules have no model.
pub mod Prelude
pub mod H264
pub mod Startcode
pub mod General
pub mod Video
pub mod Vpx
pub mod L16
pub mod Call
pub mod Agent
pub mod Stream
pub mod Play
pub mod Uag
pub mod Contact
pub mod Aufilt
pub mod Audio
pub mod RtpKeep
pub mod Registry
pub mod Command
pub mod Tests
