-- ===== src/Tests/Frames.antt =====
-- Examples for frames in packets (jni/baresip/modules/avcodec/avcodec.c).
use bare_sip_android.Prelude.{refl, true, [], ◌∷◌}
use bare_sip_android.General.Packets.{general_packetize}
use bare_sip_android.General.Frame.{SendsAll, general_packetize-SendsAll}

general_packetize-SendsAll_example :
    SendsAll (1 ∷ 2 ∷ 3 ∷ []) (general_packetize (λ n. true) (λ last b. 0) (1 ∷ 2 ∷ 3 ∷ []))
general_packetize-SendsAll_example =
    general_packetize-SendsAll (λ n. true) (λ last b. 0) (1 ∷ 2 ∷ 3 ∷ []) (λ n. refl)
      (λ last b. refl)
