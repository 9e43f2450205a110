-- ===== src/Tests/Registries.antt =====
-- Examples for the registries (jni/baresip/src/aucodec.c, vidcodec.c, ausrc.c, auplay.c).
use bare_sip_android.Prelude.{ℕ, ◌≡◌, ◌↔◌, refl, true, false, none, some, [], ◌∷◌, ◌==◌, Bytes}
use bare_sip_android.Registry.Driver.{Driver, AuplayPrm, auplay_alloc, Plays, auplay_alloc-First}
use bare_sip_android.Registry.Aucodec.{Aucodec, aucodec_register, aucodec_wanted, aucodec_find}
use bare_sip_android.Registry.Device.{Ausrc, ausrc_register}

abbrev same : Bytes → Bytes → ℕ
same [] [] = 0
same (a ∷ x) (b ∷ y) = let rest = same x y in elim (a == b) [ true ↦ rest | false ↦ 1 ]
same _ _ = 1

abbrev gsm : Aucodec
gsm = record {
  addr = 1;
  pt = some (b'3' ∷ []);
  name = b'G' ∷ b'S' ∷ b'M' ∷ [];
  srate = 8000;
  ch = 1;
  fmtp = none;
  has_ench = true;
  has_dech = true;
}

abbrev mono : Aucodec
mono = record gsm { addr = 2; name = b'L' ∷ b'1' ∷ b'6' ∷ []; pt = none }

registered : aucodec_register true true mono (gsm ∷ []) ≡ (gsm ∷ mono ∷ [], 0)
unfolding aucodec_register
registered = refl

found : aucodec_find same (some mono.name) 8000 1 (gsm ∷ mono ∷ []) ≡ some mono
unfolding aucodec_find aucodec_wanted
found = refl

abbrev opensles : Ausrc
opensles = record { addr = 1; name = b'o' ∷ b's' ∷ [] }

registered_src : ausrc_register true true opensles [] ≡ (opensles ∷ [], 0)
unfolding ausrc_register
registered_src = refl

abbrev speaker : Driver AuplayPrm
speaker = record { name = b'o' ∷ b's' ∷ []; alloch = λ p. 0 }

abbrev narrowband : AuplayPrm
narrowband = record { srate = 8000; ch = 1 }

auplay_alloc-First_example :
    (auplay_alloc same (some (b'o' ∷ b's' ∷ [])) narrowband (speaker ∷ []) ≡ 0)
    ↔ Plays same (some (b'o' ∷ b's' ∷ [])) narrowband (speaker ∷ [])
auplay_alloc-First_example =
    auplay_alloc-First same (some (b'o' ∷ b's' ∷ [])) narrowband (speaker ∷ [])
