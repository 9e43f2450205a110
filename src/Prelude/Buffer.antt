-- ===== src/Prelude/Buffer.antt =====
-- Byte buffers of the library re (`struct mbuf`), as the code of the application uses them.
-- A buffer that is written at its end is the list of its bytes. A write grows the buffer and fails
-- when the memory for it cannot be had; which sizes can be had is a parameter, `room`.
use Prim.Native.Nat.{ℕ, ◌+◌}
use mathlib.Core.Bool.{Bool, true}
use mathlib.Core.List.{List, ◌++◌}
use mathlib.Core.Path.{◌≡◌}
use native.Mathlib.Omega.{arith}
use bare_sip_android.Prelude.Errors.{enomem}
use bare_sip_android.Prelude.Lists.{length}
use bare_sip_android.Prelude.Tests.{if◌then◌else◌}

abbrev pub Bytes : Type 0
Bytes = List ℕ

unfoldable pub mbuf_write : (ℕ → Bool) → Bytes → Bytes → Bytes × ℕ
mbuf_write room mb xs = if room (length mb + length xs) then (mb ++ xs, 0) else (mb, enomem)

-- with memory for every size, a write appends and succeeds
pub mbuf_write_room :
    (room : ℕ → Bool) (mb xs : Bytes)
    → ((n : ℕ) → room n ≡ true)
    → mbuf_write room mb xs ≡ (mb ++ xs, 0)
unfolding mbuf_write
mbuf_write_room room mb xs all = ground (arith, all (length mb + length xs))
