-- ===== src/Aufilt.antt =====
-- The filters of audio and their chains (jni/baresip/src/aufilt.c). A filter's handlers and its state
-- are those of a module.
use bare_sip_android.Prelude.{
  ℕ, ◌≡◌, refl, sym, ap, ap₂, ◌∙◌, Bool, true, false, not, Option, none, some, List, [], ◌∷◌, ◌++◌,
  ◌==◌, if◌then◌else◌, Bytes, einval, enomem, arith, Bool-cases, inl, inr,
}

pub record AufiltPrm : Type 0 where
  pub srate : ℕ
  pub srate_out : ℕ
  pub ch : ℕ
  pub frame_size : ℕ

-- The allocation handler gives a state or an error; the encoder and the decoder change the samples
-- in place and may fail.
pub record Aufilt (S : Type 0) : Type 0 where
  pub name : Bytes
  pub alloch : AufiltPrm → AufiltPrm → ℕ × S
  pub ench : Option (Bytes → S → (ℕ × Bytes) × S)
  pub dech : Option (Bytes → S → (ℕ × Bytes) × S)
  pub updh : Option (S → ℕ × S)

abbrev pub Chain : Type 0 → Type 0
Chain S = List (Aufilt S × S)

abbrev pub FiltHandler : Type 0 → Type 0
FiltHandler S = Aufilt S → Option (Bytes → S → (ℕ × Bytes) × S)

at_zero : {A : Type 0} (n : ℕ) (f : ℕ → A) → (if n == 0 then f 0 else f n) ≡ f n
at_zero n f = elim (Bool-cases (n == 0)) [
  | inl z ↦ rw (z) (ap f (ground (arith, z)))
  | inr z ↦ rw (z) refl
]

module _ {S : Type 0} where
  -- `given` tells that there are a place, a name and an allocation handler
  unfoldable pub aufilt_register : Bool → Bool → Aufilt S → List (Aufilt S) → List (Aufilt S) × ℕ
  aufilt_register given mem af l =
      if not given then (l, einval) else if not mem then (l, enomem) else (l ++ af ∷ [], 0)

  -- an element for each filter, up to the first error
  unfoldable pub alloc_elems :
      (Aufilt S → Bool) → AufiltPrm → AufiltPrm → List (Aufilt S) → Chain S → ℕ × Chain S
  alloc_elems mem encprm decprm [] fc = (0, fc)
  alloc_elems mem encprm decprm (af ∷ l) fc =
      let (err, st) = af.alloch encprm decprm in
      let rest = alloc_elems mem encprm decprm l (fc ++ (af, st) ∷ []) in
      if not (mem af) then (enomem, fc) else if err == 0 then rest else (err, fc)

  -- out:
  abbrev pub or_released : ℕ × Chain S → ℕ × Option (Chain S)
  or_released (err, fc) = (err, if err == 0 then some fc else none)

  -- The chain is released where there is an error; `given` tells that the arguments are there.
  unfoldable pub aufilt_chain_alloc :
      Bool
      → Bool
      → (Aufilt S → Bool)
      → AufiltPrm
      → AufiltPrm
      → List (Aufilt S)
      → ℕ × Option (Chain S)
  unfolding alloc_elems
  aufilt_chain_alloc given mem elem_mem encprm decprm l =
      if not given
      then (einval, none)
      else if not mem
      then (enomem, none)
      else or_released (alloc_elems elem_mem encprm decprm l [])

  abbrev pub call_filter : Option (Bytes → S → (ℕ × Bytes) × S) → Bytes → S → (ℕ × Bytes) × S
  call_filter none mb st = ((0, mb), st)
  call_filter (some h) mb st = h mb st

  -- `for (le = ...; !err && le; ...)`
  unfoldable pub run_chain : FiltHandler S → Chain S → Bytes → (ℕ × Bytes) × Chain S
  run_chain handler [] mb = ((0, mb), [])
  run_chain handler ((af, st) ∷ fc) mb =
      let ((err, mb'), st') = call_filter (handler af) mb st in
      let (r, fc') = run_chain handler fc mb' in
      if err == 0 then (r, (af, st') ∷ fc') else ((err, mb'), (af, st') ∷ fc)

  abbrev pub some_chain : (ℕ × Bytes) × Chain S → (ℕ × Bytes) × Option (Chain S)
  some_chain (r, fc) = (r, some fc)

  abbrev run_given : FiltHandler S → Option (Chain S) → Bytes → (ℕ × Bytes) × Option (Chain S)
  run_given handler none mb = ((einval, mb), none)
  run_given handler (some fc) mb = some_chain (run_chain handler fc mb)

  unfoldable pub aufilt_chain_encode : Option (Chain S) → Bytes → (ℕ × Bytes) × Option (Chain S)
  unfolding run_chain
  aufilt_chain_encode fc mb = run_given Aufilt.ench fc mb

  unfoldable pub aufilt_chain_decode : Option (Chain S) → Bytes → (ℕ × Bytes) × Option (Chain S)
  unfolding run_chain
  aufilt_chain_decode fc mb = run_given Aufilt.dech fc mb

  abbrev call_update : Option (S → ℕ × S) → S → ℕ × S
  call_update none st = (0, st)
  call_update (some h) st = h st

  unfoldable pub aufilt_chain_update : (Chain S) → ℕ × Chain S
  aufilt_chain_update [] = (0, [])
  aufilt_chain_update ((af, st) ∷ fc) =
      let (err, st') = call_update af.updh st in
      let (err', fc') = aufilt_chain_update fc in
      if err == 0 then (err', (af, st') ∷ fc') else (err, (af, st') ∷ fc)

  -- what a chain did, and then one filter behind it
  abbrev then_filter : FiltHandler S → (ℕ × Bytes) × Chain S → Aufilt S → S → (ℕ × Bytes) × Chain S
  then_filter handler ((err, mb), fc) af st =
      let (r, st') = call_filter (handler af) mb st in
      if err == 0 then (r, fc ++ (af, st') ∷ []) else ((err, mb), fc ++ (af, st) ∷ [])

  alloc_next :
      (mem : Aufilt S → Bool) (encprm decprm : AufiltPrm) (f : Aufilt S) (l : List (Aufilt S))
      (fc : Chain S)
      → mem f ≡ true
      → (f.alloch encprm decprm).0 == 0 ≡ true
      → alloc_elems mem encprm decprm (f ∷ l) fc
        ≡ alloc_elems mem encprm decprm l (fc ++ (f, (f.alloch encprm decprm).1) ∷ [])
  unfolding alloc_elems
  alloc_next mem encprm decprm f l fc m z = rw (m, z) refl

  alloc_elems-append :
      (mem : Aufilt S → Bool) (encprm decprm : AufiltPrm) (l : List (Aufilt S)) (af : Aufilt S)
      (fc c : Chain S)
      → alloc_elems mem encprm decprm l fc ≡ (0, c)
      → alloc_elems mem encprm decprm (l ++ af ∷ []) fc ≡ alloc_elems mem encprm decprm (af ∷ []) c
  unfolding alloc_elems
  alloc_elems-append mem encprm decprm [] af fc c e =
      ap (λ r. alloc_elems mem encprm decprm (af ∷ []) r.1) e
  alloc_elems-append mem encprm decprm (f ∷ l) af fc c e = elim (Bool-cases (mem f)) [
    | inl m ↦ elim (Bool-cases ((f.alloch encprm decprm).0 == 0)) [
      | inl z ↦
          (alloc_next mem encprm decprm f (l ++ af ∷ []) fc m z
            ∙ alloc_elems-append mem encprm decprm l af (fc ++ (f, (f.alloch encprm decprm).1) ∷ [])
                c (sym (alloc_next mem encprm decprm f l fc m z) ∙ e))
      | inr z ↦ ground (arith, e, m, z)
    ]
    | inr m ↦ ground (arith, e, m)
  ]

  cons-then_filter :
      (handler : FiltHandler S) (r : (ℕ × Bytes) × Chain S) (e : Aufilt S × S) (af : Aufilt S)
      (st : S)
      → ((then_filter handler r af st).0, e ∷ (then_filter handler r af st).1)
        ≡ then_filter handler (r.0, e ∷ r.1) af st
  cons-then_filter handler ((err, mb), fc) e af st = elim (Bool-cases (err == 0)) [
    | inl z ↦ rw (z) refl
    | inr z ↦ rw (z) refl
  ]

  stopped :
      (handler : FiltHandler S) (err : ℕ) (mb : Bytes) (fc : Chain S) (af : Aufilt S) (st : S)
      → err == 0 ≡ false
      → then_filter handler ((err, mb), fc) af st ≡ ((err, mb), fc ++ (af, st) ∷ [])
  stopped handler err mb fc af st z = rw (z) refl

  run_chain-append :
      (handler : FiltHandler S) (fc : Chain S) (af : Aufilt S) (st : S) (mb : Bytes)
      → run_chain handler (fc ++ (af, st) ∷ []) mb
        ≡ then_filter handler (run_chain handler fc mb) af st
  unfolding run_chain
  run_chain-append handler [] af st mb = at_zero (call_filter (handler af) mb st).0.0 (λ n.
      ((n, (call_filter (handler af) mb st).0.1), (af, (call_filter (handler af) mb st).1) ∷ []))
  run_chain-append handler ((f, s) ∷ fc) af st mb =
      let ((err, mb'), s') = call_filter (handler f) mb s in
      elim (Bool-cases (err == 0)) [
        | inl z ↦ rw (z) (
            ap (λ q. (q.0, (f, s') ∷ q.1)) (run_chain-append handler fc af st mb')
            ∙ cons-then_filter handler (run_chain handler fc mb') (f, s') af st)
        | inr z ↦ rw (z) (sym (stopped handler err mb' ((f, s') ∷ fc) af st z))
      ]

  registered_last :
      (given mem : Bool) (af : Aufilt S) (l l' : List (Aufilt S))
      → aufilt_register given mem af l ≡ (l', 0)
      → l' ≡ l ++ af ∷ []
  unfolding aufilt_register
  registered_last true true af l l' e = ap (λ r. r.0) (sym e)
  registered_last true false af l l' e = ground (arith, ap (λ r. r.1) e)
  registered_last false mem af l l' e = ground (arith, ap (λ r. r.1) e)

  or_empty : Chain S → Option (Chain S) → Chain S
  or_empty fc none = fc
  or_empty fc (some c) = c

  finished : (r : ℕ × Chain S) (c : Chain S) → or_released r ≡ (0, some c) → r ≡ (0, c)
  unfolding or_empty
  finished (err, fc) c e =
      let z : err ≡ 0 = ap (λ r. r.0) e in
      let f : some fc ≡ some c =
        sym (ap (λ n. if n == 0 then some fc else none) z) ∙ ap (λ r. r.1) e in
      ap₂ (λ n f. (n, f)) z (ap (or_empty fc) f)

  allocated :
      (chain_mem : Bool) (mem : Aufilt S → Bool) (encprm decprm : AufiltPrm) (l : List (Aufilt S))
      (c : Chain S)
      → aufilt_chain_alloc true chain_mem mem encprm decprm l ≡ (0, some c)
      → (chain_mem ≡ true) × (alloc_elems mem encprm decprm l [] ≡ (0, c))
  unfolding aufilt_chain_alloc or_empty
  allocated true mem encprm decprm l c e = (refl, finished (alloc_elems mem encprm decprm l []) c e)
  allocated false mem encprm decprm l c e = ground (arith, ap (λ r. r.0) e)

  -- What comes of a chain, by its result, and one filter behind it with a handler or none: the
  -- handler has the samples and the filter's state, where there was no error.
  abbrev pub handed :
      Option (Bytes → S → (ℕ × Bytes) × S)
      → (ℕ × Bytes) × Chain S
      → Aufilt S
      → S
      → (ℕ × Bytes) × Chain S
  handed none (r, fc) af st = (r, fc ++ (af, st) ∷ [])
  handed (some h) ((err, mb), fc) af st =
      if err == 0
      then ((h mb st).0, fc ++ (af, (h mb st).1) ∷ [])
      else ((err, mb), fc ++ (af, st) ∷ [])

  then_option :
      Option (Bytes → S → (ℕ × Bytes) × S)
      → (ℕ × Bytes) × Chain S
      → Aufilt S
      → S
      → (ℕ × Bytes) × Chain S
  then_option o r af st = then_filter (λ f. o) r af st

  then_filter-handed :
      (o : Option (Bytes → S → (ℕ × Bytes) × S)) (r : (ℕ × Bytes) × Chain S) (af : Aufilt S)
      (st : S)
      → then_option o r af st ≡ handed o r af st
  unfolding then_option
  then_filter-handed none ((err, mb), fc) af st = at_zero err (λ n. ((n, mb), fc ++ (af, st) ∷ []))
  then_filter-handed (some h) ((err, mb), fc) af st = refl

  -- Where a filter is registered with success, a chain that is allocated from then on with the
  -- same memory and parameters, where it was allocated without the filter before and the filter's
  -- own allocation succeeds, has the filter behind the others; and what it encodes is what the
  -- chain without the filter makes of the samples, handed with the filter's state to its encoder, if
  -- it has one, where no filter before it failed.
  pub aufilt_chain_encode-register :
      (given reg_mem chain_mem : Bool) (mem : Aufilt S → Bool) (encprm decprm : AufiltPrm)
      (af : Aufilt S) (l l' : List (Aufilt S)) (c : Chain S) (mb : Bytes)
      → aufilt_register given reg_mem af l ≡ (l', 0)
      → aufilt_chain_alloc true chain_mem mem encprm decprm l ≡ (0, some c)
      → mem af ≡ true
      → (af.alloch encprm decprm).0 == 0 ≡ true
      → (aufilt_chain_alloc true chain_mem mem encprm decprm l'
          ≡ (0, some (c ++ (af, (af.alloch encprm decprm).1) ∷ [])))
        × (aufilt_chain_encode (some (c ++ (af, (af.alloch encprm decprm).1) ∷ [])) mb
            ≡ some_chain
                (handed af.ench (run_chain Aufilt.ench c mb) af (af.alloch encprm decprm).1))
  unfolding aufilt_chain_alloc aufilt_chain_encode alloc_elems then_option
  aufilt_chain_encode-register given reg_mem chain_mem mem encprm decprm af l l' c mb r a m z =
      let (k, e) = allocated chain_mem mem encprm decprm l c a in
      let last = registered_last given reg_mem af l l' r in
      (
        rw (k) (
            ap or_released (
              ap (λ x. alloc_elems mem encprm decprm x []) last
              ∙ alloc_elems-append mem encprm decprm l af [] c e
              ∙ alloc_next mem encprm decprm af [] c m z)),
        ap some_chain (
            run_chain-append Aufilt.ench c af (af.alloch encprm decprm).1 mb
            ∙ then_filter-handed af.ench (run_chain Aufilt.ench c mb) af
                (af.alloch encprm decprm).1),
      )
