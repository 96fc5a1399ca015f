-- ===== src/V5/Subscribe/Opt/Rule.antt =====
-- What `SubscriptionOpt::unwrap` makes of the rule for retained messages.
use mymq.Base.{ℕ, ◌<◌, ◌/◌, true, ltb, ◌==◌, bit_and, ◌≡◌, refl, Bool-cases, inl, inr, eqb→eq}
use mymq.Base.Tables.{passes_below, passes_below_lem}
use mymq.Error.{ok, err, malformed, first_step, ◌>>=◌}
use mymq.V5.Qos
use mymq.V5.Qos.{Qos}
use mymq.V5.Header.{unwrap_ok}
use mymq.V5.Subscription.{on_every_subscribe}
use mymq.V5.Subscribe.Opt.{unwrap_opt, check_opt, rule_of}

table : passes_below (λ b. bit_and (b / 16) 0x30 == 0) 256 ≡ true
unfolding passes_below
table = refl

qos_there :
    (opt : ℕ) → check_opt opt ≡ ok tt → (qos : Qos) × (Qos.try_from (bit_and opt 3) ≡ ok qos)
unfolding check_opt
qos_there opt h = elim (Bool-cases (ltb 0 (bit_and opt 0xc0))) [
  | inl reserved ↦ (let bad : err malformed ≡ ok tt = rw reserved at h in cc)
  | inr clear ↦ elim (Bool-cases (bit_and opt 0x30 / 16 == 3)) [
    | inl three ↦ (let bad : err malformed ≡ ok tt = rw (clear, three) at h in cc)
    | inr rule ↦
        let rest : (Qos.try_from (bit_and opt 3) >>= λ qos. ok tt) ≡ ok tt =
          rw (clear, rule) at h in
        let (qos, e, d) = first_step (Qos.try_from (bit_and opt 3)) rest in (qos, d)
  ]
]

-- Valid options are unwrapped without a panic, with the QoS and the two flags of their bits; the
-- rule is to send retained messages on every subscription, whatever its own bits say.
pub unwrap_opt-rule :
    (opt : ℕ)
    → opt < 256
    → check_opt opt ≡ ok tt
    → (qos : Qos) × (Qos.try_from (bit_and opt 3) ≡ ok qos)
      × (unwrap_opt opt
          ≡ ok (on_every_subscribe, ltb 0 (bit_and opt 8), ltb 0 (bit_and opt 4), qos))
unfolding unwrap_opt rule_of unwrap_ok
unwrap_opt-rule opt h valid =
    let (qos, e) = qos_there opt valid in
    let zero_bits : bit_and (opt / 16) 0x30 ≡ 0 = eqb→eq _ _ (passes_below_lem _ opt 256 h table) in
    (qos, e, rw (e, zero_bits) refl)
