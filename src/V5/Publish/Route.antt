-- ===== src/V5/Publish/Route.antt =====
-- `Subscription::route_qos` of v5/mod.rs: the QoS at which a message goes to a subscriber.
use mymq.Base.{ℕ, zero, suc, ◌≤◌, ◌<◌, min, leb, ◌≡◌, refl, arith, Bool-cases, inl, inr}
use mymq.Error.{Result, ok, panic, ◌>>=◌}
use mymq.V5.Qos
use mymq.V5.Qos.{Qos, min_qos}
use mymq.V5.Header.{unwrap_ok}
use mymq.V5.Subscription.{Subscription}
use mymq.V5.Publish.{Publish}

unfoldable pub route_qos : Subscription → Publish → ℕ → Result Qos
unfolding unwrap_ok Qos.try_from min_qos
route_qos subscription packet maximum_qos = do
  server_qos ← unwrap_ok (Qos.try_from maximum_qos)
  ok (min_qos (min_qos server_qos packet.qos) subscription.qos)

min_qos-min : (a b : Qos) → Qos.to_u8 (min_qos a b) ≡ min (Qos.to_u8 a) (Qos.to_u8 b)
unfolding min_qos
min_qos-min a b = elim (Bool-cases (leb (Qos.to_u8 a) (Qos.to_u8 b))) [
  | inl le ↦ rw le (ground arith)
  | inr gt ↦ rw gt (ground arith)
]

read_qos : (val : ℕ) → val ≤ 2 → (qos : Qos) × (Qos.try_from val ≡ ok qos) × (Qos.to_u8 qos ≡ val)
unfolding Qos.try_from Qos.to_u8
read_qos zero h = (Qos.at_most_once, refl, refl)
read_qos (suc zero) h = (Qos.at_least_once, refl, refl)
read_qos (suc (suc zero)) h = (Qos.exactly_once, refl, refl)
read_qos (suc (suc (suc val))) h = absurd (omega arith)

-- A message goes out at the least of the QoS of the server, of the message and of the subscription;
-- a server whose maximum is no QoS panics.
pub route_qos_lem :
    (subscription : Subscription) (packet : Publish) (maximum_qos : ℕ)
    → (maximum_qos ≤ 2
        → (qos : Qos) × (route_qos subscription packet maximum_qos ≡ ok qos)
          × (Qos.to_u8 qos
              ≡ min (min maximum_qos (Qos.to_u8 packet.qos)) (Qos.to_u8 subscription.qos)))
      × (2 < maximum_qos → route_qos subscription packet maximum_qos ≡ panic)
unfolding route_qos
route_qos_lem subscription packet maximum_qos = (
  λ h.
      let (server, e, same) = read_qos maximum_qos h in
      let lower = min_qos server packet.qos in
      (
        min_qos lower subscription.qos,
        rw e refl,
        rw (min_qos-min lower subscription.qos, min_qos-min server packet.qos, same) refl,
      ),
  λ h. unfold unwrap_ok Qos.try_from in ground arith,
)
