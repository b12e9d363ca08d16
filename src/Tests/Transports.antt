-- ===== src/Tests/Transports.antt =====
-- The transport manager at concrete inputs: multiaddrs are texts, and a transport keeps those that it is asked about.
use state_channels.Common.{ℕ, ◌≡◌, refl, ◌↔◌, true, false, none, some, [], ◌∷◌, All, String}
use state_channels.Common.StringMap
use state_channels.Errors.{ok}
use state_channels.TransportManager.{
  TransportManager, Transport, FaultTolerance, fatal_all, failed, add, listen,
}
use state_channels.TransportManager.Listening.{Listens, AnySupports, listen_iff}

abbrev tcp : Transport String ℕ
tcp = record { tag = some "tcp"; filter = λ l. l; dial = λ m. failed none; can_listen = λ m. true }

abbrev empty : FaultTolerance → TransportManager String ℕ
empty f = record { transports = []; listeners = []; fault_tolerance = f; started = false }

abbrev one : FaultTolerance → TransportManager String ℕ
one f = record (empty f) { transports = ("tcp", tcp) ∷ []; listeners = ("tcp", []) ∷ [] }

listen_iff_example : ((listen (one fatal_all) ("a" ∷ [])).1 ≡ ok tt) ↔ (
    All (λ e. Listens ("a" ∷ []) e.1) (one fatal_all).transports
    × AnySupports ("a" ∷ []) (one fatal_all).transports)
listen_iff_example = listen_iff (one fatal_all) "a" [] refl

tcp_added : add (empty fatal_all) tcp ≡ ok (one fatal_all)
unfolding add StringMap.has StringMap.get StringMap.set
tcp_added = refl

abbrev listening : TransportManager String ℕ
listening = record (one fatal_all) { listeners = ("tcp", "a" ∷ "b" ∷ []) ∷ [] }
