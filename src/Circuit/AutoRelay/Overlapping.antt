-- ===== src/Circuit/AutoRelay/Overlapping.antt =====
-- Attempts to listen that overlap: the number of relays is looked at when one begins, and a relay is added when it ends.
use state_channels.Common.{
  ◌≡◌, ◌<◌, ◌+◌, Bool, true, false, not, Option, some, List, [], ◌∷◌, ◌++◌, String, if◌then◌else◌,
  length, length-append, arith,
}
use state_channels.Common.Texts.{has_text, has_text-append, OccursOnce}
use state_channels.Circuit.AutoRelay.{AutoRelay, is_full, end_attempt, add_listen_relay}

-- `_addListenRelay` in two steps: the test, with which it returns or goes on, and what follows its first `await`.
unfoldable pub begin_listen : AutoRelay → Bool
begin_listen s = not (is_full s)

-- The attempts that have gone on end one after the other, with success.
abbrev pub end_all : AutoRelay → List String → AutoRelay
end_all s [] = s
end_all s (id ∷ ids) = end_all (end_attempt s id (some (true ∷ []))) ids

-- The attempts for several relays begin before one of them has ended.
abbrev pub overlapping : AutoRelay → List String → AutoRelay
overlapping s ids = if begin_listen s then end_all s ids else s

abbrev pub AllAbsent : List String → List String → Type 0
AllAbsent seen [] = Unit
AllAbsent seen (id ∷ ids) = (has_text id seen ≡ false) × AllAbsent seen ids

-- One attempt by itself is the handler of the code.
pub one_attempt :
    (listen : String → Option (List Bool)) (s : AutoRelay) (id : String)
    → add_listen_relay listen s id ≡ (if begin_listen s then end_attempt s id (listen id) else s)
unfolding add_listen_relay begin_listen
one_attempt listen s id = ground arith

AllAbsent-append :
    (seen ids : List String) (id : String)
    → AllAbsent seen ids
    → has_text id ids ≡ false
    → AllAbsent (seen ++ id ∷ []) ids
AllAbsent-append seen [] id a h = tt
AllAbsent-append seen (i ∷ ids) id (a, as') h = (
  ground (arith, has_text-append i seen (id ∷ []), a, h),
  AllAbsent-append seen ids id as' (ground (arith, h)),
)

length-end_all :
    (s : AutoRelay) (ids : List String)
    → OccursOnce ids
    → AllAbsent s.listen_relays ids
    → length ((end_all s ids).listen_relays) ≡ length s.listen_relays + length ids
length-end_all s [] o a = omega arith
length-end_all s (id ∷ ids) (n, o) (a, as') =
    let s' : AutoRelay = record s { listen_relays = s.listen_relays ++ id ∷ [] } in
    let ih = length-end_all s' ids o (AllAbsent-append s.listen_relays ids id as' n) in
    ground (arith, ih, a, length-append s.listen_relays (id ∷ []))

-- If fewer than `maxListeners` relays are listened on when attempts for several other relays begin, and none of them ends
-- before all have begun, every one of these relays is added when they succeed, however many they are.
pub length-overlapping :
    (s : AutoRelay) (ids : List String)
    → length s.listen_relays < s.max_listeners
    → OccursOnce ids
    → AllAbsent s.listen_relays ids
    → length ((overlapping s ids).listen_relays) ≡ length s.listen_relays + length ids
unfolding begin_listen
length-overlapping s ids h o a = ground (arith, h, length-end_all s ids o a)
