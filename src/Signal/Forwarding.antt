-- ===== src/Signal/Forwarding.antt =====
-- Messages on their way from one peer to another over the signalling nodes.
use state_channels.Common.{
  ◌≡◌, refl, ap, ◌∙◌, true, none, some, List, [], ◌∷◌, ◌++◌, map, String, All,
}
use state_channels.Common.StringMap
use state_channels.Common.StringMap.{StringMap}
use state_channels.Signal.{
  response, SignallingMessage, Streams, push_found, forward_found, forward, handle_pub_sub_message,
}

module _ {S : Type 0} where
  -- The node has no stream for the peer.
  abbrev pub Misses : String → Streams S → Type 0
  Misses p m = StringMap.get p m ≡ none

  -- A message reaches the other nodes over the signalling topic.
  abbrev pub publish : List (SignallingMessage S) → List (Streams S) → List (Streams S)
  publish [] ms = ms
  publish (msg ∷ msgs) ms = publish msgs (map (λ m. handle_pub_sub_message m true msg) ms)

  -- A message that a peer has sent to one signalling node, `m`, in a network with the others `ms`.
  abbrev pub send :
      Streams S → List (Streams S) → SignallingMessage S → Streams S × List (Streams S)
  send m ms msg = let (m', msgs) = forward true m msg in (m', publish msgs ms)

  missed :
      (m : Streams S) (msg : SignallingMessage S)
      → Misses msg.dst m
      → handle_pub_sub_message m true msg ≡ m
  unfolding handle_pub_sub_message
  missed m msg h = ap (push_found m msg) h

  missed_everywhere :
      (ms : List (Streams S)) (msg : SignallingMessage S)
      → All (Misses msg.dst) ms
      → map (λ m. handle_pub_sub_message m true msg) ms ≡ ms
  missed_everywhere [] msg a = refl
  missed_everywhere (m ∷ ms) msg (h, a) =
      ap (λ x. x ∷ map (λ n. handle_pub_sub_message n true msg) ms) (missed m msg h)
      ∙ ap (λ xs. m ∷ xs) (missed_everywhere ms msg a)

  map_middle :
      (f : Streams S → Streams S) (before after : List (Streams S)) (n : Streams S)
      → map f (before ++ n ∷ after) ≡ map f before ++ f n ∷ map f after
  map_middle f [] after n = refl
  map_middle f (m ∷ before) after n = ap (λ xs. f m ∷ xs) (map_middle f before after n)

  found :
      (n : Streams S) (msg : SignallingMessage S) (q : List (SignallingMessage S))
      → StringMap.get msg.dst n ≡ some q
      → handle_pub_sub_message n true msg ≡ StringMap.set msg.dst (q ++ msg ∷ []) n
  unfolding handle_pub_sub_message
  found n msg q h = ap (push_found n msg) h

  -- If one signalling node of a network, and not the one that a message is sent to, has a stream for its destination, the
  -- message is pushed to this stream, once, and every other stream of every node is as it was.
  pub send_over_topic :
      (m n : Streams S) (before after : List (Streams S)) (msg : SignallingMessage S)
      (q : List (SignallingMessage S))
      → Misses msg.dst m
      → All (Misses msg.dst) before
      → All (Misses msg.dst) after
      → StringMap.get msg.dst n ≡ some q
      → send m (before ++ n ∷ after) msg
        ≡ (m, before ++ StringMap.set msg.dst (q ++ msg ∷ []) n ∷ after)
  unfolding forward
  send_over_topic m n before after msg q h b a k =
      let f = λ (x : Streams S). handle_pub_sub_message x true msg in
      ap
        (λ o. (
          (forward_found true m msg o).0,
          publish ((forward_found true m msg o).1) (before ++ n ∷ after),
        ))
        h
      ∙ ap (λ xs. (m, xs))
          (map_middle f before after n
            ∙ ap (λ xs. xs ++ f n ∷ map f after) (missed_everywhere before msg b)
            ∙ ap (λ x. before ++ x ∷ map f after) (found n msg q k)
            ∙ ap (λ xs. before ++ StringMap.set msg.dst (q ++ msg ∷ []) n ∷ xs)
                (missed_everywhere after msg a))

  -- Messages that a node handles one after the other.
  abbrev pub forward_all : Streams S → List (SignallingMessage S) → Streams S
  forward_all m [] = m
  forward_all m (msg ∷ msgs) = forward_all (forward true m msg).0 msgs

  -- The responses to the offer of a dial.
  abbrev pub responses_to : String → String → List S → List (SignallingMessage S)
  responses_to own dst answers =
      map (λ a. record { type = response; src = dst; dst = own; signal = a }) answers
