-- ===== src/Node/Handling.antt =====
-- Handlers for several protocols at once.
use state_channels.Common.{
  ◌≡◌, refl, ap, ◌∙◌, Option, none, some, Option-cases, inl, inr, List, [], ◌∷◌, String, str_dec,
  if◌then◌else◌, arith,
}
use state_channels.Common.StringMap
use state_channels.Common.StringMap.{StringMap}
use state_channels.Common.Texts.{has_text}
use state_channels.Errors.{ok, err}
use state_channels.Registrar.{
  Registrar, StreamHandlerOptions, StreamHandlerRecord, get_handler, handle, handler_record,
}
use state_channels.Node.{handle_all}

-- The handler of a protocol after `handle` of several: its own if it had one, and if not the new one if it is among them.
abbrev pub handler_after :
    {H : Type 0}
    → H
    → StreamHandlerOptions
    → List String
    → String
    → Option (StreamHandlerRecord H)
    → Option (StreamHandlerRecord H)
handler_after h o ps q (some r) = some r
handler_after h o ps q none = if has_text q ps then some (handler_record h o) else none

handler_after_nil :
    {H : Type 0} (h : H) (o : StreamHandlerOptions) (q : String)
    (x : Option (StreamHandlerRecord H))
    → x ≡ handler_after h o [] q x
handler_after_nil h o q none = refl
handler_after_nil h o q (some r) = refl

module _ {H T : Type 0} (h : H) (o : StreamHandlerOptions) where
  handle_all_new :
      (r : Registrar H T) (p : String) (ps : List String)
      → StringMap.get p r.handlers ≡ none
      → (handle_all h o r (p ∷ ps)).0
        ≡ (handle_all h o
            (record r { handlers = StringMap.set p (handler_record h o) r.handlers })
            ps).0
  unfolding handle_all handle StringMap.has
  handle_all_new r p ps e = ground (arith, e)

  handle_all_old :
      (r : Registrar H T) (p : String) (ps : List String) (x : StreamHandlerRecord H)
      → StringMap.get p r.handlers ≡ some x
      → (handle_all h o r (p ∷ ps)).0 ≡ (handle_all h o r ps).0
  unfolding handle_all handle StringMap.has
  handle_all_old r p ps x e = ground (arith, e)

  handler_after-set :
      (r : Registrar H T) (p : String) (ps : List String) (q : String)
      → StringMap.get p r.handlers ≡ none
      → handler_after h o ps q (StringMap.get q (StringMap.set p (handler_record h o) r.handlers))
        ≡ handler_after h o (p ∷ ps) q (StringMap.get q r.handlers)
  handler_after-set r p ps q e = elim (str_dec p q) [
    | yes f ↦ ground (arith, e, f, StringMap.get-set p q (handler_record h o) r.handlers)
    | no n ↦ elim (Option-cases (StringMap.get q r.handlers)) [
      | inl k ↦ ground (arith, k, n, StringMap.get-set p q (handler_record h o) r.handlers)
      | inr (x, k) ↦ ground (arith, k, n, StringMap.get-set p q (handler_record h o) r.handlers)
    ]
  ]

  handler_after-old :
      (r : Registrar H T) (p : String) (ps : List String) (q : String) (x : StreamHandlerRecord H)
      → StringMap.get p r.handlers ≡ some x
      → handler_after h o ps q (StringMap.get q r.handlers)
        ≡ handler_after h o (p ∷ ps) q (StringMap.get q r.handlers)
  handler_after-old r p ps q x e = elim (Option-cases (StringMap.get q r.handlers)) [
    | inl k ↦ elim (str_dec p q) [
      | yes f ↦ ground (arith, e, f, k)
      | no n ↦ rw k (ground (arith, n))
    ]
    | inr (y, k) ↦ rw k refl
  ]

  handle_all-get :
      (r : Registrar H T) (ps : List String) (q : String)
      → StringMap.get q ((handle_all h o r ps).0).handlers
        ≡ handler_after h o ps q (StringMap.get q r.handlers)
  handle_all-get r [] q = unfold handle_all in handler_after_nil h o q (StringMap.get q r.handlers)
  handle_all-get r (p ∷ ps) q = elim (Option-cases (StringMap.get p r.handlers)) [
    | inl e ↦
        let r' = record r { handlers = StringMap.set p (handler_record h o) r.handlers } in
        ap (λ x. StringMap.get q x.handlers) (handle_all_new r p ps e)
        ∙ handle_all-get r' ps q
        ∙ handler_after-set r p ps q e
    | inr (x, e) ↦
        ap (λ y. StringMap.get q y.handlers) (handle_all_old r p ps x e)
        ∙ handle_all-get r ps q
        ∙ handler_after-old r p ps q x e
  ]

  -- After `handle` of a list of protocols, whether the call fails or not, a protocol of the list has a handler, the one
  -- that it had before if it had one, and a protocol that is not in the list has what it had.
  pub handle_all-get_handler :
      (r : Registrar H T) (ps : List String) (q : String)
      → get_handler (handle_all h o r ps).0 q ≡ elim (get_handler r q) [
        | ok x ↦ ok x
        | err e ↦ if has_text q ps then ok (handler_record h o) else err e
      ]
  unfolding get_handler
  handle_all-get_handler r ps q = elim (Option-cases (StringMap.get q r.handlers)) [
    | inl e ↦ ground (arith, e, handle_all-get r ps q)
    | inr (x, e) ↦ ground (arith, e, handle_all-get r ps q)
  ]
