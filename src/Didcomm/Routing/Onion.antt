-- ===== src/Didcomm/Routing/Onion.antt =====
-- The onion of forward messages: each mediator on the route finds its next hop and what to send on.
use affinidi_messaging.Common.{
  String, List, [], ◌∷◌, ◌++◌, reverse, reverse-cons, zip, length, length-append, Option, none,
  some, ◌≡◌, refl, ◌∙◌, sym, ap, arith, ok, then_ok, then_ok-eq-ok, then_ok_assoc, then_ok_cong,
}
use affinidi_messaging.Json.{Value}
use affinidi_messaging.Didcomm.Error.{ErrorKind}
use affinidi_messaging.Didcomm.Message.{Message}
use affinidi_messaging.Didcomm.Routing.{
  ParsedForward, try_parse_forward, forward_message, Outside, or_kind, build_forward_message,
  wrap_layers, wrap_in_forward,
}
use affinidi_messaging.Didcomm.Routing.Parse.{try_parse_forward-forward_message}

-- The first hop of a route that ends at `to`.
abbrev pub first_hop : List String → String → String
first_hop [] to = to
first_hop (key ∷ keys) to = key

-- The layers, innermost first, each with the hop that follows its mediator.
abbrev layers : List String → String → List (String × String)
layers [] to = []
layers (key ∷ keys) to = layers keys to ++ (key, first_hop keys to) ∷ []

zip-snoc :
    (xs ys : List String) (x y : String)
    → length xs ≡ length ys
    → zip (xs ++ x ∷ []) (ys ++ y ∷ []) ≡ zip xs ys ++ (x, y) ∷ []
unfolding zip
zip-snoc [] [] x y h = refl
zip-snoc [] (b ∷ ys) x y h = absurd (omega arith)
zip-snoc (a ∷ xs) [] x y h = absurd (omega arith)
zip-snoc (a ∷ xs) (b ∷ ys) x y h = ap (◌∷◌ (a, b)) (zip-snoc xs ys x y (omega arith))

length-reverse : (keys : List String) → length (reverse keys) ≡ length keys
length-reverse [] = refl
length-reverse (key ∷ keys) =
    ap length (reverse-cons key keys)
    ∙ omega (arith, length-reverse keys, length-append (reverse keys) (key ∷ []))

zip-layers :
    (key : String) (keys : List String) (to : String)
    → zip (reverse (key ∷ keys)) (reverse (keys ++ to ∷ [])) ≡ layers (key ∷ keys) to
unfolding zip
zip-layers key [] to = refl
zip-layers key (next ∷ keys) to =
    rw (reverse-cons key (next ∷ keys), reverse-cons next (keys ++ to ∷ []))
      (zip-snoc (reverse (next ∷ keys)) (reverse (keys ++ to ∷ [])) key next len
        ∙ ap (λ ls. ls ++ (key, next) ∷ []) (zip-layers next keys to))
  where
    len : length (reverse (next ∷ keys)) ≡ length (reverse (keys ++ to ∷ []))
    len = omega (
      arith,
      length-reverse (next ∷ keys),
      length-reverse (keys ++ to ∷ []),
      length-append keys (to ∷ []),
    )

-- What the mediators on the route do: the holder of each key opens the message that reaches it,
-- finds a forward request to the hop after it, and sends on a text whose JSON is the forwarded
-- one. The last one sends on `msg`.
abbrev pub Route :
    (String → String → Option Message)
    → (String → Option Value)
    → List String
    → String
    → String
    → String
    → Type 0
Route unseal from_str [] to msg w = w ≡ msg
Route unseal from_str (key ∷ keys) to msg w =
    (m : Message) × (p : ParsedForward) × (inner : String) × (unseal key w ≡ some m)
    × (try_parse_forward m ≡ some p)
    × (p.next ≡ first_hop keys to)
    × (from_str inner ≡ some p.forwarded_msg)
    × Route unseal from_str keys to msg inner

or_kind-eq-ok :
    {A : Type 0} (kind : ErrorKind) (x : Option A) {a : A} → or_kind kind x ≡ ok a → x ≡ some a
or_kind-eq-ok kind none h = cc
or_kind-eq-ok kind (some a) h = cc

module _ (o : Outside) (headers : Option (List (String × Value))) where
  open o use {from_str, to_string, message_id, anoncrypt}

  wrap_layers-append :
      (ls : List (String × String)) (l : String × String) (msg : String)
      → wrap_layers o headers (ls ++ l ∷ []) msg
        ≡ then_ok (wrap_layers o headers ls msg) (wrap_layers o headers (l ∷ []))
  unfolding wrap_layers
  wrap_layers-append [] l msg = refl
  wrap_layers-append ((to, next) ∷ ls) l msg =
      then_ok_cong (build_forward_message o msg next headers) _ _ (λ f.
        then_ok_cong (anoncrypt to f) _ _ (λ w. wrap_layers-append ls l w)
        ∙ sym (then_ok_assoc (anoncrypt to f) _ _))
      ∙ sym (then_ok_assoc (build_forward_message o msg next headers) _ _)

  module _ (unseal : String → String → Option Message)
      (unseal-anoncrypt : (key text w : String) (m : Message)
        → to_string m ≡ some text
        → anoncrypt key text ≡ ok w
        → unseal key w ≡ some m) where
    layers-Route :
        (keys : List String) (to msg w : String)
        → wrap_layers o headers (layers keys to) msg ≡ ok w
        → Route unseal from_str keys to msg w
    unfolding wrap_layers build_forward_message
    layers-Route [] to msg w h = cc
    layers-Route (key ∷ keys) to msg w h =
        let (inner, wrapped, outer) =
          then_ok-eq-ok _ _ (sym (wrap_layers-append (layers keys to) _ msg) ∙ h) in
        let (text, built, sealed) = then_ok-eq-ok _ _ outer in
        let (forwarded, read, written) = then_ok-eq-ok _ _ built in
        let (w', crypted, same) = then_ok-eq-ok _ _ sealed in
        let m = forward_message (message_id inner) forwarded (first_hop keys to) headers in
        (
          m,
          record { msg = m; next = first_hop keys to; forwarded_msg = forwarded },
          inner,
          unseal-anoncrypt key text w m (or_kind-eq-ok _ _ written) (crypted ∙ same),
          try_parse_forward-forward_message (message_id inner) (first_hop keys to) forwarded
              headers,
          refl,
          or_kind-eq-ok _ _ read,
          layers-Route keys to msg inner wrapped,
        )

    -- If the holder of a key can undo `anoncrypt` for it and read the message that was serialised,
    -- a message that was wrapped for a route reaches its end unchanged: every mediator finds a
    -- forward request to the next one, in the order of the routing keys, and the last one sends
    -- the original message to `to`.
    pub wrap_in_forward-Route :
        (keys : List String) (to msg w : String)
        → wrap_in_forward o msg headers to keys ≡ ok w
        → Route unseal from_str keys to msg w
    unfolding wrap_in_forward
    wrap_in_forward-Route [] to msg w h = cc
    wrap_in_forward-Route (key ∷ keys) to msg w h =
        layers-Route (key ∷ keys) to msg w (rw (zip-layers key keys to) at h)
